-- ===== src/Ui/Menu.antt =====
-- src/visiontak_client/ui/menu.py: the chooser. `activate_selected` and `_on_row_activated` call back
-- into the window, so they stand with the window.
pub mod Laws
use visiontak_client.Prelude.{
  ℕ, suc, ◌+◌, ◌-◌, Bool, true, false, Option, none, some, List, [], ◌∷◌, Text, ℤ, pos, ◌+ℤ◌,
  max_zero, mod_ℤ, min, leb, ltb, if◌then◌else◌, length, is_empty,
}
use visiontak_client.Models.{Dashboard}

-- A row of the list box: the number (none is the bullet of rows after the ninth), title, subtitle.
pub record Row : Type 0 where
  pub badge : Option ℕ
  pub title : Text
  pub subtitle : Option Text

pub record Menu : Type 0 where
  pub dashboards : List Dashboard
  pub selected : ℕ
  pub is_open : Bool
  pub rows : List Row
  pub selected_row : Option ℕ

-- __init__
abbrev pub init : Menu
init = record { dashboards = []; selected = 0; is_open = false; rows = []; selected_row = none }

unfoldable pub build_row : ℕ → Dashboard → Row
build_row number d = record {
  badge = if leb number 9 then some number else none;
  title = d.name;
  subtitle = if is_empty d.group then none else some d.group;
}

-- The loop of `set_dashboards` that appends the rows, from the number `number` on.
unfoldable pub build_rows : ℕ → List Dashboard → List Row
build_rows number [] = []
build_rows number (d ∷ ds) = build_row number d ∷ build_rows (suc number) ds

-- max(0, min(index, n - 1))
unfoldable pub clamp : ℤ → ℕ → ℕ
clamp index n = min (max_zero index) (n - 1)

unfoldable pub select : ℤ → Menu → Menu
select index m =
    if is_empty m.dashboards
    then m
    else let i = clamp index (length m.dashboards) in
      record m {
        selected = i;
        selected_row = if ltb i (length m.rows) then some i else m.selected_row;
      }

unfoldable pub set_dashboards : List Dashboard → Menu → Menu
set_dashboards ds m =
    select (pos (min m.selected (length ds - 1)))
      (record m { dashboards = ds; rows = build_rows 1 ds; selected_row = none })

unfoldable pub open_at : ℕ → Menu → Menu
open_at current m =
    if is_empty m.dashboards then m else record (select (pos current) m) { is_open = true }

unfoldable pub close : Menu → Menu
close m = record m { is_open = false }

unfoldable pub toggle : ℕ → Menu → Menu
toggle current m = if m.is_open then close m else open_at current m

unfoldable pub move : ℤ → Menu → Menu
move delta m =
    if is_empty m.dashboards
    then m
    else select (pos (mod_ℤ (pos m.selected +ℤ delta) (length m.dashboards))) m
