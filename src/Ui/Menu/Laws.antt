-- ===== src/Ui/Menu/Laws.antt =====
-- The chooser of ui/menu.py keeps a highlighted entry in range, whatever it is told to do.
use visiontak_client.Prelude.{
  ℕ, suc, ◌+◌, ◌-◌, ◌<◌, ◌≡◌, refl, false, none, some, List, [], ◌∷◌, ℤ, pos, negsuc, ◌+ℤ◌, mod_ℤ,
  mod_ℤ-lt, min, arith, ltb, if◌then◌else◌, length, is_empty, ap, Bool-cases, inl, inr, lt→ltb,
  ltb→lt, if_keeps, zero, ◌%◌, ◌∙◌,
}
use native.Mathlib.Nat.{mod-eq_of_lt, mod_self}
use visiontak_client.Models.{Dashboard}
use visiontak_client.Ui.Menu.{
  Menu, init, build_rows, clamp, select, set_dashboards, open_at, close, toggle, move,
}

-- With a dashboard to choose: the entry is in range and its row is the selected one.
abbrev pub Highlights : Menu → Type 0
Highlights m = (m.selected < length m.dashboards) × (m.selected_row ≡ some m.selected)

pub record IsValid (m : Menu) : Type 0 where
  pub rows : m.rows ≡ build_rows 1 m.dashboards
  pub highlighted : is_empty m.dashboards ≡ false → Highlights m

pub init-IsValid : IsValid init
unfolding build_rows
init-IsValid = record { rows = refl; highlighted = λ h. cc }

pub length-build_rows : (n : ℕ) (ds : List Dashboard) → length (build_rows n ds) ≡ length ds
unfolding build_rows
length-build_rows n [] = refl
length-build_rows n (d ∷ ds) = ap suc (length-build_rows (suc n) ds)

pub length-pos {ℓ} : {A : Type ℓ} (l : List A) → is_empty l ≡ false → 0 < length l
length-pos [] h = cc
length-pos (x ∷ l) h = omega arith

clamp-lt : (index : ℤ) (n : ℕ) → 0 < n → clamp index n < n
unfolding clamp
clamp-lt index n h = omega arith

-- A selection needs the rows alone.
pub select-IsValid :
    (index : ℤ) (m : Menu) → m.rows ≡ build_rows 1 m.dashboards → IsValid (select index m)
unfolding select
select-IsValid index m r = elim (Bool-cases (is_empty m.dashboards)) [
  | inl e ↦ rw (e, select) (record { rows = r; highlighted = λ h. cc (e, h) })
  | inr e ↦
      let inside = clamp-lt index (length m.dashboards) (length-pos m.dashboards e) in
      let many = length-build_rows 1 m.dashboards in
      rw (e, select)
        (record {
          rows = r;
          highlighted = λ h. (
            inside,
            rw
                (lt→ltb (clamp index (length m.dashboards)) (length m.rows)
                  (omega (arith, inside, many, ap length r)))
                refl,
          );
        })
]

pub dashboards-select : (index : ℤ) (m : Menu) → (select index m).dashboards ≡ m.dashboards
unfolding select
dashboards-select index m = ground arith

pub set_dashboards-IsValid : (ds : List Dashboard) (m : Menu) → IsValid (set_dashboards ds m)
unfolding set_dashboards
set_dashboards-IsValid ds m =
    select-IsValid (pos (min m.selected (length ds - 1)))
      (record m { dashboards = ds; rows = build_rows 1 ds; selected_row = none }) refl

pub dashboards-set_dashboards :
    (ds : List Dashboard) (m : Menu) → (set_dashboards ds m).dashboards ≡ ds
unfolding set_dashboards
dashboards-set_dashboards ds m =
    dashboards-select (pos (min m.selected (length ds - 1)))
      (record m { dashboards = ds; rows = build_rows 1 ds; selected_row = none })

module _ (m : Menu) where
  pub close-IsValid : IsValid m → IsValid (close m)
  unfolding close
  close-IsValid h = record { rows = h.rows; highlighted = h.highlighted }

  pub open_at-IsValid : (current : ℕ) → IsValid m → IsValid (open_at current m)
  unfolding open_at
  open_at-IsValid current h = elim (Bool-cases (is_empty m.dashboards)) [
    | inl e ↦ rw (e, open_at) h
    | inr e ↦
        let s = select-IsValid (pos current) m h.rows in
        rw (e, open_at) (record { rows = s.rows; highlighted = s.highlighted })
  ]

  pub toggle-IsValid : (current : ℕ) → IsValid m → IsValid (toggle current m)
  unfolding toggle
  toggle-IsValid current h =
      if_keeps IsValid m.is_open (λ e. close-IsValid h) (λ e. open_at-IsValid current h)

  pub move-IsValid : (delta : ℤ) → IsValid m → IsValid (move delta m)
  unfolding move
  move-IsValid delta h = elim (Bool-cases (is_empty m.dashboards)) [
    | inl e ↦ rw (e, move) h
    | inr e ↦
        rw (e, move)
          (select-IsValid (pos (mod_ℤ (pos m.selected +ℤ delta) (length m.dashboards))) m h.rows)
  ]

  pub dashboards-open_at : (current : ℕ) → (open_at current m).dashboards ≡ m.dashboards
  unfolding open_at
  dashboards-open_at current = ground (arith, dashboards-select (pos current) m)

  pub dashboards-toggle : (current : ℕ) → (toggle current m).dashboards ≡ m.dashboards
  unfolding toggle close
  dashboards-toggle current = ground (arith, dashboards-open_at current)

  pub dashboards-move : (delta : ℤ) → (move delta m).dashboards ≡ m.dashboards
  unfolding move
  dashboards-move delta =
      ground
        (arith, dashboards-select (pos (mod_ℤ (pos m.selected +ℤ delta) (length m.dashboards))) m)

  -- The entry that a move highlights, on a menu that is not empty.
  pub selected-move :
      (delta : ℤ)
      → is_empty m.dashboards ≡ false
      → (move delta m).selected ≡ mod_ℤ (pos m.selected +ℤ delta) (length m.dashboards)
  unfolding move select clamp
  selected-move delta e =
      let n = length m.dashboards in
      let inside = mod_ℤ-lt (pos m.selected +ℤ delta) n (length-pos m.dashboards e) in
      rw (e, move) (omega (arith, inside))

-- One entry down and one up, round the ends.
next_entry : (i n : ℕ) → i < n → (i + 1) % n ≡ (if ltb (i + 1) n then i + 1 else 0)
next_entry i n h = elim (Bool-cases (ltb (i + 1) n)) [
  | inl e ↦ rw e (mod-eq_of_lt (ltb→lt (i + 1) n e))
  | inr e ↦ let last : n ≡ i + 1 = ground arith in rw (e, last) (mod_self (i + 1))
]

down : (i n : ℕ) → i < n → mod_ℤ (pos i +ℤ pos 1) n ≡ (if ltb (i + 1) n then i + 1 else 0)
unfolding ◌+ℤ◌
down i n h = ground (arith, next_entry i n h)

up : (i n : ℕ) → i < n → mod_ℤ (pos i +ℤ negsuc 0) n ≡ (if ltb 0 i then i - 1 else n - 1)
unfolding ◌+ℤ◌
up zero n h = omega arith
up (suc i) n h = ground (arith, mod-eq_of_lt {n = i} {m = n})

down_up : (i n : ℕ) → i < n → mod_ℤ (pos (mod_ℤ (pos i +ℤ pos 1) n) +ℤ negsuc 0) n ≡ i
down_up i n h = rw (down i n h) (
    if_keeps (λ k. mod_ℤ (pos k +ℤ negsuc 0) n ≡ i) (ltb (i + 1) n)
      (λ e. up (i + 1) n (ltb→lt (i + 1) n e) ∙ ground arith)
      (λ e. up 0 n (omega arith) ∙ ground arith))

up_down : (i n : ℕ) → i < n → mod_ℤ (pos (mod_ℤ (pos i +ℤ negsuc 0) n) +ℤ pos 1) n ≡ i
up_down i n h = rw (up i n h) (
    if_keeps (λ k. mod_ℤ (pos k +ℤ pos 1) n ≡ i) (ltb 0 i)
      (λ e. down (i - 1) n (omega arith) ∙ ground arith)
      (λ e. down (n - 1) n (omega arith) ∙ ground arith))

-- On a well-formed chooser that is not empty, a move down and then up, and a move up and then down,
-- lead back to the highlighted entry.
pub selected-move-move :
    (m : Menu)
    → IsValid m
    → is_empty m.dashboards ≡ false
    → ((move (negsuc 0) (move (pos 1) m)).selected ≡ m.selected)
      × ((move (pos 1) (move (negsuc 0) m)).selected ≡ m.selected)
selected-move-move m h e =
    let n = length m.dashboards in
    let inside = (h.highlighted e).0 in
    (
      selected-move (move (pos 1) m) (negsuc 0) (rw dashboards-move e)
          ∙ rw (dashboards-move m (pos 1), selected-move m (pos 1) e) (down_up m.selected n inside),
      selected-move (move (negsuc 0) m) (pos 1) (rw dashboards-move e)
          ∙ rw (dashboards-move m (negsuc 0), selected-move m (negsuc 0) e)
              (up_down m.selected n inside),
    )
