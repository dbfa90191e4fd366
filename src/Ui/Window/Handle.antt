-- ===== src/Ui/Window/Handle.antt =====
-- src/visiontak_client/ui/kiosk_window.py: handle_action and the handlers behind it.
use visiontak_client.Prelude.{
  ℕ, ◌-◌, Bool, true, false, Option, none, some, [], ◌∷◌, ◌++◌, codes, ℤ, pos, negsuc, ◌+ℤ◌,
  max_zero, ltb, if◌then◌else◌, length, get_elem?, is_empty, lookup,
}
use visiontak_client.Python.{Unicode}
use visiontak_client.Platform.{Platform}
use visiontak_client.Models.{Dashboard}
use visiontak_client.Actions.{Action, AnyAction, plain, digit}
use visiontak_client.Ui.Menu
use visiontak_client.Ui.Menu.{Menu}
use visiontak_client.Ui.Pool.{reload}
use visiontak_client.Ui.Window.{Window, current_dashboard, toast, toggle_info}
use visiontak_client.Ui.Window.Show.{show_index}

unfoldable pub reload_current : Window → Window
reload_current w = elim (current_dashboard w) [
  | none ↦ w
  | some d ↦ elim (lookup d.id w.pool.views) [
    | none ↦ w
    | some v ↦
        toast (codes "Reloading " ++ d.name)
          (record w { pool = record w.pool { calls = w.pool.calls ++ reload d.id ∷ [] } })
  ]
]

unfoldable pub on_menu : (Menu → Menu) → Window → Window
on_menu f w = record w { menu = f w.menu }

-- max(self._current, 0)
unfoldable pub menu_index : Window → ℕ
menu_index w = max_zero w.current

unfoldable pub menu_step : ℤ → Window → Window
menu_step delta w =
    if w.menu.is_open then on_menu (Menu.move delta) w else on_menu (Menu.open_at (menu_index w)) w

-- The toast of the name of the dashboard at an index.
unfoldable pub toast_name : Option Dashboard → Window → Window
toast_name none w = w
toast_name (some d) w = toast d.name w

unfoldable pub digit_index : ℕ → ℕ
digit_index d = if ltb 0 d then d - 1 else 9

unfoldable pub set_blanked : Bool → Window → Window
set_blanked b w = record w { blanked = b }

module _ (u : Unicode) (p : Platform) where
  -- _on_menu_activate, called by the chooser
  unfoldable pub on_menu_activate : ℕ → Window → Window
  on_menu_activate index w = show_index u p (pos index) (on_menu Menu.close w)

  -- DashboardMenu.activate_selected, with its callback
  unfoldable pub activate_selected : Window → Window
  activate_selected w = if is_empty w.menu.dashboards then w else on_menu_activate w.menu.selected w

  unfoldable pub activate : Window → Window
  activate w =
      if w.menu.is_open then activate_selected w else on_menu (Menu.open_at (menu_index w)) w

  unfoldable pub step : ℤ → Window → Window
  step delta w =
      let shown = show_index u p (w.current +ℤ delta) w in
      if w.menu.is_open
      then on_menu (Menu.move delta) w
      else if is_empty w.dashboards
      then w
      else toast_name (current_dashboard shown) shown

  unfoldable pub jump_to_digit : ℕ → Window → Window
  jump_to_digit d w =
      let i = digit_index d in
      if ltb i (length w.dashboards)
      then toast_name (get_elem? w.dashboards i) (show_index u p (pos i) (on_menu Menu.close w))
      else w

  -- The handlers of handle_action; ROTATE_TOGGLE has none.
  unfoldable pub handle_plain : Action → Window → Window
  handle_plain Action.menu_toggle w = on_menu (Menu.toggle (menu_index w)) w
  handle_plain Action.menu_close w = on_menu Menu.close w
  handle_plain Action.menu_up w = menu_step (negsuc 0) w
  handle_plain Action.menu_down w = menu_step (pos 1) w
  handle_plain Action.menu_activate w = activate w
  handle_plain Action.dashboard_next w = step (pos 1) w
  handle_plain Action.dashboard_prev w = step (negsuc 0) w
  handle_plain Action.dashboard_reload w = reload_current w
  handle_plain Action.dashboard_home w = show_index u p (pos 0) w
  handle_plain Action.rotate_toggle w = w
  handle_plain Action.info_toggle w = toggle_info u p w
  handle_plain Action.blank_on w = set_blanked true w
  handle_plain Action.blank_off w = set_blanked false w

  unfoldable pub handle_action : AnyAction → Window → Window
  handle_action (plain a) w = handle_plain a w
  handle_action (digit d) w = jump_to_digit d w
