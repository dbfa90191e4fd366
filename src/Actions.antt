-- ===== src/Actions.antt =====
-- src/visiontak_client/actions.py
use visiontak_client.Prelude.{ℕ, leb, if◌then◌else◌}
use visiontak_client.Python.{Result, ok, raise, value_error}

pub data Action : Type 0 where
  menu_toggle menu_close menu_up menu_down menu_activate : Action
  dashboard_next dashboard_prev dashboard_reload dashboard_home : Action
  rotate_toggle info_toggle blank_on blank_off : Action

-- `Action | DigitAction`
pub data AnyAction : Type 0 where
  plain : Action → AnyAction
  digit : ℕ → AnyAction

-- DigitAction(digit)
unfoldable pub digit_action : ℕ → Result AnyAction
digit_action d = if leb d 9 then ok (digit d) else raise value_error
