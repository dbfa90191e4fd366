-- ===== src/Controller/Carousel/Dispatching.antt =====
-- The two ways of _dispatch in controller.py.
use visiontak_client.Python.{Unicode}
use visiontak_client.Platform.{Platform}
use visiontak_client.Actions.{Action, AnyAction, plain, digit}
use visiontak_client.Ui.Window.Handle.{handle_action}
use visiontak_client.Controller.{Kiosk}
use visiontak_client.Controller.Carousel.{restart_rotation_clock, toggle_rotation, dispatch}

module _ (u : Unicode) (p : Platform) where
  abbrev pub handed_on : AnyAction → Kiosk → Kiosk
  handed_on a k = record (restart_rotation_clock k) {
    window = handle_action u p a (restart_rotation_clock k).window;
  }

  -- What holds when the carousel is toggled and when the window gets the action holds of _dispatch.
  pub dispatch_either :
      (P : Kiosk → Type 0) (a : AnyAction) (k : Kiosk)
      → P (toggle_rotation k)
      → P (handed_on a k)
      → P (dispatch u p a k)
  unfolding dispatch
  dispatch_either P (plain Action.rotate_toggle) k t h = t
  dispatch_either P (plain Action.menu_toggle) k t h = h
  dispatch_either P (plain Action.menu_close) k t h = h
  dispatch_either P (plain Action.menu_up) k t h = h
  dispatch_either P (plain Action.menu_down) k t h = h
  dispatch_either P (plain Action.menu_activate) k t h = h
  dispatch_either P (plain Action.dashboard_next) k t h = h
  dispatch_either P (plain Action.dashboard_prev) k t h = h
  dispatch_either P (plain Action.dashboard_reload) k t h = h
  dispatch_either P (plain Action.dashboard_home) k t h = h
  dispatch_either P (plain Action.info_toggle) k t h = h
  dispatch_either P (plain Action.blank_on) k t h = h
  dispatch_either P (plain Action.blank_off) k t h = h
  dispatch_either P (digit d) k t h = h
