-- ===== src/Controller/Carousel.antt =====
-- src/visiontak_client/controller.py: the carousel and the actions.
pub mod Dispatching
use visiontak_client.Prelude.{not, ◌&&◌, codes, ◌==◌, if◌then◌else◌}
use visiontak_client.Python.{Unicode}
use visiontak_client.Platform.{Platform}
use visiontak_client.Config.Checks.{is_nonzero}
use visiontak_client.Actions.{Action, AnyAction, plain}
use visiontak_client.Ui.MainLoop
use visiontak_client.Ui.Window.{Window, toast}
use visiontak_client.Ui.Window.Handle.{handle_action}
use visiontak_client.Controller.{Kiosk}

-- _cancel_rotation
unfoldable pub cancel_rotation : Kiosk → Kiosk
cancel_rotation k = if k.rotate_source == 0 then k else record k {
  window = record k.window {
    main_loop = MainLoop.source_remove k.rotate_source k.window.main_loop;
  };
  rotate_source = 0;
}

-- GLib.timeout_add_seconds(rotate_interval, _rotate)
unfoldable pub add_rotation : Kiosk → Kiosk
add_rotation k = record k {
  window = record k.window { main_loop = MainLoop.timeout_add MainLoop.rotate k.window.main_loop };
  rotate_source = k.window.main_loop.next;
}

-- _apply_rotation
unfoldable pub apply_rotation : Kiosk → Kiosk
unfolding cancel_rotation add_rotation
apply_rotation k =
    if k.rotating && is_nonzero k.config.rotate_interval
    then add_rotation (cancel_rotation k)
    else cancel_rotation k

-- _restart_rotation_clock
unfoldable pub restart_rotation_clock : Kiosk → Kiosk
unfolding apply_rotation
restart_rotation_clock k = if k.rotate_source == 0 then k else apply_rotation k

abbrev on_window : (Window → Window) → Kiosk → Kiosk
on_window f k = record k { window = f k.window }

-- _toggle_rotation
unfoldable pub toggle_rotation : Kiosk → Kiosk
unfolding apply_rotation
toggle_rotation k =
    if not (is_nonzero k.config.rotate_interval)
    then on_window (toast (codes "Carousel is not configured (rotate-interval=0)")) k
    else on_window (toast (if not k.rotating then codes "Carousel on" else codes "Carousel paused"))
        (apply_rotation (record k { rotating = not k.rotating }))

module _ (u : Unicode) (p : Platform) where
  -- _rotate; the source stays, as it returns SOURCE_CONTINUE.
  unfoldable pub rotate : Kiosk → Kiosk
  rotate k = on_window (handle_action u p (plain Action.dashboard_next)) k

  -- _dispatch
  unfoldable pub dispatch : AnyAction → Kiosk → Kiosk
  unfolding toggle_rotation restart_rotation_clock
  dispatch (plain Action.rotate_toggle) k = toggle_rotation k
  dispatch a k = on_window (handle_action u p a) (restart_rotation_clock k)
