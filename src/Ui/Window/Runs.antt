-- ===== src/Ui/Window/Runs.antt =====
-- Runs of the window of ui/kiosk_window.py: any calls of its methods, in any order, after __init__.
use visiontak_client.Prelude.{
  ℕ, refl, Bool, false, Option, List, [], ◌∷◌, Text, ℤ, negsuc, arith, if_keeps, is_empty, contains,
  All, ◌≡◌,
}
use visiontak_client.Python.{Unicode}
use visiontak_client.Platform.{Platform}
use visiontak_client.Config.{Config}
use visiontak_client.Models.{Dashboard}
use visiontak_client.Actions.{AnyAction}
use visiontak_client.Ui.Menu
use visiontak_client.Ui.Menu.Laws as MenuLaws
use visiontak_client.Ui.Pool
use visiontak_client.Ui.Pool.{web_view, setup_screen, set_visible_child, live_limit}
use visiontak_client.Ui.Pool.Shape
use visiontak_client.Ui.Window.{
  Window, setup_status, set_enrolment_status, leave_setup, toast, hide_toast, set_status,
}
use visiontak_client.Ui.Window.Show.{
  show_index, any_refused, set_dashboards, on_load_started, on_load_finished, on_load_failed,
}
use visiontak_client.Ui.Window.Handle.{handle_action, set_blanked, on_menu_activate}
use visiontak_client.Ui.Window.Create.{create}
use visiontak_client.Ui.Window.Invariant.{IsReady, IsValid, show_index-IsValid}
use visiontak_client.Ui.Window.Methods.{
  toast-IsValid, set_blanked-IsValid, on_load_started-IsValid, on_load_finished-IsValid,
  leave_setup-IsValid, set_status-IsValid, set_dashboards-IsValid, on_load_failed-IsValid,
  handle_action-IsValid, on_menu_activate-IsValid,
}

-- A call of a method from outside: the controller, the keyboard, a signal or a timeout.
pub data Call : Type 0 where
  dashboards : List Dashboard → Call
  action : AnyAction → Call
  show : ℤ → Call
  row_activated : ℕ → Call
  load_started load_finished load_failed : Text → Call
  blank : Bool → Call
  message : Text → Call
  toast_timeout setup_done : Call
  cec enrolment : Text → Call
  setup_message : Text → Bool → Call

module _ (u : Unicode) (p : Platform) where
  unfoldable pub call : Call → Window → Window
  call (dashboards ds) w = set_dashboards u p ds w
  call (action a) w = handle_action u p a w
  call (show i) w = show_index u p i w
  call (row_activated i) w = on_menu_activate u p i w
  call (load_started id) w = on_load_started id w
  call (load_finished id) w = on_load_finished id w
  call (load_failed uri) w = on_load_failed u p uri w
  call (blank b) w = set_blanked b w
  call (message m) w = toast m w
  call toast_timeout w = hide_toast w
  call setup_done w = leave_setup w
  call (cec s) w = set_status u p s w
  call (enrolment m) w = set_enrolment_status m w
  call (setup_message m e) w = setup_status m e w

  unfoldable pub run : List Call → Window → Window
  run [] w = w
  run (c ∷ cs) w = run cs (call c w)

  pub create-IsValid : (detail : Option Text) (c : Config) → IsValid (create u p detail c)
  unfolding create set_visible_child
  create-IsValid detail c =
      if_keeps
        (λ pool. IsReady (record {
          config = c;
          dashboards = [];
          pool = pool;
          current = negsuc 0;
          menu = Menu.init;
          needs_setup = is_empty c.server_url;
          loading_visible = false;
        }))
        (is_empty c.server_url)
        (λ e. record {
          sound = record {
            pool_valid = Shape.set_visible_child-IsValid setup_screen Pool.init Shape.init-IsValid;
            few = omega arith;
            menu_valid = MenuLaws.init-IsValid;
            menu_same = refl;
            live = λ k q. unfold contains in cc q;
          };
          in_setup = λ s. (refl, refl);
          shown = refl;
        })
        (λ e. record {
          sound = record {
            pool_valid = Shape.init-IsValid;
            few = omega arith;
            menu_valid = MenuLaws.init-IsValid;
            menu_same = refl;
            live = λ k q. unfold contains in cc q;
          };
          in_setup = λ s. cc (s, e);
          shown = refl;
        })

  -- No address of a new list is refused by urlparse.
  abbrev pub IsAccepted : Call → Type 0
  IsAccepted (dashboards ds) = any_refused p ds ≡ false
  IsAccepted c = Unit

  call-IsValid : (c : Call) (w : Window) → IsAccepted c → IsValid w → IsValid (call c w)
  unfolding call hide_toast set_enrolment_status setup_status
  call-IsValid (dashboards ds) w a h = set_dashboards-IsValid u p ds w a h
  call-IsValid (action x) w a h = handle_action-IsValid u p x w h
  call-IsValid (show i) w a h = show_index-IsValid u p i w h
  call-IsValid (row_activated i) w a h = on_menu_activate-IsValid u p i w h
  call-IsValid (load_started id) w a h = on_load_started-IsValid w h id
  call-IsValid (load_finished id) w a h = on_load_finished-IsValid w h id
  call-IsValid (load_failed uri) w a h = on_load_failed-IsValid u p uri w h
  call-IsValid (blank b) w a h = set_blanked-IsValid w h b
  call-IsValid (message m) w a h = toast-IsValid m w h
  call-IsValid toast_timeout w a h = record {
    sound = h.sound;
    in_setup = h.in_setup;
    shown = h.shown;
  }
  call-IsValid setup_done w a h = leave_setup-IsValid w h
  call-IsValid (cec s) w a h = set_status-IsValid u p s w h
  call-IsValid (enrolment m) w a h = record {
    sound = h.sound;
    in_setup = h.in_setup;
    shown = h.shown;
  }
  call-IsValid (setup_message m e) w a h = record {
    sound = h.sound;
    in_setup = h.in_setup;
    shown = h.shown;
  }

  run-IsValid-from :
      (cs : List Call) (w : Window) → All IsAccepted cs → IsValid w → IsValid (run cs w)
  unfolding run
  run-IsValid-from [] w a h = h
  run-IsValid-from (c ∷ cs) w a h = run-IsValid-from cs (call c w) a.1 (call-IsValid c w a.0 h)

  -- After __init__ and any calls, provided urlparse refuses no address of the lists of dashboards that
  -- the window is given: the pool of web views is well formed, no more web views live
  -- than the limit, each for a listed dashboard; the chooser lists the window's dashboards with a
  -- highlighted entry in range; while the setup is on there are no dashboards and the setup screen
  -- is shown; else, if there are dashboards, one is current, its live web view is what the stack
  -- shows, and the loading cover is up exactly while the id of that dashboard is among those that are
  -- marked as loading.
  pub run-IsValid :
      (detail : Option Text) (c : Config) (cs : List Call)
      → All IsAccepted cs
      → IsValid (run cs (create u p detail c))
  run-IsValid detail c cs a = run-IsValid-from cs (create u p detail c) a (create-IsValid detail c)
