-- ===== src/Ui/Window/Frame.antt =====
-- What the methods of ui/kiosk_window.py leave alone: the settings, the setup screen, and the main loop
-- but for the timeout of the toast.
use visiontak_client.Prelude.{
  ℕ, ◌≡◌, Bool, true, false, Option, none, some, List, Text, ℤ, pos, ◌==◌, ltb, if◌then◌else◌,
  if_keeps, is_empty, length, Option-cases, inl, inr, lookup,
}
use visiontak_client.Python.{Unicode}
use visiontak_client.Platform.{Platform}
use visiontak_client.Config.{Config}
use visiontak_client.Models.{Dashboard}
use visiontak_client.Actions.{Action, AnyAction, plain, digit}
use visiontak_client.Ui.MainLoop
use visiontak_client.Ui.MainLoop.{MainLoop}
use visiontak_client.Ui.Setup.{SetupScreen}
use visiontak_client.Ui.Window.{
  Window, current_dashboard, toast, hide_toast, sync_loading, update_info, toggle_info, set_status,
  set_enrolment_status,
}
use visiontak_client.Ui.Window.Show.{
  show_at, show_index, any_refused, set_dashboards, on_load_started, on_load_finished,
  on_load_failed,
}
use visiontak_client.Ui.Window.Handle.{
  reload_current, on_menu, menu_step, toast_name, set_blanked, on_menu_activate, activate_selected,
  activate, step, jump_to_digit, digit_index, handle_plain, handle_action,
}
use visiontak_client.Ui.Window.Runs.{
  Call, dashboards, action, show, row_activated, load_started, load_finished, load_failed, blank,
  message, toast_timeout, setup_done, cec, enrolment, setup_message, call,
}

pub record Frame : Type 0 where
  pub config : Config
  pub needs_setup : Bool
  pub setup : SetupScreen
  pub main_loop : MainLoop
  pub toast_source : ℕ

abbrev pub frame : Window → Frame
frame w = record {
  config = w.config;
  needs_setup = w.needs_setup;
  setup = w.setup;
  main_loop = w.main_loop;
  toast_source = w.toast_source;
}

-- What toast and _hide_toast do to it.
abbrev pub stop_toast : Frame → MainLoop
stop_toast f =
    if f.toast_source == 0 then f.main_loop else MainLoop.source_remove f.toast_source f.main_loop

abbrev pub toasted : Frame → Frame
toasted f = record f {
  toast_source = (stop_toast f).next;
  main_loop = MainLoop.timeout_add MainLoop.hide_toast (stop_toast f);
}

abbrev pub hidden : Frame → Frame
hidden f = record f {
  toast_source = 0;
  main_loop = MainLoop.source_remove f.toast_source f.main_loop;
}

-- setup_status and leave_setup
abbrev pub is_setup_call : Call → Bool
is_setup_call setup_done = true
is_setup_call (setup_message m e) = true
is_setup_call c = false

-- A property of the frame that a toast keeps is kept by every method.
module _ (u : Unicode) (p : Platform) (P : Frame → Type 0)
    (on_toast : (f : Frame) → P f → P (toasted f)) where
  pub toast-keeps : (m : Text) (w : Window) → P (frame w) → P (frame (toast m w))
  unfolding toast
  toast-keeps m w h = on_toast (frame w) h

  update_info-keeps : (w : Window) → P (frame w) → P (frame (update_info u p w))
  unfolding update_info
  update_info-keeps w h = if_keeps (λ w. P (frame w)) w.info_visible (λ e. h) (λ e. h)

  show_at-keeps :
      (i : ℕ) (o : Option Dashboard) (w : Window) → P (frame w) → P (frame (show_at u p i o w))
  unfolding show_at sync_loading
  show_at-keeps i none w h = h
  show_at-keeps i (some d) w h = update_info-keeps _ h

  pub show_index-keeps : (i : ℤ) (w : Window) → P (frame w) → P (frame (show_index u p i w))
  unfolding show_index
  show_index-keeps i w h =
      if_keeps (λ w. P (frame w)) (is_empty w.dashboards) (λ e. h) (λ e. show_at-keeps _ _ w h)

  pub set_dashboards-keeps :
      (ds : List Dashboard) (w : Window) → P (frame w) → P (frame (set_dashboards u p ds w))
  unfolding set_dashboards
  set_dashboards-keeps ds w h =
      if_keeps (λ w. P (frame w)) w.needs_setup (λ e. h)
        (λ e.
          if_keeps (λ w. P (frame w)) (any_refused p ds) (λ e. h)
            (λ e.
              if_keeps (λ w. P (frame w)) (is_empty ds) (λ e. toast-keeps _ _ h)
                (λ e. show_index-keeps _ _ h)))

  on_load_finished-keeps :
      (id : Text) (w : Window) → P (frame w) → P (frame (on_load_finished id w))
  unfolding on_load_finished sync_loading
  on_load_finished-keeps id w h = h

  on_load_failed-keeps :
      (uri : Text) (w : Window) → P (frame w) → P (frame (on_load_failed u p uri w))
  unfolding on_load_failed
  on_load_failed-keeps uri w h =
      let cleared : P
          (frame (elim (current_dashboard w) [ none ↦ w | some d ↦ on_load_finished d.id w ])) =
        elim (Option-cases (current_dashboard w)) [
          | inl e ↦ rw e h
          | inr (d, e) ↦ rw e (on_load_finished-keeps d.id w h)
        ] in
      if_keeps (λ w. P (frame w)) (p.refuses uri) (λ e. cleared) (λ e. toast-keeps _ _ cleared)

  toast_name-keeps : (o : Option Dashboard) (w : Window) → P (frame w) → P (frame (toast_name o w))
  unfolding toast_name
  toast_name-keeps none w h = h
  toast_name-keeps (some d) w h = toast-keeps d.name w h

  on_menu_activate-keeps : (i : ℕ) (w : Window) → P (frame w) → P (frame (on_menu_activate u p i w))
  unfolding on_menu_activate on_menu
  on_menu_activate-keeps i w h = show_index-keeps (pos i) _ h

  menu_step-keeps : (d : ℤ) (w : Window) → P (frame w) → P (frame (menu_step d w))
  unfolding menu_step on_menu
  menu_step-keeps d w h = if_keeps (λ w. P (frame w)) w.menu.is_open (λ e. h) (λ e. h)

  activate-keeps : (w : Window) → P (frame w) → P (frame (activate u p w))
  unfolding activate activate_selected on_menu
  activate-keeps w h =
      if_keeps (λ w. P (frame w)) w.menu.is_open
        (λ e.
          if_keeps (λ w. P (frame w)) (is_empty w.menu.dashboards) (λ e. h)
            (λ e. on_menu_activate-keeps _ w h))
        (λ e. h)

  step-keeps : (d : ℤ) (w : Window) → P (frame w) → P (frame (step u p d w))
  unfolding step on_menu
  step-keeps d w h =
      if_keeps (λ w. P (frame w)) w.menu.is_open (λ e. h)
        (λ e.
          if_keeps (λ w. P (frame w)) (is_empty w.dashboards) (λ e. h)
            (λ e. toast_name-keeps _ _ (show_index-keeps _ w h)))

  jump_to_digit-keeps : (d : ℕ) (w : Window) → P (frame w) → P (frame (jump_to_digit u p d w))
  unfolding jump_to_digit on_menu
  jump_to_digit-keeps d w h =
      if_keeps (λ w. P (frame w)) (ltb (digit_index d) (length w.dashboards))
        (λ e. toast_name-keeps _ _ (show_index-keeps _ _ h)) (λ e. h)

  reload_current-keeps : (w : Window) → P (frame w) → P (frame (reload_current w))
  unfolding reload_current
  reload_current-keeps w h = elim (Option-cases (current_dashboard w)) [
    | inl e ↦ rw (e, reload_current) h
    | inr (d, e) ↦ elim (Option-cases (lookup d.id w.pool.views)) [
      | inl q ↦ rw (e, q, reload_current) h
      | inr (v, q) ↦ rw (e, q, reload_current) (toast-keeps _ _ h)
    ]
  ]

  handle_plain-keeps : (a : Action) (w : Window) → P (frame w) → P (frame (handle_plain u p a w))
  unfolding handle_plain on_menu toggle_info set_blanked
  handle_plain-keeps Action.menu_toggle w h = h
  handle_plain-keeps Action.menu_close w h = h
  handle_plain-keeps Action.menu_up w h = menu_step-keeps _ w h
  handle_plain-keeps Action.menu_down w h = menu_step-keeps _ w h
  handle_plain-keeps Action.menu_activate w h = activate-keeps w h
  handle_plain-keeps Action.dashboard_next w h = step-keeps _ w h
  handle_plain-keeps Action.dashboard_prev w h = step-keeps _ w h
  handle_plain-keeps Action.dashboard_reload w h = reload_current-keeps w h
  handle_plain-keeps Action.dashboard_home w h = show_index-keeps _ w h
  handle_plain-keeps Action.rotate_toggle w h = h
  handle_plain-keeps Action.info_toggle w h = update_info-keeps _ h
  handle_plain-keeps Action.blank_on w h = h
  handle_plain-keeps Action.blank_off w h = h

  pub handle_action-keeps :
      (a : AnyAction) (w : Window) → P (frame w) → P (frame (handle_action u p a w))
  unfolding handle_action
  handle_action-keeps (plain a) w h = handle_plain-keeps a w h
  handle_action-keeps (digit d) w h = jump_to_digit-keeps d w h

  module _ (on_hide : (f : Frame) → P f → P (hidden f)) where
    -- Every call but those that report on the setup.
    pub call-keeps :
        (c : Call) (w : Window) → is_setup_call c ≡ false → P (frame w) → P (frame (call u p c w))
    unfolding call set_status set_enrolment_status hide_toast set_blanked on_load_started
        sync_loading
    call-keeps (dashboards ds) w s h = set_dashboards-keeps ds w h
    call-keeps (action a) w s h = handle_action-keeps a w h
    call-keeps (show i) w s h = show_index-keeps i w h
    call-keeps (row_activated i) w s h = on_menu_activate-keeps i w h
    call-keeps (load_started id) w s h = h
    call-keeps (load_finished id) w s h = on_load_finished-keeps id w h
    call-keeps (load_failed uri) w s h = on_load_failed-keeps uri w h
    call-keeps (blank b) w s h = h
    call-keeps (message m) w s h = toast-keeps m w h
    call-keeps toast_timeout w s h = on_hide (frame w) h
    call-keeps setup_done w s h = cc s
    call-keeps (cec t) w s h = update_info-keeps _ h
    call-keeps (enrolment m) w s h = h
    call-keeps (setup_message m e) w s h = cc s
