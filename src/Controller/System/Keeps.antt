-- ===== src/Controller/System/Keeps.antt =====
-- What holds of the window and of the carousel's source in every state that the client reaches.
pub mod Handlers
use visiontak_client.Prelude.{
  ℕ, ◌≡◌, refl, Bool, true, false, not, ◌&&◌, ◌||◌, Option, none, some, Text, pos, ◌==◌, ==_iff,
  if_keeps, is_empty, inl, inr, ℤ,
}
use mathlib.Core.Path.{subst}
use visiontak_client.Python.{
  Unicode, Result, ok, raise, api_error, auth_error, Result-cases, ok-injective,
}
use visiontak_client.Platform.{Platform}
use visiontak_client.Json.{Json}
use visiontak_client.Config.{Config}
use visiontak_client.Config.Checks.{is_nonzero}
use visiontak_client.Actions.{Action, AnyAction, plain}
use visiontak_client.Api.{ClientConfig, load}
use visiontak_client.Api.Request.{base_url}
use visiontak_client.Enrol.{Registration, Attempt, is_pending, is_approved}
use visiontak_client.Cec.Base.{CecEvent, CecEventKind}
use visiontak_client.Cec.Choice.{Chosen}
use visiontak_client.Cec.Keymap.{action_for}
use visiontak_client.Ui.MainLoop
use visiontak_client.Ui.Window.{Window}
use visiontak_client.Ui.Window.Create.{create}
use visiontak_client.Ui.Window.Runs.{Call, call, dashboards, show, action, message}
use visiontak_client.Ui.Setup.{SetupScreen}
use visiontak_client.Ui.Window.Show.{set_dashboards_raises}
use visiontak_client.Controller.{
  Kiosk, Idle, window_call, apply_config, dispatch_action, init, idle, cancel, start_timer, seconds,
}
use visiontak_client.Controller.Refresh.{
  schedule_refresh, after_fetch, refresh_config, next_delay, show_found, select_start_dashboard,
  apply, start_at,
}
use visiontak_client.Controller.Carousel.{
  cancel_rotation, add_rotation, apply_rotation, restart_rotation_clock, toggle_rotation, rotate,
  dispatch,
}
use visiontak_client.Controller.Carousel.Dispatching.{dispatch_either}
use visiontak_client.Controller.Enrolment.{
  configured, configure_from_setup, submit_setup, start_poll, start_registration,
  approved_with_token, registered_from_setup, register_from_setup, show_progress, polled,
  registered_with, polled_with, poll_registration,
}
use visiontak_client.Controller.Events.{
  start_cec, on_cec_event, on_kind, on_code, on_key, stop, attach,
}
use visiontak_client.Controller.System.Attached.{attach-ends}
use visiontak_client.Controller.System.{Step, Reach, run_idle, fired}
use visiontak_client.Controller.System.Keeps.Handlers.{
  On, schedule_refresh-keeps, refresh_config-keeps, start_registration-keeps, register-keeps,
  poll-keeps, on_cec_event-keeps, cancel-keeps,
}

-- A property that every call of the window keeps, and that a cancelled and a started carousel keep.
module _ (u : Unicode) (p : Platform) (P : Window → ℕ → Type 0)
    (on_call : (c : Call) (w : Window) (r : ℕ) → P w r → P (call u p c w) r)
    (on_setup : (s : SetupScreen) (w : Window) (r : ℕ) → P w r → P (record w { setup = s }) r)
    (on_cancel : (w : Window) (r : ℕ)
      → P w r
      → P (record w { main_loop = MainLoop.source_remove r w.main_loop }) 0)
    (on_start : (w : Window)
      → P w 0
      → P
          (record w { main_loop = MainLoop.timeout_add MainLoop.rotate w.main_loop })
          w.main_loop.next) where
  cancel_rotation-keeps : (k : Kiosk) → On P k → On P (cancel_rotation k)
  unfolding cancel_rotation
  cancel_rotation-keeps k h =
      if_keeps (On P) (k.rotate_source == 0) (λ e. h) (λ e. on_cancel k.window k.rotate_source h)

  cancelled : (k : Kiosk) → (cancel_rotation k).rotate_source ≡ 0
  unfolding cancel_rotation
  cancelled k =
      if_keeps (λ (k : Kiosk). k.rotate_source ≡ 0) (k.rotate_source == 0)
        (λ e. (==_iff k.rotate_source 0).0 e) (λ e. refl)

  apply_rotation-keeps : (k : Kiosk) → On P k → On P (apply_rotation k)
  unfolding apply_rotation add_rotation
  apply_rotation-keeps k h =
      if_keeps (On P) (k.rotating && is_nonzero k.config.rotate_interval)
        (λ e.
          on_start (cancel_rotation k).window
            (subst (P (cancel_rotation k).window) (cancelled k) (cancel_rotation-keeps k h)))
        (λ e. cancel_rotation-keeps k h)

  toggle_rotation-keeps : (k : Kiosk) → On P k → On P (toggle_rotation k)
  unfolding toggle_rotation call
  toggle_rotation-keeps k h =
      if_keeps (On P) (not (is_nonzero k.config.rotate_interval))
        (λ e. on_call (message _) k.window k.rotate_source h)
        (λ e.
          let toggled = record k { rotating = not k.rotating } in
          on_call (message _) (apply_rotation toggled).window (apply_rotation toggled).rotate_source
            (apply_rotation-keeps toggled h))

  handled-keeps :
      (a : AnyAction) (k : Kiosk)
      → On P k
      → P
          (call u p (action a) (restart_rotation_clock k).window)
          (restart_rotation_clock k).rotate_source
  unfolding restart_rotation_clock
  handled-keeps a k h =
      on_call (action a) (restart_rotation_clock k).window (restart_rotation_clock k).rotate_source
        (if_keeps (On P) (k.rotate_source == 0) (λ e. h) (λ e. apply_rotation-keeps k h))

  dispatch-keeps : (a : AnyAction) (k : Kiosk) → On P k → On P (dispatch u p a k)
  unfolding call
  dispatch-keeps a k h =
      dispatch_either u p (On P) a k (toggle_rotation-keeps k h) (handled-keeps a k h)

  show_found-keeps : (o : Option ℕ) (w : Window) (r : ℕ) → P w r → P (show_found u p o w) r
  unfolding call
  show_found-keeps none w r h = h
  show_found-keeps (some i) w r h = on_call (show (pos i)) w r h

  start_at-keeps : (o : Option Text) (k : Kiosk) → On P k → On P (start_at u p o k)
  start_at-keeps none k h = h
  start_at-keeps (some id) k h = show_found-keeps _ k.window k.rotate_source h

  apply-keeps : (b : Bool) (c : ClientConfig) (k : Kiosk) → On P k → On P (apply u p b c k)
  unfolding apply select_start_dashboard call
  apply-keeps b c k h =
      if_keeps (On P) (b && is_empty c.dashboards) (λ e. h)
        (λ e.
          if_keeps (On P)
            (is_empty k.window.dashboards && not (set_dashboards_raises p c.dashboards k.window))
            (λ q. start_at-keeps _ _ (on_call (dashboards c.dashboards) _ _ h))
            (λ q. on_call (dashboards c.dashboards) _ _ h))

  configured-keeps : (o : Option Text) (k : Kiosk) → On P k → On P (configured o k)
  unfolding configure_from_setup idle
  configured-keeps none k h = h
  configured-keeps (some url) k h = h

  stop-keeps : (k : Kiosk) → On P k → On P (stop k)
  unfolding stop
  stop-keeps k h =
      cancel_rotation-keeps _
        (cancel-keeps P _ _ (cancel-keeps P _ (record k { stopped = true }) h))

  module _ (repr : Json → Text) (loads : Text → Result Json) (dumps : Json → Text) where
    run_idle-keeps : (i : Idle) (k : Kiosk) → On P k → On P (run_idle u p repr loads dumps i k)
    unfolding run_idle
    run_idle-keeps (window_call c) k h = on_call c k.window k.rotate_source h
    run_idle-keeps (apply_config c) k h = apply-keeps false c k h
    run_idle-keeps (dispatch_action a) k h = dispatch-keeps a k h

    Step-keeps : {k k' : Kiosk} → Step u p repr loads dumps k k' → On P k → On P k'
    unfolding submit_setup rotate call
    Step-keeps {k} (Step.idle_runs i rest e) h = run_idle-keeps i (record k { idle_queue = rest }) h
    Step-keeps {k} (Step.signal c s) h = on_call c k.window k.rotate_source h
    Step-keeps {k} (Step.submitted exc text n s) h =
        configured-keeps _ _ (on_setup _ k.window k.rotate_source h)
    Step-keeps {k} (Step.worker_runs exchange a w) h = register-keeps P _ k h
    Step-keeps {k} (Step.refresh_fires id reply saved d) h =
        refresh_config-keeps P dumps saved reply (fired id k) h
    Step-keeps {k} (Step.poll_fires id exchange a d) h = poll-keeps P _ (fired id k) h
    Step-keeps {k} (Step.carousel_fires r) h =
        on_call (action (plain Action.dashboard_next)) k.window k.rotate_source h
    Step-keeps {k} (Step.remote e) h = on_cec_event-keeps P e k h
    Step-keeps {k} Step.stops h = stop-keeps k h

    attach-keeps :
        (chosen : Chosen) (k k' : Kiosk) → On P k → attach u p repr loads chosen k ≡ ok k' → On P k'
    unfolding start_cec idle
    attach-keeps chosen k k' h e =
        let (c, same) = attach-ends u p repr loads chosen k k' e in
        let reading = start_cec chosen (apply u p true c k) in
        let enrolling = start_registration reading in
        subst (On P) same (
          apply_rotation-keeps (schedule_refresh (pos 1000) enrolling) (
            schedule_refresh-keeps P (pos 1000) enrolling
              (start_registration-keeps P reading (apply-keeps true c k h))))

    pub Reach-keeps :
        {config : Config} {cache detail : Option Text} {chosen : Chosen} {k : Kiosk}
        → P (create u p detail config) 0
        → Reach u p repr loads dumps config cache detail chosen k
        → P k.window k.rotate_source
    unfolding init
    Reach-keeps {config} {cache} {detail} {chosen} h (Reach.attached {k} e) =
        attach-keeps chosen (init config cache (create u p detail config)) k h e
    Reach-keeps h (Reach.later r s) = Step-keeps s (Reach-keeps h r)
