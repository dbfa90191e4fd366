-- ===== src/Controller/System/Refreshes.antt =====
-- The timer of the next refresh, in every state that the client reaches.
pub mod Handlers
use visiontak_client.Prelude.{
  ℕ, suc, ◌<◌, ◌≡◌, refl, arith, Bool, true, false, not, ◌&&◌, ◌||◌, Option, none, some, List, [],
  ◌∷◌, Text, ℤ, pos, ◌==◌, ◌∙◌, if_keeps, is_empty, ◌⊎◌, inl, inr, Bool-cases,
}
use mathlib.Core.Path.{subst}
use visiontak_client.Python.{
  Unicode, Result, ok, raise, api_error, auth_error, Result-cases, ok-injective,
}
use visiontak_client.Platform.{Platform}
use visiontak_client.Json.{Json}
use visiontak_client.Config.{Config}
use visiontak_client.Config.Checks.{is_nonzero}
use visiontak_client.Actions.{Action, AnyAction, plain, digit}
use visiontak_client.Api.{ClientConfig, load}
use visiontak_client.Api.Request.{base_url}
use visiontak_client.Enrol.{Registration, Attempt, attempt_registration, is_pending, is_approved}
use visiontak_client.Enrol.Token.{IsAnswer, IsSettled, attempt_registration-IsSettled}
use visiontak_client.Cec.Base.{CecEvent, CecEventKind}
use visiontak_client.Cec.Choice.{Chosen}
use visiontak_client.Cec.Keymap.{action_for}
use visiontak_client.Ui.Window.{Window}
use visiontak_client.Ui.Window.Create.{create}
use visiontak_client.Controller.{
  Kiosk, Timer, Job, refresh, registration, Idle, window_call, apply_config, dispatch_action, init,
  idle, cancel, start_timer, drop_timer, seconds,
}
use visiontak_client.Controller.Refresh.{
  schedule_refresh, after_fetch, refresh_config, next_delay, select_start_dashboard, apply,
  start_at,
}
use visiontak_client.Controller.Carousel.{
  cancel_rotation, add_rotation, apply_rotation, restart_rotation_clock, toggle_rotation, rotate,
  dispatch,
}
use visiontak_client.Controller.Carousel.Dispatching.{dispatch_either}
use visiontak_client.Controller.Enrolment.{
  configured, configure_from_setup, submit_setup, start_poll, start_registration,
  approved_with_token, registered_from_setup, register_from_setup, show_progress, polled,
  registered_with, polled_with, poll_registration,
}
use visiontak_client.Controller.Events.{
  start_cec, on_cec_event, on_kind, on_code, on_key, stop, attach,
}
use visiontak_client.Controller.System.Attached.{attach-ends}
use visiontak_client.Controller.System.{Step, Reach, run_idle, fired, is_due}
use visiontak_client.Controller.System.Timers.{IsFresh, IsFresh-drop_timer, refresh_stays}
use visiontak_client.Controller.System.Leaves.{
  on_kind-leaves, toggle_rotation-leaves, restarted-leaves, apply_rotation-leaves, apply-leaves,
}
use visiontak_client.Controller.System.Refreshes.Handlers.{
  Tick, started, schedule_refresh-ticks, refresh_config-ticks, start_registration-Fresh,
  register-ticks, poll-ticks, configured-ticks, cancel-Fresh, cancel-stopped, IsTicking, Ticks, On,
  Fresh,
}

stop-ticks : (k : Kiosk) → On k → On (stop k)
unfolding stop cancel_rotation
stop-ticks k h =
    let off = record k { stopped = true } in
    let first = cancel k.refresh_timer off in
    let second = cancel k.registration_timer first in
    let fresh : Fresh second =
      cancel-Fresh k.registration_timer first (cancel-Fresh k.refresh_timer off h.0) in
    let is_off : second.stopped ≡ true =
      cancel-stopped k.registration_timer first ∙ cancel-stopped k.refresh_timer off in
    if_keeps On (second.rotate_source == 0) (λ e. (fresh, inl (rw is_off refl)))
      (λ e. (fresh, inl (rw is_off refl)))

fired-ticks : (id : ℕ) (k : Kiosk) → is_due id registration k.timers ≡ true → On k → On (fired id k)
fired-ticks id k d (f, inl e) = (IsFresh-drop_timer k.next_timer id k.timers f, inl e)
fired-ticks id k d (f, inr (other, e)) = (
  IsFresh-drop_timer k.next_timer id k.timers f,
  inr (other, refresh_stays k.next_timer id other k.timers f d e),
)

module _ (u : Unicode) (p : Platform) where
  module _ (repr : Json → Text) (loads : Text → Result Json) (dumps : Json → Text) where
    run_idle-ticks : (i : Idle) (k : Kiosk) → On k → On (run_idle u p repr loads dumps i k)
    unfolding run_idle
    run_idle-ticks (window_call c) k h = h
    run_idle-ticks (apply_config c) k h = apply-leaves u p Tick false c k h
    run_idle-ticks (dispatch_action a) k h =
        dispatch_either u p On a k (toggle_rotation-leaves Tick k h) (restarted-leaves Tick k h)

    Step-ticks : {k k' : Kiosk} → Step u p repr loads dumps k k' → On k → On k'
    unfolding submit_setup rotate on_cec_event
    Step-ticks {k} (Step.idle_runs i rest e) h = run_idle-ticks i (record k { idle_queue = rest }) h
    Step-ticks {k} (Step.signal c s) h = h
    Step-ticks {k} (Step.submitted exc text n s) h = configured-ticks _ _ h
    Step-ticks {k} (Step.worker_runs exchange a w) h =
        register-ticks (attempt_registration repr exchange k.config) k
          (attempt_registration-IsSettled repr exchange k.config a) h
    Step-ticks {k} (Step.refresh_fires id reply saved d) h =
        refresh_config-ticks dumps saved reply (fired id k)
          (IsFresh-drop_timer k.next_timer id k.timers h.0)
    Step-ticks {k} (Step.poll_fires id exchange a d) h =
        poll-ticks (attempt_registration repr exchange k.config) (fired id k)
          (attempt_registration-IsSettled repr exchange k.config a) (fired-ticks id k d h)
    Step-ticks {k} (Step.carousel_fires r) h = h
    Step-ticks {k} (Step.remote e) h = on_kind-leaves Tick e.kind e k h
    Step-ticks {k} Step.stops h = stop-ticks k h

    attach-ticks :
        (chosen : Chosen) (k k' : Kiosk) → Fresh k → attach u p repr loads chosen k ≡ ok k' → On k'
    unfolding start_cec idle
    attach-ticks chosen k k' h e =
        let (c, same) = attach-ends u p repr loads chosen k k' e in
        let enrolling = start_registration (start_cec chosen (apply u p true c k)) in
        subst On same (
          apply_rotation-leaves Tick (schedule_refresh (pos 1000) enrolling) (
            schedule_refresh-ticks (pos 1000) enrolling (
              start_registration-Fresh (start_cec chosen (apply u p true c k))
                (apply-leaves u p (λ b c w n ts. IsFresh n ts) true c k h))))

    Reach-ticks :
        {config : Config} {cache detail : Option Text} {chosen : Chosen} {k : Kiosk}
        → Reach u p repr loads dumps config cache detail chosen k
        → On k
    unfolding init
    Reach-ticks {config} {cache} {detail} {chosen} (Reach.attached {k} e) =
        attach-ticks chosen (init config cache (create u p detail config)) k tt e
    Reach-ticks (Reach.later r s) = Step-ticks s (Reach-ticks r)

    -- In every state that the client reaches it is stopped, or its settings turn refreshing off, or a
    -- timer of the next refresh is running: neither a failure of the server, nor an enrolment, nor the
    -- remote or the window ends the refreshing.
    pub Reach-IsTicking :
        (config : Config) (cache detail : Option Text) (chosen : Chosen) (k : Kiosk)
        → Reach u p repr loads dumps config cache detail chosen k
        → IsTicking k.stopped k.config.refresh_interval k.timers
    Reach-IsTicking config cache detail chosen k r = (Reach-ticks r).1
