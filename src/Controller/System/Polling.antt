-- ===== src/Controller/System/Polling.antt =====
-- The polling for a token, in every state that a client with a server address reaches.
pub mod Handlers
use visiontak_client.Prelude.{
  ℕ, suc, ◌<◌, ◌≡◌, refl, arith, Bool, true, false, not, ◌&&◌, ◌||◌, Option, none, some, List, [],
  ◌∷◌, Text, ℤ, pos, ◌==◌, ◌∙◌, if_keeps, is_empty, ◌⊎◌, inl, inr, Bool-cases,
}
use mathlib.Core.Path.{subst}
use visiontak_client.Python.{
  Unicode, Result, ok, raise, api_error, auth_error, Result-cases, ok-injective,
}
use visiontak_client.Platform.{Platform}
use visiontak_client.Json.{Json}
use visiontak_client.Config.{Config}
use visiontak_client.Config.Checks.{is_nonzero}
use visiontak_client.Api.{ClientConfig, load}
use visiontak_client.Api.Request.{base_url}
use visiontak_client.Enrol.{Registration, Attempt, attempt_registration, is_pending, is_approved}
use visiontak_client.Enrol.Token.{IsAnswer, IsSettled, attempt_registration-IsSettled}
use visiontak_client.Cec.Choice.{Chosen}
use visiontak_client.Ui.Window.{Window, leave_setup, setup_status}
use visiontak_client.Ui.Window.Create.{create}
use visiontak_client.Ui.Window.Frame.{call-keeps, is_setup_call}
use visiontak_client.Ui.Window.Runs.{
  Call, call, dashboards, action, show, row_activated, load_started, load_finished, load_failed,
  blank, message, toast_timeout, setup_done, cec, enrolment, setup_message,
}
use visiontak_client.Controller.{
  Kiosk, Timer, Job, refresh, registration, Idle, window_call, apply_config, dispatch_action, init,
  idle, cancel, start_timer, seconds,
}
use visiontak_client.Controller.Refresh.{
  schedule_refresh, after_fetch, refresh_config, next_delay, apply,
}
use visiontak_client.Controller.Carousel.{cancel_rotation, rotate}
use visiontak_client.Controller.Carousel.Dispatching.{dispatch_either}
use visiontak_client.Controller.Enrolment.{
  start_poll, start_registration, approved_with_token, show_progress, polled, polled_with,
  poll_registration,
}
use visiontak_client.Controller.Events.{start_cec, on_cec_event, stop, attach}
use visiontak_client.Controller.System.Attached.{attach-ends}
use visiontak_client.Controller.System.{Step, Reach, run_idle, fired, is_due}
use visiontak_client.Controller.System.Keeps.{Reach-keeps}
use visiontak_client.Controller.System.Timers.{IsFresh, IsFresh-drop_timer, poll_stays}
use visiontak_client.Controller.System.Leaves.{
  on_kind-leaves, toggle_rotation-leaves, restarted-leaves, apply_rotation-leaves, apply-leaves,
}
use visiontak_client.Controller.System.Refreshes.Handlers.{cancel-Fresh, cancel-stopped}
use visiontak_client.Controller.System.Polling.Handlers.{
  IsAsking, Base, Asks, Ready, On, schedule_refresh-asks, refresh_config-asks,
  start_registration-asks, poll-asks,
}

cancel-rest :
    (o : Option ℕ) (k : Kiosk)
    → (k.workers ≡ 0) × (is_empty k.config.server_url ≡ false)
    → ((cancel o k).workers ≡ 0) × (is_empty (cancel o k).config.server_url ≡ false)
unfolding cancel
cancel-rest none k h = h
cancel-rest (some id) k h = h

stop-asks : (k : Kiosk) → On k → On (stop k)
unfolding stop cancel_rotation
stop-asks k ((f, r), d) =
    let off = record k { stopped = true } in
    let first = cancel k.refresh_timer off in
    let second = cancel k.registration_timer first in
    let fresh : IsFresh second.next_timer second.timers =
      cancel-Fresh k.registration_timer first (cancel-Fresh k.refresh_timer off f) in
    let is_off : second.stopped ≡ true =
      cancel-stopped k.registration_timer first ∙ cancel-stopped k.refresh_timer off in
    let rest = cancel-rest k.registration_timer first (cancel-rest k.refresh_timer off r) in
    if_keeps On (second.rotate_source == 0) (λ e. ((fresh, rest), inl (rw is_off refl)))
      (λ e. ((fresh, rest), inl (rw is_off refl)))

refreshed-asks : (id : ℕ) (k : Kiosk) → is_due id refresh k.timers ≡ true → On k → On (fired id k)
refreshed-asks id k d ((f, r), inl e) = ((IsFresh-drop_timer k.next_timer id k.timers f, r), inl e)
refreshed-asks id k d ((f, r), inr (other, e)) = (
  (IsFresh-drop_timer k.next_timer id k.timers f, r),
  inr (other, poll_stays k.next_timer id other k.timers f d e),
)

module _ (u : Unicode) (p : Platform) where
  plain_call :
      (c : Call) (w : Window)
      → is_setup_call c ≡ false
      → w.needs_setup ≡ false
      → (call u p c w).needs_setup ≡ false
  plain_call c w s h = call-keeps u p (λ f. f.needs_setup ≡ false) (λ f e. e) (λ f e. e) c w s h

  call_needs : (c : Call) (w : Window) → w.needs_setup ≡ false → (call u p c w).needs_setup ≡ false
  unfolding call leave_setup setup_status
  call_needs setup_done w h =
      if_keeps (λ (w : Window). w.needs_setup ≡ false) w.needs_setup (λ e. refl) (λ e. h)
  call_needs (setup_message m e) w h = h
  call_needs (dashboards ds) w h = plain_call (dashboards ds) w refl h
  call_needs (action a) w h = plain_call (action a) w refl h
  call_needs (show i) w h = plain_call (show i) w refl h
  call_needs (row_activated i) w h = plain_call (row_activated i) w refl h
  call_needs (load_started id) w h = plain_call (load_started id) w refl h
  call_needs (load_finished id) w h = plain_call (load_finished id) w refl h
  call_needs (load_failed uri) w h = plain_call (load_failed uri) w refl h
  call_needs (blank b) w h = plain_call (blank b) w refl h
  call_needs (message m) w h = plain_call (message m) w refl h
  call_needs toast_timeout w h = plain_call toast_timeout w refl h
  call_needs (cec t) w h = plain_call (cec t) w refl h
  call_needs (enrolment m) w h = plain_call (enrolment m) w refl h

  module _ (repr : Json → Text) (loads : Text → Result Json) (dumps : Json → Text) where
    Reach-needs :
        (config : Config) (cache detail : Option Text) (chosen : Chosen) (k : Kiosk)
        → is_empty config.server_url ≡ false
        → Reach u p repr loads dumps config cache detail chosen k
        → k.window.needs_setup ≡ false
    unfolding create
    Reach-needs config cache detail chosen k s r =
        Reach-keeps u p (λ w n. w.needs_setup ≡ false) (λ c w n h. call_needs c w h) (λ s w n h. h)
          (λ w n h. h) (λ w h. h) repr loads dumps s r

    run_idle-asks : (i : Idle) (k : Kiosk) → On k → On (run_idle u p repr loads dumps i k)
    unfolding run_idle
    run_idle-asks (window_call c) k h = h
    run_idle-asks (apply_config c) k h = apply-leaves u p Asks false c k h
    run_idle-asks (dispatch_action a) k h =
        dispatch_either u p On a k (toggle_rotation-leaves Asks k h) (restarted-leaves Asks k h)

    Step-asks :
        {k k' : Kiosk}
        → Step u p repr loads dumps k k'
        → k.window.needs_setup ≡ false
        → On k
        → On k'
    unfolding rotate on_cec_event
    Step-asks {k} (Step.idle_runs i rest e) n h = run_idle-asks i (record k { idle_queue = rest }) h
    Step-asks {k} (Step.signal c s) n h = h
    Step-asks {k} (Step.submitted exc text m s) n h = cc (m, n)
    Step-asks {k} (Step.worker_runs exchange a w) n h =
        let none_left = h.0.1.0 in let absurd : ⊥ = omega arith in elim absurd [ ]
    Step-asks {k} (Step.refresh_fires id reply saved d) n h =
        refresh_config-asks dumps saved reply (fired id k) (refreshed-asks id k d h)
    Step-asks {k} (Step.poll_fires id exchange a d) n h =
        poll-asks (attempt_registration repr exchange k.config) (fired id k)
          (attempt_registration-IsSettled repr exchange k.config a)
          (IsFresh-drop_timer k.next_timer id k.timers h.0.0, h.0.1)
    Step-asks {k} (Step.carousel_fires r) n h = h
    Step-asks {k} (Step.remote e) n h = on_kind-leaves Asks e.kind e k h
    Step-asks {k} Step.stops n h = stop-asks k h

    attach-asks :
        (chosen : Chosen) (k k' : Kiosk) → Ready k → attach u p repr loads chosen k ≡ ok k' → On k'
    unfolding start_cec idle
    attach-asks chosen k k' h e =
        let (c, same) = attach-ends u p repr loads chosen k k' e in
        let reading = start_cec chosen (apply u p true c k) in
        subst On same (
          apply_rotation-leaves Asks (schedule_refresh (pos 1000) (start_registration reading)) (
            schedule_refresh-asks (pos 1000) (start_registration reading)
              (start_registration-asks reading (apply-leaves u p Base true c k h))))

    Reach-asks :
        (config : Config) (cache detail : Option Text) (chosen : Chosen) (k : Kiosk)
        → is_empty config.server_url ≡ false
        → Reach u p repr loads dumps config cache detail chosen k
        → On k
    unfolding init
    Reach-asks config cache detail chosen k s (Reach.attached e) =
        attach-asks chosen (init config cache (create u p detail config)) k (tt, (refl, s)) e
    Reach-asks config cache detail chosen k' s (Reach.later {k} r t) =
        Step-asks t (Reach-needs config cache detail chosen k s r)
          (Reach-asks config cache detail chosen k s r)

    -- A client that starts with a server address asks for a token until it has one: in every state
    -- that it reaches it is stopped, or has a token, or a timer of the next poll is running, whether
    -- the server answers or not, as long as an exchange ends in a response, an ApiError or an AuthError.
    pub Reach-IsAsking :
        (config : Config) (cache detail : Option Text) (chosen : Chosen) (k : Kiosk)
        → is_empty config.server_url ≡ false
        → Reach u p repr loads dumps config cache detail chosen k
        → IsAsking k.stopped k.config.api_token k.timers
    Reach-IsAsking config cache detail chosen k s r =
        (Reach-asks config cache detail chosen k s r).1
