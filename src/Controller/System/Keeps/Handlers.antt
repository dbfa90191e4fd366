-- ===== src/Controller/System/Keeps/Handlers.antt =====
-- The handlers of controller.py that touch neither the window nor the source of the carousel.
use visiontak_client.Prelude.{ℕ, Bool, not, ◌||◌, Option, none, some, Text, if_keeps, is_empty, ℤ}
use visiontak_client.Python.{Result, ok, raise, api_error, auth_error}
use visiontak_client.Json.{Json}
use visiontak_client.Config.Checks.{is_nonzero}
use visiontak_client.Actions.{AnyAction}
use visiontak_client.Api.{ClientConfig}
use visiontak_client.Enrol.{Registration, Attempt, is_pending, is_approved}
use visiontak_client.Cec.Base.{CecEvent, CecEventKind}
use visiontak_client.Cec.Keymap.{action_for}
use visiontak_client.Ui.Window.{Window}
use visiontak_client.Controller.{Kiosk, idle, cancel, start_timer, seconds}
use visiontak_client.Controller.Refresh.{schedule_refresh, after_fetch, refresh_config, next_delay}
use visiontak_client.Controller.Enrolment.{
  start_poll, start_registration, approved_with_token, registered_from_setup, register_from_setup,
  show_progress, polled, registered_with, polled_with, poll_registration,
}
use visiontak_client.Controller.Events.{on_cec_event, on_kind, on_code, on_key}

-- Handlers that touch neither the window nor the carousel.
module _ (P : Window → ℕ → Type 0) where
  abbrev pub On : Kiosk → Type 0
  On k = P k.window k.rotate_source

  pub schedule_refresh-keeps : (delay : ℤ) (k : Kiosk) → On k → On (schedule_refresh delay k)
  unfolding schedule_refresh start_timer
  schedule_refresh-keeps delay k h =
      if_keeps On (k.stopped || not (is_nonzero k.config.refresh_interval)) (λ e. h) (λ e. h)

  pub after_fetch-keeps :
      (dumps : Json → Text) (saved : Bool) (r : Result ClientConfig) (k : Kiosk)
      → On k
      → On (after_fetch dumps saved r k)
  unfolding after_fetch idle
  after_fetch-keeps dumps saved (ok c) k h = if_keeps On saved (λ e. h) (λ e. h)
  after_fetch-keeps dumps saved (raise auth_error) k h = h
  after_fetch-keeps dumps saved (raise api_error) k h = h
  after_fetch-keeps dumps saved (raise e) k h = h

  pub refresh_config-keeps :
      (dumps : Json → Text) (saved : Bool) (r : Result ClientConfig) (k : Kiosk)
      → On k
      → On (refresh_config dumps saved r k)
  unfolding refresh_config
  refresh_config-keeps dumps saved r k h =
      schedule_refresh-keeps (seconds (next_delay r k.config.refresh_interval))
        (after_fetch dumps saved r k) (after_fetch-keeps dumps saved r k h)

  pub start_registration-keeps : (k : Kiosk) → On k → On (start_registration k)
  unfolding start_registration start_poll start_timer
  start_registration-keeps k h =
      if_keeps On (is_empty k.config.server_url || not (is_empty k.config.api_token)) (λ e. h)
        (λ e. h)

  pub registered-keeps : (o : Option Registration) (k : Kiosk) → On k → On (registered_with o k)
  unfolding idle
  registered-keeps none k h = h
  registered-keeps (some r) k h =
      if_keeps On (approved_with_token r k.config) (λ q. schedule_refresh-keeps _ _ h)
        (λ q. start_registration-keeps _ h)

  pub register-keeps : (r : Result Attempt) (k : Kiosk) → On k → On (register_from_setup r k)
  unfolding register_from_setup registered_from_setup
  register-keeps (ok a) k h = registered-keeps a.answer _ h
  register-keeps (raise e) k h = h

  pub show_progress-keeps : (r : Registration) (k : Kiosk) → On k → On (show_progress r k)
  unfolding show_progress idle
  show_progress-keeps r k h =
      if_keeps On (is_pending r) (λ e. h) (λ e. if_keeps On (is_approved r) (λ e. h) (λ e. h))

  pub polled-keeps : (o : Option Registration) (k : Kiosk) → On k → On (polled_with o k)
  unfolding start_poll start_timer idle
  polled-keeps none k h = h
  polled-keeps (some r) k h =
      if_keeps On (approved_with_token r k.config) (λ q. schedule_refresh-keeps _ _ h)
        (λ q. show_progress-keeps r k h)

  pub poll-keeps : (r : Result Attempt) (k : Kiosk) → On k → On (poll_registration r k)
  unfolding poll_registration polled
  poll-keeps (ok a) k h = if_keeps On k.stopped (λ e. h) (λ e. polled-keeps a.answer _ h)
  poll-keeps (raise e) k h = h

  pub on_key-keeps : (r : Result (Option AnyAction)) (k : Kiosk) → On k → On (on_key r k)
  unfolding idle
  on_key-keeps (ok none) k h = h
  on_key-keeps (ok (some a)) k h = h
  on_key-keeps (raise e) k h = h

  pub on_code-keeps : (o : Option ℕ) (k : Kiosk) → On k → On (on_code o k)
  on_code-keeps none k h = h
  on_code-keeps (some code) k h = on_key-keeps (action_for code) k h

  pub on_kind-keeps : (d : CecEventKind) (e : CecEvent) (k : Kiosk) → On k → On (on_kind d e k)
  unfolding idle
  on_kind-keeps CecEventKind.key_press e k h = on_code-keeps e.key_code k h
  on_kind-keeps CecEventKind.key_release e k h = h
  on_kind-keeps CecEventKind.standby e k h = h
  on_kind-keeps CecEventKind.wake e k h = h
  on_kind-keeps CecEventKind.active_source_lost e k h = h
  on_kind-keeps CecEventKind.adapter_ready e k h = h
  on_kind-keeps CecEventKind.adapter_lost e k h = h

  pub on_cec_event-keeps : (e : CecEvent) (k : Kiosk) → On k → On (on_cec_event e k)
  unfolding on_cec_event
  on_cec_event-keeps e k h = on_kind-keeps e.kind e k h

  pub cancel-keeps : (o : Option ℕ) (k : Kiosk) → On k → On (cancel o k)
  unfolding cancel
  cancel-keeps none k h = h
  cancel-keeps (some id) k h = h
