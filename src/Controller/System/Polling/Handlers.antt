-- ===== src/Controller/System/Polling/Handlers.antt =====
-- What each handler of controller.py makes of the timer of the next poll.
use visiontak_client.Prelude.{
  ℕ, ◌≡◌, refl, arith, Bool, true, false, not, ◌||◌, Option, none, some, List, Text, ℤ, pos,
  if_keeps, is_empty, ◌⊎◌, inl, inr,
}
use visiontak_client.Python.{Result, ok, raise, api_error, auth_error}
use visiontak_client.Json.{Json}
use visiontak_client.Config.{Config}
use visiontak_client.Config.Checks.{is_nonzero}
use visiontak_client.Api.{ClientConfig}
use visiontak_client.Enrol.{Registration, Attempt, is_pending, is_approved}
use visiontak_client.Enrol.Token.{IsSettled}
use visiontak_client.Controller.{Kiosk, Timer, registration, idle, start_timer, seconds}
use visiontak_client.Controller.Refresh.{schedule_refresh, after_fetch, refresh_config, next_delay}
use visiontak_client.Controller.Enrolment.{
  start_poll, start_registration, approved_with_token, show_progress, polled, polled_with,
  poll_registration,
}
use visiontak_client.Controller.System.{is_due}
use visiontak_client.Controller.System.Timers.{IsFresh}

-- The client is stopped, or has a token, or a timer of the next poll runs.
abbrev pub IsAsking : Bool → Text → List (ℕ × Timer) → Type 0
IsAsking stopped token ts =
    ((stopped || not (is_empty token)) ≡ true) ⊎ ((id : ℕ) × (is_due id registration ts ≡ true))

-- No worker of the setup screen, and a server address.
abbrev pub Base : Bool → Config → ℕ → ℕ → List (ℕ × Timer) → Type 0
Base b c w n ts = IsFresh n ts × ((w ≡ 0) × (is_empty c.server_url ≡ false))

abbrev pub Asks : Bool → Config → ℕ → ℕ → List (ℕ × Timer) → Type 0
Asks b c w n ts = Base b c w n ts × IsAsking b c.api_token ts

abbrev pub Ready : Kiosk → Type 0
Ready k = Base k.stopped k.config k.workers k.next_timer k.timers

abbrev pub On : Kiosk → Type 0
On k = Asks k.stopped k.config k.workers k.next_timer k.timers

pub schedule_refresh-asks : (delay : ℤ) (k : Kiosk) → On k → On (schedule_refresh delay k)
unfolding schedule_refresh start_timer
schedule_refresh-asks delay k ((f, r), inl e) =
    if_keeps On (k.stopped || not (is_nonzero k.config.refresh_interval)) (λ q. ((f, r), inl e))
      (λ q. (((omega arith, f), r), inl e))
schedule_refresh-asks delay k ((f, r), inr (id, e)) =
    if_keeps On (k.stopped || not (is_nonzero k.config.refresh_interval))
      (λ q. ((f, r), inr (id, e))) (λ q. (((omega arith, f), r), inr (id, ground (arith, e))))

pub after_fetch-asks :
    (dumps : Json → Text) (saved : Bool) (r : Result ClientConfig) (k : Kiosk)
    → On k
    → On (after_fetch dumps saved r k)
unfolding after_fetch idle
after_fetch-asks dumps saved (ok c) k h = if_keeps On saved (λ e. h) (λ e. h)
after_fetch-asks dumps saved (raise auth_error) k h = h
after_fetch-asks dumps saved (raise api_error) k h = h
after_fetch-asks dumps saved (raise e) k h = h

pub refresh_config-asks :
    (dumps : Json → Text) (saved : Bool) (r : Result ClientConfig) (k : Kiosk)
    → On k
    → On (refresh_config dumps saved r k)
unfolding refresh_config
refresh_config-asks dumps saved r k h =
    schedule_refresh-asks (seconds (next_delay r k.config.refresh_interval))
      (after_fetch dumps saved r k) (after_fetch-asks dumps saved r k h)

-- A poll that is started is due.
pub start_poll-asks : (delay : ℤ) (k : Kiosk) → Ready k → On (start_poll delay k)
unfolding start_poll start_timer
start_poll-asks delay k (f, r) = (((omega arith, f), r), inr (k.next_timer, ground arith))

pub start_registration-asks : (k : Kiosk) → Ready k → On (start_registration k)
unfolding start_registration
start_registration-asks k (f, (w, n)) =
    if_keeps On (is_empty k.config.server_url || not (is_empty k.config.api_token))
      (λ e. ((f, (w, n)), inl (ground (arith, e, n))))
      (λ e. start_poll-asks (pos 500) k (f, (w, n)))

pub show_progress-Ready : (r : Registration) (k : Kiosk) → Ready k → Ready (show_progress r k)
unfolding show_progress idle
show_progress-Ready r k h =
    if_keeps Ready (is_pending r) (λ e. h) (λ e. if_keeps Ready (is_approved r) (λ e. h) (λ e. h))

pub polled-asks : (o : Option Registration) (k : Kiosk) → Ready k → On (polled_with o k)
unfolding idle
polled-asks none k h = start_poll-asks _ k h
polled-asks (some r) k h =
    if_keeps On (approved_with_token r k.config)
      (λ q. schedule_refresh-asks _ _ (h, inl (ground (arith, q))))
      (λ q. start_poll-asks _ (show_progress r k) (show_progress-Ready r k h))

pub url-attempt :
    (config : Config) (a : Attempt)
    → IsSettled config (ok a)
    → a.config.server_url ≡ config.server_url
url-attempt config a (inl (e, n)) = rw e refl
url-attempt config a (inr (r, (x, (y, (z, (w, (e, n))))))) = rw e refl

pub poll-asks :
    (r : Result Attempt) (k : Kiosk) → IsSettled k.config r → Ready k → On (poll_registration r k)
unfolding poll_registration polled
poll-asks (ok a) k s h =
    if_keeps On k.stopped (λ e. (h, inl (ground (arith, e))))
      (λ e. polled-asks a.answer _ (rw (url-attempt k.config a s) h))
poll-asks (raise e) k s h = elim s [ ]
