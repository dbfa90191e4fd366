-- ===== src/Controller/System/Refreshes/Handlers.antt =====
-- What each handler of controller.py makes of the timer of the next refresh.
use visiontak_client.Prelude.{
  ℕ, suc, ◌≡◌, refl, arith, Bool, true, not, ◌||◌, Option, none, some, List, ◌∷◌, Text, ℤ, pos,
  if_keeps, is_empty, ◌⊎◌, inl, inr,
}
use visiontak_client.Python.{Result, ok, raise, api_error, auth_error}
use visiontak_client.Json.{Json}
use visiontak_client.Config.{Config}
use visiontak_client.Config.Checks.{is_nonzero}
use visiontak_client.Api.{ClientConfig}
use visiontak_client.Enrol.{Registration, Attempt, is_pending, is_approved}
use visiontak_client.Enrol.Token.{IsSettled}
use visiontak_client.Controller.{
  Kiosk, Timer, refresh, registration, idle, cancel, start_timer, seconds,
}
use visiontak_client.Controller.Refresh.{schedule_refresh, after_fetch, refresh_config, next_delay}
use visiontak_client.Controller.Enrolment.{
  configured, configure_from_setup, start_poll, start_registration, approved_with_token,
  registered_from_setup, register_from_setup, show_progress, polled, registered_with, polled_with,
  poll_registration,
}
use visiontak_client.Controller.System.{is_due}
use visiontak_client.Controller.System.Timers.{IsFresh, IsFresh-drop_timer}

-- The client is stopped, or does not refresh at all, or a timer of a refresh runs.
abbrev pub IsTicking : Bool → ℤ → List (ℕ × Timer) → Type 0
IsTicking stopped interval ts =
    ((stopped || not (is_nonzero interval)) ≡ true) ⊎ ((id : ℕ) × (is_due id refresh ts ≡ true))

abbrev pub Ticks : Bool → ℤ → ℕ → List (ℕ × Timer) → Type 0
Ticks stopped interval next ts = IsFresh next ts × IsTicking stopped interval ts

abbrev pub On : Kiosk → Type 0
On k = Ticks k.stopped k.config.refresh_interval k.next_timer k.timers

-- The same of all that the handlers may touch.
abbrev pub Tick : Bool → Config → ℕ → ℕ → List (ℕ × Timer) → Type 0
Tick stopped config workers next ts = Ticks stopped config.refresh_interval next ts

abbrev pub Fresh : Kiosk → Type 0
Fresh k = IsFresh k.next_timer k.timers

pub started :
    (b : Bool) (i : ℤ) (next : ℕ) (t : Timer) (ts : List (ℕ × Timer))
    → Ticks b i next ts
    → Ticks b i (suc next) ((next, t) ∷ ts)
started b i next t ts (f, inl e) = ((omega arith, f), inl e)
started b i next t ts (f, inr (id, e)) = ((omega arith, f), inr (id, ground (arith, e)))

-- However few timers run before, a refresh is due once it is scheduled.
pub schedule_refresh-ticks : (delay : ℤ) (k : Kiosk) → Fresh k → On (schedule_refresh delay k)
unfolding schedule_refresh start_timer
schedule_refresh-ticks delay k f =
    if_keeps On (k.stopped || not (is_nonzero k.config.refresh_interval)) (λ e. (f, inl e))
      (λ e. ((omega arith, f), inr (k.next_timer, ground arith)))

pub after_fetch-Fresh :
    (dumps : Json → Text) (saved : Bool) (r : Result ClientConfig) (k : Kiosk)
    → Fresh k
    → Fresh (after_fetch dumps saved r k)
unfolding after_fetch idle
after_fetch-Fresh dumps saved (ok c) k h = if_keeps Fresh saved (λ e. h) (λ e. h)
after_fetch-Fresh dumps saved (raise auth_error) k h = h
after_fetch-Fresh dumps saved (raise api_error) k h = h
after_fetch-Fresh dumps saved (raise e) k h = h

pub refresh_config-ticks :
    (dumps : Json → Text) (saved : Bool) (r : Result ClientConfig) (k : Kiosk)
    → Fresh k
    → On (refresh_config dumps saved r k)
unfolding refresh_config
refresh_config-ticks dumps saved r k h =
    schedule_refresh-ticks (seconds (next_delay r k.config.refresh_interval))
      (after_fetch dumps saved r k) (after_fetch-Fresh dumps saved r k h)

pub start_poll-ticks : (delay : ℤ) (k : Kiosk) → On k → On (start_poll delay k)
unfolding start_poll start_timer
start_poll-ticks delay k h =
    started k.stopped k.config.refresh_interval k.next_timer
      (record { delay = delay; job = registration }) k.timers h

pub start_registration-ticks : (k : Kiosk) → On k → On (start_registration k)
unfolding start_registration
start_registration-ticks k h =
    if_keeps On (is_empty k.config.server_url || not (is_empty k.config.api_token)) (λ e. h)
      (λ e. start_poll-ticks (pos 500) k h)

pub start_registration-Fresh : (k : Kiosk) → Fresh k → Fresh (start_registration k)
unfolding start_registration start_poll start_timer
start_registration-Fresh k h =
    if_keeps Fresh (is_empty k.config.server_url || not (is_empty k.config.api_token)) (λ e. h)
      (λ e. (omega arith, h))

pub registered-ticks : (o : Option Registration) (k : Kiosk) → On k → On (registered_with o k)
unfolding idle
registered-ticks none k h = h
registered-ticks (some r) k h =
    if_keeps On (approved_with_token r k.config) (λ q. schedule_refresh-ticks _ _ h.0)
      (λ q. start_registration-ticks _ h)

pub show_progress-ticks : (r : Registration) (k : Kiosk) → On k → On (show_progress r k)
unfolding show_progress idle
show_progress-ticks r k h =
    if_keeps On (is_pending r) (λ e. h) (λ e. if_keeps On (is_approved r) (λ e. h) (λ e. h))

pub polled-ticks : (o : Option Registration) (k : Kiosk) → On k → On (polled_with o k)
unfolding idle
polled-ticks none k h = start_poll-ticks _ k h
polled-ticks (some r) k h =
    if_keeps On (approved_with_token r k.config) (λ q. schedule_refresh-ticks _ _ h.0)
      (λ q. start_poll-ticks _ (show_progress r k) (show_progress-ticks r k h))

-- An enrolment leaves the interval alone.
pub interval-attempt :
    (config : Config) (a : Attempt)
    → IsSettled config (ok a)
    → a.config.refresh_interval ≡ config.refresh_interval
interval-attempt config a (inl (e, n)) = rw e refl
interval-attempt config a (inr (r, (x, (y, (z, (w, (e, n))))))) = rw e refl

pub register-ticks :
    (r : Result Attempt) (k : Kiosk) → IsSettled k.config r → On k → On (register_from_setup r k)
unfolding register_from_setup registered_from_setup
register-ticks (ok a) k s h = registered-ticks a.answer _ (rw (interval-attempt k.config a s) h)
register-ticks (raise e) k s h = h

pub poll-ticks :
    (r : Result Attempt) (k : Kiosk) → IsSettled k.config r → On k → On (poll_registration r k)
unfolding poll_registration polled
poll-ticks (ok a) k s h =
    if_keeps On k.stopped (λ e. h)
      (λ e. polled-ticks a.answer _ (rw (interval-attempt k.config a s) h))
poll-ticks (raise e) k s h = h

pub configured-ticks : (o : Option Text) (k : Kiosk) → On k → On (configured o k)
unfolding configure_from_setup idle
configured-ticks none k h = h
configured-ticks (some url) k h = h

pub cancel-Fresh : (o : Option ℕ) (k : Kiosk) → Fresh k → Fresh (cancel o k)
unfolding cancel
cancel-Fresh none k h = h
cancel-Fresh (some id) k h = IsFresh-drop_timer k.next_timer id k.timers h

pub cancel-stopped : (o : Option ℕ) (k : Kiosk) → (cancel o k).stopped ≡ k.stopped
unfolding cancel
cancel-stopped none k = refl
cancel-stopped (some id) k = refl
