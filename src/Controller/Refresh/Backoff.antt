-- ===== src/Controller/Refresh/Backoff.antt =====
-- When controller.py refreshes next.
use visiontak_client.Prelude.{
  ℕ, ◌≡◌, refl, arith, Bool, true, false, not, ◌||◌, some, Text, ℤ, pos, ltb_ℤ, ltb, pos_part,
  neg_part, ◌+◌, if_keeps, ◌⊎◌, inl, inr, ◌∷◌, Bool-cases,
}
use visiontak_client.Python.{
  Result, ok, raise, value_error, overflow_error, type_error, os_error, json_error, cec_error,
  index_error, http_exception, other_exception, api_error, auth_error,
}
use visiontak_client.Json.{Json}
use visiontak_client.Config.Checks.{is_nonzero}
use visiontak_client.Api.{ClientConfig}
use visiontak_client.Controller.{Kiosk, Job, idle, seconds, start_timer}
use visiontak_client.Controller.Refresh.{
  schedule_refresh, after_fetch, refresh_config, next_delay, max_ℤ, auth_retry,
}

-- The delay is the interval of the settings; after a rejected token it is at least that and at least
-- 900 seconds, and no longer than the longer of them.
abbrev pub IsDelay : Result ClientConfig → ℤ → ℤ → Type 0
IsDelay (raise auth_error) interval d =
    (ltb_ℤ d interval ≡ false) × ((ltb_ℤ d (pos 900) ≡ false) × ((d ≡ interval) ⊎ (d ≡ pos 900)))
IsDelay r interval d = d ≡ interval

ltb_asym : (m n : ℕ) → ltb m n ≡ true → ltb n m ≡ false
ltb_asym m n e = ground (arith, e)

ltb_irrefl : (n : ℕ) → ltb n n ≡ false
ltb_irrefl n = ground arith

max-IsDelay :
    (a b : ℤ)
    → (ltb_ℤ (max_ℤ a b) a ≡ false)
      × ((ltb_ℤ (max_ℤ a b) b ≡ false) × ((max_ℤ a b ≡ a) ⊎ (max_ℤ a b ≡ b)))
max-IsDelay a b = elim (Bool-cases (ltb_ℤ a b)) [
  | inl e ↦ rw e (
    ltb_asym (pos_part a + neg_part b) (pos_part b + neg_part a) e,
    (ltb_irrefl (pos_part b + neg_part b), inr refl),
  )
  | inr e ↦ rw e (ltb_irrefl (pos_part a + neg_part a), (e, inl refl))
]

next_delay-IsDelay :
    (r : Result ClientConfig) (interval : ℤ) → IsDelay r interval (next_delay r interval)
unfolding next_delay
next_delay-IsDelay (ok c) interval = refl
next_delay-IsDelay (raise auth_error) interval = max-IsDelay interval auth_retry
next_delay-IsDelay (raise api_error) interval = refl
next_delay-IsDelay (raise value_error) interval = refl
next_delay-IsDelay (raise overflow_error) interval = refl
next_delay-IsDelay (raise type_error) interval = refl
next_delay-IsDelay (raise os_error) interval = refl
next_delay-IsDelay (raise json_error) interval = refl
next_delay-IsDelay (raise cec_error) interval = refl
next_delay-IsDelay (raise index_error) interval = refl
next_delay-IsDelay (raise http_exception) interval = refl
next_delay-IsDelay (raise other_exception) interval = refl

-- What a refresh leaves of the timers of `k` in `j`.
abbrev pub IsNext : Result ClientConfig → Kiosk → Kiosk → Type 0
IsNext r k j =
    (((k.stopped || not (is_nonzero k.config.refresh_interval)) ≡ true) × (j.timers ≡ k.timers))
    ⊎ (((k.stopped || not (is_nonzero k.config.refresh_interval)) ≡ false)
        × ((j.refresh_timer ≡ some k.next_timer)
            × ((d : ℤ) × ((j.timers
                    ≡ (k.next_timer, record { delay = seconds d; job = Job.refresh }) ∷ k.timers)
                  × IsDelay r k.config.refresh_interval d))))

schedule_refresh-IsNext :
    (r : Result ClientConfig) (d : ℤ) (k : Kiosk)
    → IsDelay r k.config.refresh_interval d
    → IsNext r k (schedule_refresh (seconds d) k)
unfolding schedule_refresh start_timer
schedule_refresh-IsNext r d k h =
    if_keeps (IsNext r k) (k.stopped || not (is_nonzero k.config.refresh_interval))
      (λ e. inl (e, refl)) (λ e. inr (e, (refl, (d, (refl, h)))))

-- Whatever the server answers and whether or not the cache can be written, a refresh that ends starts
-- exactly one timer of the next one, which stop() can cancel, after the interval of the settings, or
-- after at least 900 seconds if the token was rejected; but none when the client is stopped or its
-- settings turn refreshing off.
pub refresh_config-IsNext :
    (dumps : Json → Text) (saved : Bool) (r : Result ClientConfig) (k : Kiosk)
    → IsNext r k (refresh_config dumps saved r k)
unfolding refresh_config after_fetch idle
refresh_config-IsNext dumps true (ok c) k =
    schedule_refresh-IsNext (ok c) _ _ (next_delay-IsDelay (ok c) k.config.refresh_interval)
refresh_config-IsNext dumps false (ok c) k =
    schedule_refresh-IsNext (ok c) _ _ (next_delay-IsDelay (ok c) k.config.refresh_interval)
refresh_config-IsNext dumps saved (raise auth_error) k =
    schedule_refresh-IsNext (raise auth_error) _ _
      (next_delay-IsDelay (raise auth_error) k.config.refresh_interval)
refresh_config-IsNext dumps saved (raise api_error) k =
    schedule_refresh-IsNext (raise api_error) _ _
      (next_delay-IsDelay (raise api_error) k.config.refresh_interval)
refresh_config-IsNext dumps saved (raise e) k =
    schedule_refresh-IsNext (raise e) _ _ (next_delay-IsDelay (raise e) k.config.refresh_interval)
