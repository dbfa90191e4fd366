-- ===== src/Enrol/Token.antt =====
-- What attempt_registration of firstrun.py makes of the token.
use visiontak_client.Prelude.{
  ◌≡◌, refl, true, false, not, ◌&&◌, ◌||◌, none, some, Text, arith, if_keeps, is_empty, ◌⊎◌, inl,
  inr,
}
use visiontak_client.Python.{
  value_error, overflow_error, type_error, os_error, json_error, cec_error, index_error,
  http_exception, other_exception, Result, ok, raise, ◌>>=◌, api_error, auth_error, rstrip_slash,
}
use visiontak_client.Json.{Json, null, bool, float, str, arr, obj}
use visiontak_client.Config.{Config}
use visiontak_client.Enrol.{
  Registration, is_pending, is_approved, Attempt, answered, attempt_registration, register,
  register_body, registration_of,
}

-- Nothing changed, or an approval brought the first token.
abbrev pub IsKept : Config → Attempt → Type 0
IsKept config a = (a.config ≡ config) × (a.persisted ≡ none)

abbrev pub IsIssued : Config → Attempt → Type 0
IsIssued config a =
    (r : Registration) × ((a.answer ≡ some r)
      × ((is_approved r ≡ true)
          × ((is_empty r.token ≡ false)
              × ((is_empty config.api_token ≡ true)
                  × ((a.config ≡ record config { api_token = r.token })
                      × (a.persisted ≡ some r.token))))))

-- What attempt_registration may end in.
abbrev pub IsSettled : Config → Result Attempt → Type 0
IsSettled config (ok a) = IsKept config a ⊎ IsIssued config a
IsSettled config (raise e) = ⊥

-- The exchange ends in a response, an ApiError or an AuthError.
abbrev pub IsAnswer {ℓ} : {A : Type ℓ} → Result A → Type 0
IsAnswer (ok j) = Unit
IsAnswer (raise api_error) = Unit
IsAnswer (raise auth_error) = Unit
IsAnswer (raise e) = ⊥

answered-IsSettled :
    (config : Config) (r : Result Registration)
    → IsAnswer r
    → is_empty config.api_token ≡ true
    → IsSettled config (answered config r)
answered-IsSettled config (ok r) a t =
    if_keeps (IsSettled config) (is_pending r) (λ e. inl (refl, refl))
      (λ e.
        if_keeps (IsSettled config) (is_approved r && not (is_empty r.token))
          (λ k. inr (r, (refl, (ground (arith, k), (ground (arith, k), (t, (refl, refl)))))))
          (λ k. inl (refl, refl)))
answered-IsSettled config (raise api_error) a t = inl (refl, refl)
answered-IsSettled config (raise auth_error) a t = inl (refl, refl)
answered-IsSettled config (raise value_error) a t = elim a [ ]
answered-IsSettled config (raise overflow_error) a t = elim a [ ]
answered-IsSettled config (raise type_error) a t = elim a [ ]
answered-IsSettled config (raise os_error) a t = elim a [ ]
answered-IsSettled config (raise json_error) a t = elim a [ ]
answered-IsSettled config (raise cec_error) a t = elim a [ ]
answered-IsSettled config (raise index_error) a t = elim a [ ]
answered-IsSettled config (raise http_exception) a t = elim a [ ]
answered-IsSettled config (raise other_exception) a t = elim a [ ]

registration_of-IsAnswer :
    (repr : Json → Text) (r : Result Json)
    → IsAnswer r
    → IsAnswer (r >>= λ body. registration_of repr body)
unfolding registration_of
registration_of-IsAnswer repr (ok null) a = tt
registration_of-IsAnswer repr (ok (bool b)) a = tt
registration_of-IsAnswer repr (ok (Json.int i)) a = tt
registration_of-IsAnswer repr (ok (float f)) a = tt
registration_of-IsAnswer repr (ok (str s)) a = tt
registration_of-IsAnswer repr (ok (arr js)) a = tt
registration_of-IsAnswer repr (ok (obj fs)) a = tt
registration_of-IsAnswer repr (raise e) a = a

pub attempt_registration-IsSettled :
    (repr : Json → Text) (exchange : Json → Result Json) (config : Config)
    → ((body : Json) → IsAnswer (exchange body))
    → IsSettled config (attempt_registration repr exchange config)
unfolding attempt_registration register
attempt_registration-IsSettled repr exchange config a =
    if_keeps (IsSettled config) (is_empty config.server_url || not (is_empty config.api_token))
      (λ e. inl (refl, refl))
      (λ e.
        answered-IsSettled config (register repr exchange config.osd_name config)
          (if_keeps IsAnswer (is_empty (rstrip_slash config.server_url)) (λ q. tt)
            (λ q.
              registration_of-IsAnswer repr (exchange (register_body config.osd_name config))
                (a (register_body config.osd_name config))))
          (ground (arith, e)))
