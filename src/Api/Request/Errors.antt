-- ===== src/Api/Request/Errors.antt =====
-- How _request of api.py sorts what can go wrong.
use visiontak_client.Prelude.{ℕ, ◌≡◌, true, false, Text, ◌⊎◌}
use visiontak_client.Python.{
  Unicode, Exception, Result, ok, raise, json_error, api_error, auth_error,
}
use visiontak_client.Json.{Json}
use visiontak_client.Config.{Config}
use visiontak_client.Api.Request.{
  Request, Response, http_error, unreachable, escaped, response, is_json,
}

-- The codes by which a server refuses a token.
abbrev pub IsRejected : ℕ → Type 0
IsRejected code = (code ≡ 401) ⊎ (code ≡ 403)

-- Why _request raises a plain ApiError once it has sent its request.
abbrev pub IsFailure : Unicode → Response → Type 0
IsFailure u (http_error code) = ¬ IsRejected code
IsFailure u unreachable = Unit
IsFailure u (escaped e) = e ≡ api_error
IsFailure u (response t body) =
    (is_json u t ≡ false) ⊎ ((body ≡ raise json_error) ⊎ (body ≡ raise api_error))

-- Why it raises an exception of another kind, which is the caller's.
abbrev pub IsEscape : Unicode → Exception → Response → Type 0
IsEscape u e (http_error code) = ⊥
IsEscape u e unreachable = ⊥
IsEscape u e (escaped x) = x ≡ e
IsEscape u e (response t body) = (is_json u t ≡ true) × ((body ≡ raise e) × ¬ (e ≡ json_error))

-- The ends of a request that was sent.
abbrev pub IsSorted : Unicode → Response → Result Json → Type 0
IsSorted u r (ok j) = (t : Text) × ((r ≡ response t (ok j)) × (is_json u t ≡ true))
IsSorted u r (raise e) =
    ((e ≡ auth_error) × ((code : ℕ) × ((r ≡ http_error code) × IsRejected code)))
    ⊎ (((e ≡ api_error) × IsFailure u r) ⊎ IsEscape u e r)
