-- ===== src/Enrol.antt =====
-- src/visiontak_client/firstrun.py, and register of src/visiontak_client/api.py.
pub mod Token
use visiontak_client.Prelude.{
  Bool, true, false, not, ◌&&◌, ◌||◌, Option, none, some, List, [], ◌∷◌, Text, codes, text_eq,
  if◌then◌else◌, take, is_empty,
}
use visiontak_client.Python.{Result, ok, raise, ◌>>=◌, rstrip_slash, api_error, auth_error}
use visiontak_client.Json.{Json, str, obj, Fields, field, end, get, truthy, show}
use visiontak_client.Config.{Config}

pub record Registration : Type 0 where
  pub status : Text
  pub token : Text

unfoldable pub is_pending : Registration → Bool
is_pending r = text_eq r.status (codes "pending")

unfoldable pub is_approved : Registration → Bool
is_approved r = text_eq r.status (codes "approved")

-- The body that register sends.
unfoldable pub register_body : Text → Config → Json
register_body label config = obj (
    field (codes "deviceId") (str config.device_id) (
      field (codes "deviceType") (str (codes "raspberry_pi"))
        (if is_empty label then end else field (codes "label") (str (take 120 label)) end)))

-- str(j or ""), and the token if it is a text
abbrev text_or_empty : (Json → Text) → Option Json → Text
text_or_empty repr none = []
text_or_empty repr (some j) = if truthy j then show repr j else []

abbrev token_of : Option Json → Text
token_of (some (str s)) = s
token_of o = []

-- The answer that register reads from the body of the response.
unfoldable pub registration_of : (Json → Text) → Json → Result Registration
registration_of repr (obj fs) = ok (record {
  status = text_or_empty repr (get (codes "status") fs);
  token = token_of (get (codes "token") fs);
})
registration_of repr j = raise api_error

-- VisionTakClient.register, by what the exchange gives for the body: the parsed response, an ApiError
-- or an AuthError.
unfoldable pub register : (Json → Text) → (Json → Result Json) → Text → Config → Result Registration
unfolding registration_of register_body
register repr exchange label config =
    if is_empty (rstrip_slash config.server_url)
    then raise api_error
    else (do body ← exchange (register_body label config); registration_of repr body)

-- discover, by the address that the network offers: the settings, and what is persisted.
unfoldable pub discover : Text → Config → Config × Option Text
discover url config =
    if not (is_empty config.server_url) || is_empty url
    then (config, none)
    else (record config { server_url = url }, some url)

-- What attempt_registration returns, and the token that it hands to persist(). Whether it can be
-- persisted makes no difference to what is returned.
pub record Attempt : Type 0 where
  pub answer : Option Registration
  pub config : Config
  pub persisted : Option Text

abbrev pub answered : Config → Result Registration → Result Attempt
answered config (ok r) =
    if is_pending r
    then ok (record { answer = some r; config = config; persisted = none })
    else if is_approved r && not (is_empty r.token)
    then ok (record {
      answer = some r;
      config = record config { api_token = r.token };
      persisted = some r.token;
    })
    else ok (record { answer = some r; config = config; persisted = none })
answered config (raise api_error) = ok (record { answer = none; config = config; persisted = none })
answered config (raise auth_error) =
    ok (record { answer = none; config = config; persisted = none })
answered config (raise e) = raise e

unfoldable pub attempt_registration : (Json → Text) → (Json → Result Json) → Config → Result Attempt
unfolding register
attempt_registration repr exchange config =
    if is_empty config.server_url || not (is_empty config.api_token)
    then ok (record { answer = none; config = config; persisted = none })
    else answered config (register repr exchange config.osd_name config)
