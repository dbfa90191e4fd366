-- ===== src/Api/Request.antt =====
-- src/visiontak_client/api.py: _request of VisionTakClient, over what urlopen gives, and
-- fetch_client_config.
pub mod Errors
use visiontak_client.Prelude.{
  ℕ, Bool, ◌||◌, Option, none, some, List, [], ◌∷◌, ◌++◌, Text, codes, ◌==◌, if◌then◌else◌,
  is_empty,
}
use visiontak_client.Python.{
  Unicode, Result, ok, raise, Exception, value_error, json_error, api_error, auth_error, ◌>>=◌,
  rstrip_slash, occurs_in,
}
use visiontak_client.Json.{Json}
use visiontak_client.Config.{Config}
use visiontak_client.Api.{ClientConfig, parse_client_config}

-- urllib.request.Request, with its headers in the order in which they are added.
pub record Request : Type 0 where
  pub method : Text
  pub url : Text
  pub body : Option Json
  pub headers : List (Text × Text)

-- What urlopen and read end in: an HTTPError with its code, another URLError, OSError or SSLError, an
-- exception of another kind, such as the HTTPExceptions InvalidURL and IncompleteRead, or a response
-- with its Content-Type and what json.loads makes of its body.
pub data Response : Type 0 where
  http_error : ℕ → Response
  unreachable : Response
  escaped : Exception → Response
  response : Text → Result Json → Response

unfoldable pub base_url : Config → Text
unfolding rstrip_slash
base_url config = rstrip_slash config.server_url

abbrev body_headers : Option Json → List (Text × Text)
body_headers none = []
body_headers (some j) = (codes "Content-Type", codes "application/json") ∷ []

unfoldable pub build_request : Config → Text → Text → Option Json → Request
build_request config method path body = record {
  method = method;
  url = base_url config ++ path;
  body = body;
  headers =
      (codes "Accept", codes "application/json")
        ∷ (codes "User-Agent", codes "visiontak-client (" ++ config.device_id ++ codes ")")
        ∷ body_headers body
      ++ (if is_empty config.api_token
          then []
          else (codes "Authorization", codes "Bearer " ++ config.api_token) ∷ []);
}

-- `except json.JSONDecodeError`
abbrev pub decoded : Result Json → Result Json
decoded (ok j) = ok j
decoded (raise json_error) = raise api_error
decoded (raise e) = raise e

unfoldable pub is_rejection : ℕ → Bool
is_rejection code = code == 401 || code == 403

module _ (u : Unicode) where
  unfoldable pub is_json : Text → Bool
  is_json content_type = occurs_in (codes "json") (u.lower content_type)

  unfoldable pub read_response : Response → Result Json
  read_response (http_error code) = if is_rejection code then raise auth_error else raise api_error
  read_response unreachable = raise api_error
  read_response (escaped e) = raise e
  read_response (response content_type body) =
      if is_json content_type then decoded body else raise api_error

  -- What urllib.request.Request takes as an address; for another one it raises ValueError.
  module _ (accepts : Text → Bool) where
    -- The exchange once the request is made.
    unfoldable pub send : (Request → Response) → Request → Result Json
    send exchange r = if accepts r.url then read_response (exchange r) else raise value_error

    -- _request
    unfoldable pub request : (Request → Response) → Config → Text → Text → Option Json → Result Json
    unfolding send
    request exchange config method path body =
        if is_empty (base_url config)
        then raise api_error
        else send exchange (build_request config method path body)

    unfoldable pub fetch_client_config :
        (Json → Text) → (Request → Response) → Config → Result ClientConfig
    fetch_client_config repr exchange config = do
      payload ← request exchange config (codes "GET") (codes "/api/v1/client/config") none
      parse_client_config u repr payload (base_url config)
