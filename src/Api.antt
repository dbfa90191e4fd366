-- ===== src/Api.antt =====
-- src/visiontak_client/api.py: the answers of the server as values, the client configuration and its
-- cache on disk. The request itself is in Api/Request.
pub mod Parsing
pub mod Cache
pub mod Request
use visiontak_client.Prelude.{
  Bool, true, false, Option, none, some, List, [], ◌∷◌, Text, codes, if◌then◌else◌, is_empty, ℤ,
}
use visiontak_client.Python.{
  Unicode, Result, ok, raise, Exception, value_error, json_error, api_error, os_error, ◌>>=◌,
}
use visiontak_client.Json.{
  Json, null, str, arr, obj, Items, nil, cons, Fields, end, field, get, truthy, show,
}
use visiontak_client.Models.{Dashboard, is_enabled, from_payload, sort_dashboards}

pub record ClientConfig : Type 0 where
  pub dashboards : List Dashboard
  pub default_id : Option Text

-- ClientConfig()
abbrev pub no_config : ClientConfig
no_config = record { dashboards = []; default_id = none }

abbrev pub collection_keys : List Text
collection_keys =
    codes "allowedDashboards"
    ∷ codes "dashboards"
    ∷ codes "data"
    ∷ codes "items"
    ∷ codes "results"
    ∷ []

-- The list under the first key that holds one.
unfoldable pub first_list : List Text → Fields → Option Items
first_list [] payload = none
first_list (k ∷ ks) payload = elim (get k payload) [
  | none ↦ first_list ks payload
  | some (arr items) ↦ some items
  | some _ ↦ first_list ks payload
]

or_api_error : Option Items → Result Items
or_api_error none = raise api_error
or_api_error (some items) = ok items

unfoldable pub unwrap_collection : Json → Result Items
unfolding or_api_error
unwrap_collection (arr items) = ok items
unwrap_collection (obj payload) = or_api_error (first_list collection_keys payload)
unwrap_collection j = raise api_error

module _ (u : Unicode) (repr : Json → Text) where
  -- `except ValueError` of the loop: an entry that is not usable is left out.
  unfoldable pub keep_usable : Result Dashboard → Result (List Dashboard) → Result (List Dashboard)
  keep_usable (ok d) rest = do ds ← rest; ok (d ∷ ds)
  keep_usable (raise value_error) rest = rest
  keep_usable (raise json_error) rest = rest
  keep_usable (raise e) rest = raise e

  -- The loop of parse_client_config.
  unfoldable pub parse_entries : Items → Text → Result (List Dashboard)
  parse_entries nil base_url = ok []
  parse_entries (cons (obj entry) entries) base_url =
      let rest = parse_entries entries base_url in
      if is_enabled entry then keep_usable (from_payload u repr entry base_url) rest else rest
  parse_entries (cons j entries) base_url = parse_entries entries base_url

  unfoldable pub text_if_truthy : Option Json → Option Text
  text_if_truthy none = none
  text_if_truthy (some j) = if truthy j then some (show repr j) else none

  unfoldable pub default_of : Json → Option Text
  unfolding text_if_truthy
  default_of (obj payload) = text_if_truthy (get (codes "defaultDashboardId") payload)
  default_of j = none

  unfoldable pub parse_client_config : Json → Text → Result ClientConfig
  parse_client_config payload base_url = do
    entries ← unwrap_collection payload
    ds ← parse_entries entries base_url
    ok (record { dashboards = sort_dashboards u ds; default_id = default_of payload })

-- The payload that ConfigCache.save writes.
unfoldable pub entry_json : Dashboard → Json
entry_json d = obj (
    field (codes "id") (str d.id)
      (field (codes "name") (str d.name) (field (codes "sortOrder") (Json.int d.order) end)))

unfoldable pub entries_json : List Dashboard → Items
entries_json [] = nil
entries_json (d ∷ ds) = cons (entry_json d) (entries_json ds)

abbrev pub default_json : Option Text → Json
default_json none = null
default_json (some id) = str id

unfoldable pub cache_json : ClientConfig → Json
cache_json cc = obj (
    field (codes "defaultDashboardId") (default_json cc.default_id)
      (field (codes "allowedDashboards") (arr (entries_json cc.dashboards)) end))

-- The cache file, none if there is none. ConfigCache.save: the file after it, by json.dumps.
unfoldable pub save : (Json → Text) → ClientConfig → Option Text
save dumps c = some (dumps (cache_json c))

-- `except (JSONDecodeError, ApiError, OSError)`
unfoldable pub recover : Result ClientConfig → Result ClientConfig
recover (ok c) = ok c
recover (raise json_error) = ok no_config
recover (raise api_error) = ok no_config
recover (raise Exception.auth_error) = ok no_config
recover (raise os_error) = ok no_config
recover (raise e) = raise e

-- ConfigCache.load, by json.loads
unfoldable pub load :
    Unicode → (Json → Text) → (Text → Result Json) → Option Text → Text → Result ClientConfig
load u repr loads none base_url = ok no_config
load u repr loads (some content) base_url =
    recover (do payload ← loads content; parse_client_config u repr payload base_url)
