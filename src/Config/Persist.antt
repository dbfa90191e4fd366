-- ===== src/Config/Persist.antt =====
-- src/visiontak_client/config.py: persist, over the content of self-config.json. The copy in snapd's
-- configuration is best effort and changes nothing here.
pub mod Durable
use visiontak_client.Prelude.{
  Bool, Option, none, some, List, [], ◌∷◌, ◌++◌, Text, text_eq, if◌then◌else◌,
}
use visiontak_client.Python.{Result, ok, raise, ◌>>=◌, json_error, type_error, os_error}
use visiontak_client.Json.{Json, str, obj, Fields, field, end}

-- d[k] = j
unfoldable pub set_field : Text → Json → Fields → Fields
set_field k j end = field k j end
set_field k j (field i v fs) = if text_eq i k then field i j fs else field i v (set_field k j fs)

-- The settings of the file so far; a corrupt file counts as empty.
abbrev pub current_of : Result Json → Result Json
current_of (ok j) = ok j
current_of (raise json_error) = ok (obj end)
current_of (raise e) = raise e

-- current[key] = value; only a dict takes it.
unfoldable pub with_key : Text → Text → Json → Result Json
unfolding set_field
with_key key value (obj fs) = ok (obj (set_field key (str value) fs))
with_key key value j = raise type_error

abbrev pub read_current : (Text → Result Json) → Option Text → Result Json
read_current loads none = ok (obj end)
read_current loads (some content) = current_of (loads content)

-- persist, by json.loads and json.dumps, whether the directory can be written, and the content of the
-- file, none if there is none: the content after it.
unfoldable pub persist :
    (Text → Result Json) → (Json → Text) → Bool → Text → Text → Option Text → Result Text
unfolding with_key
persist loads dumps writable key value file = do
  current ← read_current loads file
  new ← with_key key value current
  if writable then ok (dumps new ++ 10 ∷ []) else raise os_error

-- write_snap_config, by json.dumps with its keys sorted: the content of config.json after it
unfoldable pub write_snap_config : (Json → Text) → Fields → Text
write_snap_config dumps_sorted values = dumps_sorted (obj values)
