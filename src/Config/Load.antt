-- ===== src/Config/Load.antt =====
-- src/visiontak_client/config.py: load, from the text of the files, the environment, the host name and
-- the memory of the board.
pub mod Bounds
pub mod Precedence
use visiontak_client.Prelude.{
  ℕ, zero, suc, ◌+◌, ◌-◌, ◌/◌, Bool, true, false, ◌&&◌, ◌||◌, Option, none, some, List, [], ◌∷◌,
  ◌++◌, map, Text, codes, text_eq, ℤ, pos, negsuc, ltb_ℤ, leb, ◌==◌, not, if◌then◌else◌, lookup,
  assign, has_key,
}
use visiontak_client.Python.{
  starts_with, occurs_in, Unicode, Exception, Result, ok, raise, ◌>>=◌, value_error, type_error,
  json_error, is_space, int,
}
use visiontak_client.Json.{Json, Items, Fields, null, str, arr, obj, nil, cons, end, field, get}
use visiontak_client.Config.{Config, default_config}
use visiontak_client.Config.Checks.{check, coerce_bool, coerce_int, coerce_text}

-- The names of the fields of Config, in order.
abbrev pub field_names : List Text
field_names =
    codes "server_url"
    ∷ codes "api_token"
    ∷ codes "device_id"
    ∷ codes "cec_backend"
    ∷ codes "cec_device"
    ∷ codes "osd_name"
    ∷ codes "refresh_interval"
    ∷ codes "rotate_interval"
    ∷ codes "start_dashboard"
    ∷ codes "verify_tls"
    ∷ codes "request_timeout"
    ∷ codes "allowed_hosts"
    ∷ codes "max_live_views"
    ∷ codes "hardware_acceleration"
    ∷ codes "dhcp_discovery"
    ∷ []

-- The key of a field in the environment and in a file.
abbrev pub env_key : Text → Text
env_key name = codes "VISIONTAK_" ++ map (λ c. if leb 97 c && leb c 122 then c - 32 else c) name

abbrev pub snap_key : Text → Text
snap_key name = map (λ c. if c == b'_' then b'-' else c) name

abbrev is_item : Text → Items → Bool
is_item k nil = false
is_item k (cons (str s) js) = text_eq s k || is_item k js
is_item k (cons j js) = is_item k js

-- `key not in source`, or source[key]. What is not a dict has no such entry.
unfoldable pub entry : Text → Json → Result (Option Json)
entry k (obj fs) = ok (get k fs)
entry k (arr js) = if is_item k js then raise type_error else ok none
entry k (str s) = if occurs_in k s then raise type_error else ok none
entry k j = raise type_error

-- source[key] in (None, "")
abbrev pub is_blank : Json → Bool
is_blank null = true
is_blank (str []) = true
is_blank j = false

abbrev pub with_entry : Text → Option Json → List (Text × Json) → List (Text × Json)
with_entry name none out = out
with_entry name (some j) out = if is_blank j then out else (name, j) ∷ out

-- _from_mapping, over the fields
unfoldable pub from_fields : (Text → Text) → Json → List Text → Result (List (Text × Json))
unfolding entry
from_fields key source [] = ok []
from_fields key source (name ∷ names) = do
  j ← entry (key name) source
  rest ← from_fields key source names
  ok (with_entry name j rest)

unfoldable pub from_mapping : (Text → Text) → Json → Result (List (Text × Json))
from_mapping key source = from_fields key source field_names

-- values.update(new)
unfoldable pub update : List (Text × Json) → List (Text × Json) → List (Text × Json)
update values [] = values
update values ((k, j) ∷ new) = update (assign k j values) new

-- values.setdefault(k, j)
unfoldable pub set_default : Text → Json → List (Text × Json) → List (Text × Json)
set_default k j values = if has_key k values then values else assign k j values

-- os.environ as a mapping
abbrev pub environ_fields : List (Text × Text) → Fields
environ_fields [] = end
environ_fields ((k, v) ∷ env) = field k (str v) (environ_fields env)

-- n // 1024
abbrev pub mebibytes : ℤ → ℤ
mebibytes (pos n) = pos (n / 1024)
mebibytes (negsuc n) = negsuc (n / 1024)

-- line.split()
abbrev words_from : Text → Text → List Text
words_from [] [] = []
words_from (c ∷ word) [] = (c ∷ word) ∷ []
words_from [] (c ∷ s) = if is_space c then words_from [] s else words_from (c ∷ []) s
words_from (d ∷ word) (c ∷ s) =
    if is_space c then (d ∷ word) ∷ words_from [] s else words_from (d ∷ word ++ c ∷ []) s

abbrev pub second : List Text → Option Text
second (a ∷ b ∷ words) = some b
second words = none

abbrev pub memory_of : Unicode → Option Text → Option ℤ
memory_of u none = none
memory_of u (some word) = elim (int u word) [ ok n ↦ some (mebibytes n) | raise e ↦ none ]

-- _total_memory_mib, from the lines of /proc/meminfo
unfoldable pub total_memory_mib : Unicode → List Text → Option ℤ
unfolding int
total_memory_mib u [] = none
total_memory_mib u (line ∷ lines) =
    let rest = total_memory_mib u lines in
    if starts_with (codes "MemTotal:") line then memory_of u (second (words_from [] line)) else rest

-- LOW_MEMORY_MIB, HIGH_MEMORY_MIB and HIGH_MEMORY_LIVE_VIEWS
abbrev pub low_memory_mib : ℤ
low_memory_mib = pos 1536

abbrev pub high_memory_mib : ℤ
high_memory_mib = pos 3072

abbrev pub high_memory_live_views : ℤ
high_memory_live_views = pos 6

-- The settings that the memory of the board decides unless they are given.
unfoldable pub memory_profile : Option ℤ → List (Text × Json) → List (Text × Json)
unfolding set_default
memory_profile none values = values
memory_profile (some mib) values =
    if ltb_ℤ mib low_memory_mib
    then set_default (codes "hardware_acceleration") (str (codes "never"))
        (set_default (codes "max_live_views") (Json.int (pos 1)) values)
    else if not (ltb_ℤ mib high_memory_mib)
    then set_default (codes "max_live_views") (Json.int high_memory_live_views) values
    else values

-- The state file is ignored if it is corrupt, the configuration file is refused.
abbrev pub or_ignored : Result (List (Text × Json)) → Result (List (Text × Json))
or_ignored (ok new) = ok new
or_ignored (raise json_error) = ok []
or_ignored (raise value_error) = ok []
or_ignored (raise e) = raise e

abbrev pub or_refused : Result (List (Text × Json)) → Result (List (Text × Json))
or_refused (ok new) = ok new
or_refused (raise json_error) = raise value_error
or_refused (raise e) = raise e

module _ (u : Unicode) (repr : Json → Text) (loads : Text → Result Json) where
  -- A file that the client may find, by its content.
  unfoldable pub read_file : Option Text → Result (List (Text × Json))
  unfolding from_mapping
  read_file none = ok []
  read_file (some content) = do source ← loads content; from_mapping snap_key source

  -- Everything that load collects before it coerces.
  unfoldable pub collect :
      Option Text → Option Text → List (Text × Text) → Text → Option ℤ → Result (List (Text × Json))
  unfolding from_mapping update set_default memory_profile
  collect state_file config_file environ hostname memory = do
    state ← or_ignored (read_file state_file)
    config ← or_refused (read_file config_file)
    env ← from_mapping env_key (obj (environ_fields environ))
    ok (
        memory_profile memory
          (set_default (codes "device_id") (str hostname) (update (update state config) env)))

  -- A coerced value, or the default of the field.
  abbrev pub coerced : {A : Type 0} → (Json → Result A) → A → Option Json → Result A
  coerced coerce default none = ok default
  coerced coerce default (some raw) = coerce raw

  -- The coerced values, each with the default of its field in its place.
  unfoldable pub coerce_all : List (Text × Json) → Result Config
  unfolding coerce_bool coerce_int coerce_text
  coerce_all values = do
    server_url ←
        coerced (coerce_text u repr) default_config.server_url (lookup (codes "server_url") values)
    api_token ←
        coerced (coerce_text u repr) default_config.api_token (lookup (codes "api_token") values)
    device_id ←
        coerced (coerce_text u repr) default_config.device_id (lookup (codes "device_id") values)
    cec_backend ←
        coerced (coerce_text u repr) default_config.cec_backend
          (lookup (codes "cec_backend") values)
    cec_device ←
        coerced (coerce_text u repr) default_config.cec_device (lookup (codes "cec_device") values)
    osd_name ←
        coerced (coerce_text u repr) default_config.osd_name (lookup (codes "osd_name") values)
    refresh_interval ←
        coerced (coerce_int u repr) default_config.refresh_interval
          (lookup (codes "refresh_interval") values)
    rotate_interval ←
        coerced (coerce_int u repr) default_config.rotate_interval
          (lookup (codes "rotate_interval") values)
    start_dashboard ←
        coerced (coerce_text u repr) default_config.start_dashboard
          (lookup (codes "start_dashboard") values)
    verify_tls ←
        coerced (coerce_bool u repr) default_config.verify_tls (lookup (codes "verify_tls") values)
    request_timeout ←
        coerced (coerce_int u repr) default_config.request_timeout
          (lookup (codes "request_timeout") values)
    allowed_hosts ←
        coerced (coerce_text u repr) default_config.allowed_hosts
          (lookup (codes "allowed_hosts") values)
    max_live_views ←
        coerced (coerce_int u repr) default_config.max_live_views
          (lookup (codes "max_live_views") values)
    hardware_acceleration ←
        coerced (coerce_text u repr) default_config.hardware_acceleration
          (lookup (codes "hardware_acceleration") values)
    dhcp_discovery ←
        coerced (coerce_bool u repr) default_config.dhcp_discovery
          (lookup (codes "dhcp_discovery") values)
    ok (record {
      server_url = server_url;
      api_token = api_token;
      device_id = device_id;
      cec_backend = cec_backend;
      cec_device = cec_device;
      osd_name = osd_name;
      refresh_interval = refresh_interval;
      rotate_interval = rotate_interval;
      start_dashboard = start_dashboard;
      verify_tls = verify_tls;
      request_timeout = request_timeout;
      allowed_hosts = allowed_hosts;
      max_live_views = max_live_views;
      hardware_acceleration = hardware_acceleration;
      dhcp_discovery = dhcp_discovery;
    })

  -- load
  unfoldable pub load_config :
      Option Text → Option Text → List (Text × Text) → Text → Option ℤ → Result Config
  load_config state_file config_file environ hostname memory = do
    values ← collect state_file config_file environ hostname memory
    c ← coerce_all values
    check c
