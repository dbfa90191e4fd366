-- ===== src/Tests/ConfigTests.antt =====
-- The configuration at concrete files and addresses.
use visiontak_client.Prelude.{
  ◌≡◌, refl, none, some, List, [], ◌∷◌, Text, codes, pos, ◌⊎◌, ◌++◌, contains, lookup, assign,
  text_eq, true,
}
use visiontak_client.Python.{
  starts_with, Result, ok, ◌>>=◌, strip, rstrip_slash, rstrip_by, lstrip_by, is_space, int, isdigit,
  encode,
}
use visiontak_client.Json.{Json, str, obj, field, end, get, show, show_ℤ, show_ℕ, digits_before}
use visiontak_client.Config.{Config, default_config}
use visiontak_client.Config.Checks.{check, refuse_if, coerce_bool, coerce_int, coerce_text}
use visiontak_client.Config.Load.{
  load_config, collect, read_file, coerce_all, from_mapping, from_fields, entry, update,
  set_default, memory_profile,
}
use visiontak_client.Config.Load.{field_names, env_key, environ_fields, snap_key}
use visiontak_client.Config.Persist.{set_field, with_key, read_current, persist}
use visiontak_client.Config.Persist.Durable.{persist-read_file}
use visiontak_client.Config.Load.Precedence.{given, lookup-collect_env}
use visiontak_client.Config.Load.Bounds
use visiontak_client.Config.Load.Bounds.{load_config-IsValid}
use visiontak_client.Config.Address.{
  normalise_server_url, assemble, valid_authority, valid_host, valid_port, is_host_name, partition,
}
use visiontak_client.Config.Address.Shape.{IsAddress, normalise_server_url-IsAddress}
use visiontak_client.Tests.Samples.{ascii, repr}

-- {"refresh-interval": 60}
abbrev settings : Text → Result Json
settings t = ok (obj (field (codes "refresh-interval") (Json.int (pos 60)) end))

abbrev environ : List (Text × Text)
environ = (codes "VISIONTAK_MAX_LIVE_VIEWS", codes "2") ∷ []

abbrev small_board : Config
small_board = record default_config {
  device_id = codes "kiosk";
  refresh_interval = pos 60;
  max_live_views = pos 2;
  hardware_acceleration = codes "never";
}

small_board_is_loaded :
    load_config ascii repr settings none
      (some (codes "{}"))
      environ
      (codes "kiosk")
      (some (pos 900))
    ≡ ok small_board
unfolding load_config collect read_file coerce_all from_mapping from_fields entry update set_default
    memory_profile check refuse_if coerce_bool coerce_int coerce_text contains lookup assign text_eq
    strip rstrip_by lstrip_by is_space int encode get show show_ℤ show_ℕ digits_before
small_board_is_loaded = refl

load_config-IsValid_example : Bounds.IsValid small_board
load_config-IsValid_example =
    load_config-IsValid ascii repr settings none (some (codes "{}")) environ (codes "kiosk")
      (some (pos 900)) small_board small_board_is_loaded

abbrev given_values : List (Text × Json)
given_values =
    (codes "refresh_interval", Json.int (pos 60))
    ∷ (codes "max_live_views", str (codes "2"))
    ∷ (codes "device_id", str (codes "kiosk"))
    ∷ (codes "hardware_acceleration", str (codes "never"))
    ∷ []

values_are_collected :
    collect ascii repr settings none (some (codes "{}")) environ (codes "kiosk") (some (pos 900))
    ≡ ok given_values
unfolding collect read_file from_mapping from_fields entry update set_default memory_profile
    contains lookup assign text_eq get
values_are_collected = refl

has_max_live_views : contains (codes "max_live_views") field_names ≡ true
unfolding contains text_eq
has_max_live_views = refl

env_gives_two :
    given (get (env_key (codes "max_live_views")) (environ_fields environ)) ≡ some (str (codes "2"))
unfolding get text_eq
env_gives_two = refl

lookup-collect_env_example : lookup (codes "max_live_views") given_values ≡ some (str (codes "2"))
lookup-collect_env_example =
    lookup-collect_env ascii repr settings (codes "max_live_views") (str (codes "2")) none
      (some (codes "{}")) environ (codes "kiosk") (some (pos 900)) given_values has_max_live_views
      env_gives_two values_are_collected

address_is_read :
    normalise_server_url ascii (codes " 10.0.0.5:3000/ ") ≡ ok (codes "http://10.0.0.5:3000")
unfolding normalise_server_url assemble valid_authority valid_host valid_port is_host_name partition
    contains text_eq strip rstrip_slash rstrip_by lstrip_by is_space int isdigit starts_with
address_is_read = refl

normalise_server_url-IsAddress_example :
    (codes "http://10.0.0.5:3000" ≡ []) ⊎ IsAddress ascii (codes "http://10.0.0.5:3000")
normalise_server_url-IsAddress_example =
    normalise_server_url-IsAddress ascii (codes " 10.0.0.5:3000/ ") (codes "http://10.0.0.5:3000")
      address_is_read

-- Only one document is written here, so one text stands for it.
abbrev written : Json
written = obj (field (codes "server-url") (str (codes "http://tak.local:3000")) end)

abbrev loads_it : Text → Result Json
loads_it t = ok written

abbrev dumps_it : Json → Text
dumps_it j = codes "{}"

url_is_a_field : contains (codes "server_url") field_names ≡ true
unfolding contains text_eq
url_is_a_field = refl

it_is_written :
    (j : Json)
    → (read_current loads_it none
        >>= with_key (snap_key (codes "server_url")) (codes "http://tak.local:3000"))
      ≡ ok j
    → loads_it (dumps_it j ++ 10 ∷ []) ≡ ok j
unfolding with_key set_field
it_is_written j e = e

persist-read_file_example :
    (content : Text) × ((persist loads_it dumps_it true
          (snap_key (codes "server_url"))
          (codes "http://tak.local:3000")
          none
        ≡ ok content)
      × ((values : List (Text × Json)) × ((read_file ascii repr loads_it (some content) ≡ ok values)
            × (lookup (codes "server_url") values ≡ some (str (codes "http://tak.local:3000"))))))
persist-read_file_example =
    persist-read_file repr loads_it dumps_it ascii (codes "server_url")
      (codes "http://tak.local:3000") none url_is_a_field refl tt it_is_written
