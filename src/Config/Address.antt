-- ===== src/Config/Address.antt =====
-- src/visiontak_client/config.py: normalise_server_url, and ensure_device_id.
pub mod Shape
pub mod Authority
use visiontak_client.Prelude.{
  ℕ, zero, suc, ◌+◌, ◌-◌, Bool, true, false, not, ◌&&◌, ◌||◌, Option, none, some, List, [], ◌∷◌,
  ◌++◌, Text, codes, ℤ, pos, ltb_ℤ, leb, ltb, ◌==◌, if◌then◌else◌, take, drop, all, is_empty,
  length, contains,
}
use visiontak_client.Python.{
  starts_with, occurs_in, Unicode, Result, ok, raise, ◌>>=◌, strip, rstrip_slash, isdigit, int,
}
use visiontak_client.Config.{Config}

-- What text.partition(sep) gives.
pub record Parts : Type 0 where
  pub before : Text
  pub found : Bool
  pub after : Text

abbrev pub before_all : ℕ → Parts → Parts
before_all c p = record p { before = c ∷ p.before }

unfoldable pub partition : Text → Text → Parts
partition sep [] = record { before = []; found = false; after = [] }
partition sep (c ∷ s) =
    let rest = before_all c (partition sep s) in
    if starts_with sep (c ∷ s)
    then record { before = []; found = true; after = drop (length sep) (c ∷ s) }
    else rest

-- text.find(c), none for -1
abbrev pub find_char : ℕ → Text → Option ℕ
find_char c [] = none
find_char c (d ∷ s) =
    if d == c then some 0 else elim (find_char c s) [ none ↦ none | some i ↦ some (suc i) ]

-- [A-Za-z0-9]
abbrev pub is_alnum : ℕ → Bool
is_alnum c = (leb 65 c && leb c 90) || (leb 97 c && leb c 122) || (leb 48 c && leb c 57)

-- [0-9A-Fa-f:.]
abbrev pub is_ipv6_char : ℕ → Bool
is_ipv6_char c =
    (leb 48 c && leb c 57)
    || (leb 65 c && leb c 70)
    || (leb 97 c && leb c 102)
    || c == b':'
    || c == b'.'

-- [A-Za-z0-9.\-]
abbrev pub is_host_char : ℕ → Bool
is_host_char c = is_alnum c || c == b'.' || c == b'-'

abbrev pub last_is_alnum : ℕ → Text → Bool
last_is_alnum c [] = is_alnum c
last_is_alnum c (d ∷ s) = last_is_alnum d s

-- The pattern of a host name.
unfoldable pub is_host_name : Text → Bool
is_host_name [] = false
is_host_name (c ∷ s) = is_alnum c && all is_host_char s && last_is_alnum c s

abbrev pub port_in_range : ℤ → Bool
port_in_range n = ltb_ℤ (pos 0) n && not (ltb_ℤ (pos 65535) n)

module _ (u : Unicode) where
  -- _valid_port. A digit that is not decimal lets int() raise.
  unfoldable pub valid_port : Text → Result Bool
  unfolding isdigit int
  valid_port port = if isdigit u port then (do n ← int u port; ok (port_in_range n)) else ok false

  -- What follows the bracket of an IPv6 literal.
  unfoldable pub valid_ipv6_port : Text → Result Bool
  unfolding valid_port
  valid_ipv6_port [] = ok true
  valid_ipv6_port (c ∷ port) = if c == b':' then valid_port port else ok false

  unfoldable pub valid_ipv6 : Text → Option ℕ → Result Bool
  unfolding valid_ipv6_port
  valid_ipv6 authority none = ok false
  valid_ipv6 authority (some close) =
      let host = take (close - 1) (drop 1 authority) in
      if ltb close 2 then ok false else (do
        fits ← valid_ipv6_port (drop (close + 1) authority)
        ok (fits && not (is_empty host) && all is_ipv6_char host))

  unfoldable pub valid_host : Parts → Result Bool
  unfolding valid_port is_host_name
  valid_host p = do
    fits ← if p.found then valid_port p.after else ok true
    ok (fits && is_host_name p.before)

  -- _valid_authority
  unfoldable pub valid_authority : Text → Result Bool
  unfolding valid_ipv6 valid_host
  valid_authority authority =
      if starts_with (codes "[") authority
      then valid_ipv6 authority (find_char b']' authority)
      else valid_host (partition (codes ":") authority)

  abbrev pub http_schemes : List Text
  http_schemes = codes "http" ∷ codes "https" ∷ []

  -- rest.split("/", 1)[0]
  abbrev pub authority_of : Text → Text
  authority_of rest = (partition (codes "/") rest).before

  -- The lines of normalise_server_url after the split.
  unfoldable pub assemble : Text → Text → Result Text
  unfolding valid_authority
  assemble scheme rest = if not (contains scheme http_schemes) || is_empty rest then ok [] else (do
    valid ← valid_authority (authority_of rest)
    if valid then ok (scheme ++ codes "://" ++ rest) else ok [])

  abbrev with_scheme : Text → Text
  with_scheme text = if (partition (codes "://") text).found then text else codes "http://" ++ text

  unfoldable pub normalise_server_url : Text → Result Text
  unfolding strip rstrip_slash partition assemble
  normalise_server_url raw =
      let text = strip raw in
      let parts = partition (codes "://") (with_scheme text) in
      if is_empty text then ok [] else assemble (u.lower parts.before) (rstrip_slash parts.after)

  -- _WEAK_DEVICE_IDS, DEVICE_ID_MIN_LEN and DEVICE_ID_PREFIX
  abbrev pub weak_device_ids : List Text
  weak_device_ids =
      codes "localhost"
      ∷ codes "localhost.localdomain"
      ∷ codes "ubuntu"
      ∷ codes "raspberrypi"
      ∷ []
      ∷ []

  abbrev pub device_id_prefix : Text
  device_id_prefix = codes "visiontak_client_"

  -- ensure_device_id, by the text of the fresh UUID: the settings, and the id that is persisted.
  unfoldable pub ensure_device_id : Text → Config → Config × Option Text
  unfolding strip
  ensure_device_id uuid config =
      let current = strip config.device_id in
      let new_id = device_id_prefix ++ uuid in
      if not (contains (u.lower current) weak_device_ids) && leb 8 (length current)
      then (config, none)
      else (record config { device_id = new_id }, some new_id)
