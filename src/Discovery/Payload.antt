-- ===== src/Discovery/Payload.antt =====
-- src/visiontak_client/discovery.py: _decode and parse_option.
pub mod Hex
use visiontak_client.Prelude.{
  ℕ, zero, suc, ◌+◌, ◌*◌, ◌-◌, ◌%◌, Bool, true, false, not, ◌&&◌, ◌||◌, Option, none, some, List,
  [], ◌∷◌, Text, leb, ltb, ◌==◌, if◌then◌else◌, all, is_empty, length,
}
use visiontak_client.Python.{Unicode, Result, ok, raise, strip, lstrip_by, rstrip_by}
use visiontak_client.Config.Address.{normalise_server_url}

-- s.strip(c), for one character
unfoldable pub strip_char : ℕ → Text → Text
unfolding lstrip_by rstrip_by
strip_char c s = rstrip_by (λ d. d == c) (lstrip_by (λ d. d == c) s)

-- s.replace(c, ""), for one character
unfoldable pub without : ℕ → Text → Text
without c [] = []
without c (d ∷ s) = let rest = without c s in if d == c then rest else d ∷ rest

-- [0-9a-fA-F], and the value of one
abbrev pub is_hex : ℕ → Bool
is_hex c = (leb 48 c && leb c 57) || (leb 97 c && leb c 102) || (leb 65 c && leb c 70)

abbrev pub hex_value : ℕ → ℕ
hex_value c = if leb c 57 then c - 48 else if leb c 70 then c - 55 else c - 87

-- bytes.fromhex of an even number of hex digits
unfoldable pub from_hex : Text → List ℕ
from_hex [] = []
from_hex (c ∷ []) = []
from_hex (c ∷ d ∷ s) = (hex_value c * 16 + hex_value d) ∷ from_hex s

-- The decoder of UTF-8 between two bytes: how many bytes the character still needs, the bounds of the
-- next of them, and the bits so far.
pub record Partial : Type 0 where
  pub need : ℕ
  pub low : ℕ
  pub high : ℕ
  pub bits : ℕ

abbrev pub between : Partial
between = record { need = 0; low = 0x80; high = 0xbf; bits = 0 }

abbrev expect : ℕ → ℕ → ℕ → ℕ → Option (Partial × Option ℕ)
expect need low high bits = some (record { need = need; low = low; high = high; bits = bits }, none)

-- The first byte of a character.
abbrev first_byte : ℕ → Option (Partial × Option ℕ)
first_byte b =
    if ltb b 0x80
    then some (between, some b)
    else if ltb b 0xc2
    then none
    else if ltb b 0xe0
    then expect 1 0x80 0xbf (b - 0xc0)
    else if b == 0xe0
    then expect 2 0xa0 0xbf 0
    else if b == 0xed
    then expect 2 0x80 0x9f 13
    else if ltb b 0xf0
    then expect 2 0x80 0xbf (b - 0xe0)
    else if b == 0xf0
    then expect 3 0x90 0xbf 0
    else if ltb b 0xf4
    then expect 3 0x80 0xbf (b - 0xf0)
    else if b == 0xf4
    then expect 3 0x80 0x8f 4
    else none

abbrev next_byte : Partial → ℕ → Option (Partial × Option ℕ)
next_byte s b =
    let bits = s.bits * 64 + (b - 0x80) in
    if not (leb s.low b && leb b s.high)
    then none
    else if s.need == 1
    then some (between, some bits)
    else expect (s.need - 1) 0x80 0xbf bits

unfoldable pub utf8_byte : Partial → ℕ → Option (Partial × Option ℕ)
utf8_byte s b = if s.need == 0 then first_byte b else next_byte s b

abbrev emit : Option ℕ → Option Text → Option Text
emit c none = none
emit none (some t) = some t
emit (some c) (some t) = some (c ∷ t)

-- bytes.decode("utf-8", "strict"), none for a UnicodeDecodeError
unfoldable pub utf8_from : Partial → List ℕ → Option Text
unfolding utf8_byte
utf8_from s [] = if s.need == 0 then some [] else none
utf8_from s (b ∷ bs) = elim (utf8_byte s b) [
  | none ↦ none
  | some (s', c) ↦ emit c (utf8_from s' bs)
]

unfoldable pub utf8_decode : List ℕ → Option Text
unfolding utf8_from
utf8_decode = utf8_from between

-- `compact` is a hex payload.
unfoldable pub is_payload : Text → Bool
is_payload compact = leb 4 (length compact) && length compact % 2 == 0 && all is_hex compact

abbrev pub trimmed : Option Text → Option Text
trimmed none = none
trimmed (some decoded) = some (strip (strip_char 0 decoded))

module _ (is_printable : ℕ → Bool) where
  -- The decoded bytes, if they look like an address, or else the text.
  abbrev pub or_text : Text → Option Text → Text
  or_text text none = text
  or_text text (some decoded) =
      if not (is_empty decoded) && all is_printable decoded then decoded else text

  unfoldable pub decode_compact : Text → Text → Text
  unfolding is_payload from_hex utf8_decode strip_char strip
  decode_compact text compact =
      if is_payload compact then or_text text (trimmed (utf8_decode (from_hex compact))) else text

  -- _decode
  unfoldable pub decode : Text → Text
  unfolding strip_char strip without decode_compact
  decode value =
      let text = strip_char b'"' (strip value) in
      if is_empty text then [] else decode_compact text (without 32 (without b':' text))

  unfoldable pub parse_option : Unicode → Text → Result Text
  unfolding decode
  parse_option u value =
      if is_empty (decode value) then ok [] else normalise_server_url u (decode value)
