-- ===== src/Discovery/Payload/Hex.antt =====
-- An address that the lease carries as hex.
use visiontak_client.Prelude.{
  ℕ, ◌*◌, ◌/◌, ◌%◌, ◌<◌, ◌≤◌, ◌≡◌, refl, arith, ap, ◌∙◌, Bool, true, false, not, ◌&&◌, ◌||◌, some,
  [], ◌∷◌, Text, leb, ltb, ◌==◌, all, is_empty, length,
}
use visiontak_client.Python.{strip, lstrip_by, rstrip_by, is_space}
use visiontak_client.Cec.Base.{hex_digit}
use visiontak_client.Discovery.Payload.{
  strip_char, without, is_hex, hex_value, from_hex, between, utf8_byte, utf8_from, utf8_decode,
  is_payload, decode_compact, decode, or_text,
}

-- The rendering of bytes that systemd uses for an option of no known type.
unfoldable pub hex_of : Text → Text
hex_of [] = []
hex_of (c ∷ s) = hex_digit (c / 16) ∷ hex_digit (c % 16) ∷ hex_of s

-- A visible character of ASCII.
abbrev pub is_graph : ℕ → Bool
is_graph c = leb 33 c && leb c 126

abbrev is_lower_hex : ℕ → Bool
is_lower_hex c = (leb 48 c && leb c 57) || (leb 97 c && leb c 102)

all_weaken :
    (p q : ℕ → Bool) (s : Text)
    → ((c : ℕ) → p c ≡ true → q c ≡ true)
    → all p s ≡ true
    → all q s ≡ true
all_weaken p q [] h e = refl
all_weaken p q (c ∷ s) h e = ground (arith, e, h c, all_weaken p q s h)

kept :
    (p : ℕ → Bool) (c : ℕ) (s : Text)
    → not (p c) ≡ true
    → rstrip_by p s ≡ s
    → rstrip_by p (c ∷ s) ≡ c ∷ s
unfolding rstrip_by
kept p c [] n e = ground (arith, n)
kept p c (d ∷ s) n e = rw e refl

lstrip_none : (p : ℕ → Bool) (s : Text) → all (λ c. not (p c)) s ≡ true → lstrip_by p s ≡ s
unfolding lstrip_by
lstrip_none p [] e = refl
lstrip_none p (c ∷ s) e = ground (arith, e)

rstrip_none : (p : ℕ → Bool) (s : Text) → all (λ c. not (p c)) s ≡ true → rstrip_by p s ≡ s
unfolding rstrip_by
rstrip_none p [] e = refl
rstrip_none p (c ∷ s) e = kept p c s (ground (arith, e)) (rstrip_none p s (ground (arith, e)))

strip_none :
    (p : ℕ → Bool) (s : Text) → all (λ c. not (p c)) s ≡ true → rstrip_by p (lstrip_by p s) ≡ s
strip_none p s e = ap (rstrip_by p) (lstrip_none p s e) ∙ rstrip_none p s e

without_none : (c : ℕ) (s : Text) → all (λ d. not (d == c)) s ≡ true → without c s ≡ s
unfolding without
without_none c [] e = refl
without_none c (d ∷ s) e = ground (arith, e, without_none c s)

hex_digit_lower : (d : ℕ) → d < 16 → is_lower_hex (hex_digit d) ≡ true
hex_digit_lower d h = ground arith

hex_value_digit : (d : ℕ) → d < 16 → hex_value (hex_digit d) ≡ d
hex_value_digit d h = ground arith

hex_of_lower : (s : Text) → all is_graph s ≡ true → all is_lower_hex (hex_of s) ≡ true
unfolding hex_of
hex_of_lower [] e = refl
hex_of_lower (c ∷ s) e =
    rw (hex_digit_lower (c / 16) (ground (arith, e)), hex_digit_lower (c % 16) (omega arith))
      (hex_of_lower s (ground (arith, e)))

hex_not_empty : (s : Text) → 2 ≤ length s → is_empty (hex_of s) ≡ false
unfolding hex_of
hex_not_empty [] le = let absurd : ⊥ = omega arith in elim absurd [ ]
hex_not_empty (c ∷ s) le = refl

from_hex_of : (s : Text) → all is_graph s ≡ true → from_hex (hex_of s) ≡ s
unfolding hex_of from_hex
from_hex_of [] e = refl
from_hex_of (c ∷ s) e =
    rw
      (
        hex_value_digit (c / 16) (ground (arith, e)),
        hex_value_digit (c % 16) (omega arith),
        from_hex_of s (ground (arith, e)),
      )
      (ap (λ n. n ∷ s) (omega arith))

length-hex_of : (s : Text) → length (hex_of s) ≡ 2 * length s
unfolding hex_of
length-hex_of [] = refl
length-hex_of (c ∷ s) = omega (arith, length-hex_of s)

utf8_byte_ascii : (c : ℕ) → is_graph c ≡ true → utf8_byte between c ≡ some (between, some c)
unfolding utf8_byte
utf8_byte_ascii c e = let below : ltb c 0x80 ≡ true = ground (arith, e) in rw below refl

utf8_from_ascii : (s : Text) → all is_graph s ≡ true → utf8_from between s ≡ some s
unfolding utf8_from
utf8_from_ascii [] e = refl
utf8_from_ascii (c ∷ s) e =
    rw (utf8_byte_ascii c (ground (arith, e)), utf8_from_ascii s (ground (arith, e)), utf8_from)
      refl

space_free : (c : ℕ) → is_lower_hex c ≡ true → not (is_space c) ≡ true
unfolding is_space
space_free c e = ground (arith, e)

graph_space_free : (c : ℕ) → is_graph c ≡ true → not (is_space c) ≡ true
unfolding is_space
graph_space_free c e = ground (arith, e)

-- The clean-up of the text leaves hex digits alone, and so does that of what they decode to.
strip_hex : (s : Text) → all is_lower_hex s ≡ true → strip_char b'"' (strip s) ≡ s
unfolding strip_char strip
strip_hex s e =
    ap (λ t. rstrip_by (λ d. d == b'"') (lstrip_by (λ d. d == b'"') t))
      (strip_none is_space s (all_weaken is_lower_hex (λ c. not (is_space c)) s space_free e))
    ∙ strip_none (λ d. d == b'"') s
        (all_weaken is_lower_hex (λ c. not (c == b'"')) s (λ c h. ground (arith, h)) e)

strip_graph : (s : Text) → all is_graph s ≡ true → strip (strip_char 0 s) ≡ s
unfolding strip_char strip
strip_graph s e =
    ap (λ t. rstrip_by is_space (lstrip_by is_space t))
      (strip_none (λ d. d == 0) s
        (all_weaken is_graph (λ c. not (c == 0)) s (λ c h. ground (arith, h)) e))
    ∙ strip_none is_space s (all_weaken is_graph (λ c. not (is_space c)) s graph_space_free e)

compact_hex : (s : Text) → all is_lower_hex s ≡ true → without 32 (without b':' s) ≡ s
compact_hex s e =
    ap (without 32) (
      without_none b':' s
        (all_weaken is_lower_hex (λ c. not (c == b':')) s (λ c h. ground (arith, h)) e))
    ∙ without_none 32 s
        (all_weaken is_lower_hex (λ c. not (c == 32)) s (λ c h. ground (arith, h)) e)

is_payload_hex : (s : Text) → 2 ≤ length s → all is_graph s ≡ true → is_payload (hex_of s) ≡ true
unfolding is_payload
is_payload_hex s le e =
    let hex : all is_hex (hex_of s) ≡ true =
      all_weaken is_lower_hex is_hex (hex_of s) (λ c h. ground (arith, h)) (hex_of_lower s e) in
    let long = length-hex_of s in ground (arith, hex, long, le)

module _ (is_printable : ℕ → Bool) where
  taken :
      (text s : Text)
      → 2 ≤ length s
      → all is_printable s ≡ true
      → or_text is_printable text (some s) ≡ s
  taken text (c ∷ s) le e = rw e refl
  taken text [] le e = let absurd : ⊥ = omega arith in elim absurd [ ]

  -- An address in visible ASCII, of two characters at least, that the lease carries as hex bytes is
  -- decoded to itself; provided the characters of ASCII that are visible count as printable.
  pub decode-hex_of :
      (s : Text)
      → ((c : ℕ) → is_graph c ≡ true → is_printable c ≡ true)
      → 2 ≤ length s
      → all is_graph s ≡ true
      → decode is_printable (hex_of s) ≡ s
  unfolding decode decode_compact utf8_decode
  decode-hex_of s shown le e =
      let lower = hex_of_lower s e in
      rw
        (
          strip_hex (hex_of s) lower,
          compact_hex (hex_of s) lower,
          is_payload_hex s le e,
          from_hex_of s e,
          utf8_from_ascii s e,
          strip_graph s e,
          hex_not_empty s le,
          taken (hex_of s) s le (all_weaken is_graph is_printable s shown e),
        )
        refl
