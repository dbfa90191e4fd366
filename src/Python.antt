-- ===== src/Python.antt =====
-- What the source uses of Python itself: exceptions as values, and the text methods.
-- The tables of the Unicode database that the interpreter carries are the parameter `Unicode`.
use visiontak_client.Prelude.{
  ℕ, zero, suc, ◌+◌, ◌*◌, ◌<◌, ◌≡◌, Bool, true, false, ◌&&◌, ◌||◌, Option, none, some, List, [],
  ◌∷◌, Text, ℤ, pos, negsuc, leb, ltb, ◌==◌, ◌/◌, ◌%◌, ◌++◌, if◌then◌else◌, all, is_empty, ap, ◌⊎◌,
  inl, inr, refl,
}

pub data Exception : Type 0 where
  value_error overflow_error type_error os_error json_error api_error auth_error cec_error
        index_error http_exception other_exception :
      Exception

pub data Result {ℓ} (A : Type ℓ) : Type ℓ where
  ok : A → Result A
  raise : Exception → Result A

infixl 10 ◌>>=◌
abbrev pub ◌>>=◌ {ℓ κ} : {A : Type ℓ} {B : Type κ} → Result A → (A → Result B) → Result B
ok a >>= f = f a
raise e >>= f = raise e

-- `str.isdigit` and the value of a decimal digit, character by character, and `str.lower`.
-- Every decimal digit is a digit; some digits, such as superscripts, are not decimal.
pub record Unicode : Type 0 where
  pub is_digit : ℕ → Bool
  pub decimal : ℕ → Option ℕ
  pub lower : Text → Text
  pub decimal_is_digit : (c v : ℕ) → decimal c ≡ some v → is_digit c ≡ true
  pub decimal_ascii : (v : ℕ) → v < 10 → decimal (48 + v) ≡ some v
  pub decimal-lt : (c v : ℕ) → decimal c ≡ some v → v < 10

-- `str.isspace` of one character.
unfoldable pub is_space : ℕ → Bool
is_space c =
    (leb 9 c && leb c 13)
    || (leb 28 c && leb c 32)
    || c == 0x85
    || c == 0xa0
    || c == 0x1680
    || (leb 0x2000 c && leb c 0x200a)
    || c == 0x2028
    || c == 0x2029
    || c == 0x202f
    || c == 0x205f
    || c == 0x3000

-- One character in UTF-8. A surrogate has no encoding.
encode_char : ℕ → Result (List ℕ)
encode_char c =
    if ltb c 0x80
    then ok (c ∷ [])
    else if ltb c 0x800
    then ok ((0xc0 + c / 64) ∷ (0x80 + c % 64) ∷ [])
    else if leb 0xd800 c && leb c 0xdfff
    then raise value_error
    else if ltb c 0x10000
    then ok ((0xe0 + c / 4096) ∷ (0x80 + c / 64 % 64) ∷ (0x80 + c % 64) ∷ [])
    else ok
        ((0xf0 + c / 262144) ∷ (0x80 + c / 4096 % 64) ∷ (0x80 + c / 64 % 64) ∷ (0x80 + c % 64) ∷ [])

-- s.encode()
unfoldable pub encode : Text → Result (List ℕ)
unfolding encode_char
encode [] = ok []
encode (c ∷ s) = do bs ← encode_char c; rest ← encode s; ok (bs ++ rest)

-- Drop the characters of a class at the front, at the back, at both ends.
unfoldable pub lstrip_by : (ℕ → Bool) → Text → Text
lstrip_by p [] = []
lstrip_by p (c ∷ s) = if p c then lstrip_by p s else c ∷ s

-- What is left of `c ∷ s` once the back is dropped.
abbrev keep_back : (ℕ → Bool) → ℕ → Text → Text
keep_back p c [] = if p c then [] else c ∷ []
keep_back p c (d ∷ s) = c ∷ d ∷ s

unfoldable pub rstrip_by : (ℕ → Bool) → Text → Text
rstrip_by p [] = []
rstrip_by p (c ∷ s) = keep_back p c (rstrip_by p s)

unfoldable pub strip : Text → Text
unfolding is_space lstrip_by rstrip_by
strip s = rstrip_by is_space (lstrip_by is_space s)

-- t.startswith(s), and s in t, for two texts
unfoldable pub starts_with : Text → Text → Bool
starts_with [] t = true
starts_with (c ∷ s) [] = false
starts_with (c ∷ s) (d ∷ t) = c == d && starts_with s t

unfoldable pub occurs_in : Text → Text → Bool
unfolding starts_with
occurs_in k [] = starts_with k []
occurs_in k (c ∷ t) = starts_with k (c ∷ t) || occurs_in k t

-- s.rstrip("/")
unfoldable pub rstrip_slash : Text → Text
unfolding rstrip_by
rstrip_slash = rstrip_by (λ c. c == b'/')

-- s.isdigit()
unfoldable pub isdigit : Unicode → Text → Bool
isdigit u [] = false
isdigit u (c ∷ s) = all u.is_digit (c ∷ s)

-- The digits of an `int` literal from the value so far; one `_` may stand between two digits.
-- `gap` says whether a `_` may come next, and whether the text may end here.
int_digits : Unicode → Bool → ℕ → Text → Result ℕ
int_digits u gap n [] = if gap then ok n else raise value_error
int_digits u gap n (c ∷ s) = elim (u.decimal c) [
  | some v ↦ int_digits u true (n * 10 + v) s
  | none ↦ if c == b'_' && gap then int_digits u false n s else raise value_error
]

negate : ℕ → ℤ
negate zero = pos 0
negate (suc n) = negsuc n

-- The sign of an `int` literal.
int_signed : Unicode → Text → Result ℤ
unfolding int_digits negate
int_signed u [] = raise value_error
int_signed u (c ∷ s) =
    if c == b'-'
    then (do n ← int_digits u false 0 s; ok (negate n))
    else if c == b'+'
    then (do n ← int_digits u false 0 s; ok (pos n))
    else (do n ← int_digits u false 0 (c ∷ s); ok (pos n))

-- int(s)
unfoldable pub int : Unicode → Text → Result ℤ
unfolding int_signed strip
int u s = int_signed u (strip s)

-- A character in front of the first piece.
abbrev cons_first : ℕ → List Text → List Text
cons_first c [] = (c ∷ []) ∷ []
cons_first c (piece ∷ pieces) = (c ∷ piece) ∷ pieces

-- s.split(",") by any separator character: the pieces, of which there is one at least.
unfoldable pub split_on : ℕ → Text → List Text
split_on sep [] = [] ∷ []
split_on sep (c ∷ s) = if c == sep then [] ∷ split_on sep s else cons_first c (split_on sep s)

-- [p.strip() for p in pieces if p.strip()]
unfoldable pub stripped : List Text → List Text
unfolding strip
stripped [] = []
stripped (s ∷ ss) = let rest = stripped ss in if is_empty (strip s) then rest else strip s ∷ rest

module _ {ℓ} {A : Type ℓ} where
  or_default : A → Result A → A
  or_default d (ok a) = a
  or_default d (raise e) = d

  pub ok-injective : {a b : A} → ok a ≡ ok b → a ≡ b
  unfolding or_default
  ok-injective {a = a} q = ap (or_default a) q

  -- To split on a computed result and keep the equation.
  pub Result-cases : (r : Result A) → ((a : A) × (r ≡ ok a)) ⊎ ((e : Exception) × (r ≡ raise e))
  Result-cases (ok a) = inl (a, refl)
  Result-cases (raise e) = inr (e, refl)
