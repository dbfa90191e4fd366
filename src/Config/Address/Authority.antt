-- ===== src/Config/Address/Authority.antt =====
-- What _valid_authority of config.py lets through.
use visiontak_client.Prelude.{
  ℕ, suc, ◌+◌, ◌-◌, ◌≤◌, ◌<◌, ◌≡◌, refl, sym, ap, ◌∙◌, arith, Bool, true, false, not, ◌&&◌, Option,
  none, some, [], ◌∷◌, ◌++◌, Text, codes, ℤ, pos, negsuc, leb, ltb, ◌==◌, ==_iff, if◌then◌else◌,
  take, drop, all, All, is_empty, length, ◌⊎◌, inl, inr, if_keeps, Bool-cases,
}
use mathlib.Core.Path.{subst}
use visiontak_client.Python.{
  Unicode, Result, ok, raise, ◌>>=◌, starts_with, isdigit, int, ok-injective,
}
use visiontak_client.Config.Address.{
  partition, find_char, is_alnum, is_ipv6_char, is_host_char, last_is_alnum, is_host_name,
  port_in_range, valid_port, valid_ipv6_port, valid_ipv6, valid_host, valid_authority,
}

abbrev IsDigit : ℕ → Type 0
IsDigit c = (48 ≤ c) × (c ≤ 57)

abbrev pub IsAlnum : ℕ → Type 0
IsAlnum c = IsDigit c ⊎ (((65 ≤ c) × (c ≤ 90)) ⊎ ((97 ≤ c) × (c ≤ 122)))

-- Letters, digits, dots and hyphens.
abbrev pub IsHostChar : ℕ → Type 0
IsHostChar c = IsAlnum c ⊎ ((c ≡ 46) ⊎ (c ≡ 45))

-- Hex digits, colons and dots.
abbrev pub IsIpv6Char : ℕ → Type 0
IsIpv6Char c =
    IsDigit c ⊎ (((65 ≤ c) × (c ≤ 70)) ⊎ (((97 ≤ c) × (c ≤ 102)) ⊎ ((c ≡ 58) ⊎ (c ≡ 46))))

-- A last character that is a letter or a digit.
abbrev pub EndsAlnum : Text → Type 0
EndsAlnum host = (front : Text) × ((last : ℕ) × ((host ≡ front ++ last ∷ []) × IsAlnum last))

abbrev pub IsHost : Text → Type 0
IsHost [] = ⊥
IsHost (c ∷ s) = IsAlnum c × (All IsHostChar (c ∷ s) × EndsAlnum (c ∷ s))

module _ (u : Unicode) where
  -- The decimal text of a number that a port may be.
  abbrev pub IsPort : Text → Type 0
  IsPort port = (n : ℕ) × ((int u port ≡ ok (pos n)) × ((0 < n) × (n ≤ 65535)))

  -- Nothing, or a colon and a port.
  abbrev pub IsPortTail : Text → Type 0
  IsPortTail [] = Unit
  IsPortTail (c ∷ port) = (c ≡ 58) × IsPort port

  -- A host name or a bracketed IPv6 literal, and a port or none.
  abbrev pub IsAuthority : Text → Type 0
  IsAuthority a =
      ((host tail : Text) × ((a ≡ host ++ tail) × (IsHost host × IsPortTail tail)))
      ⊎ ((host tail : Text) × ((a ≡ 91 ∷ host ++ 93 ∷ tail)
            × ((is_empty host ≡ false) × (All IsIpv6Char host × IsPortTail tail))))

all-All :
    (p : ℕ → Bool) (P : ℕ → Type 0) (s : Text)
    → ((c : ℕ) → p c ≡ true → P c)
    → all p s ≡ true
    → All P s
all-All p P [] h e = tt
all-All p P (c ∷ s) h e = (h c (ground (arith, e)), all-All p P s h (ground (arith, e)))

alnum : (c : ℕ) → is_alnum c ≡ true → IsAlnum c
alnum c e = elim (Bool-cases (leb 65 c && leb c 90)) [
  | inl a ↦ inr (inl (ground (arith, a)))
  | inr a ↦ elim (Bool-cases (leb 97 c && leb c 122)) [
    | inl b ↦ inr (inr (ground (arith, b)))
    | inr b ↦ inl (ground (arith, e, a, b))
  ]
]

host_char : (c : ℕ) → is_host_char c ≡ true → IsHostChar c
host_char c e = elim (Bool-cases (is_alnum c)) [
  | inl a ↦ inl (alnum c a)
  | inr a ↦ elim (Bool-cases (c == 46)) [
    | inl b ↦ inr (inl ((==_iff c 46).0 b))
    | inr b ↦ inr (inr (ground (arith, e, a, b)))
  ]
]

ipv6_char : (c : ℕ) → is_ipv6_char c ≡ true → IsIpv6Char c
ipv6_char c e = elim (Bool-cases (leb 65 c && leb c 70)) [
  | inl a ↦ inr (inl (ground (arith, a)))
  | inr a ↦ elim (Bool-cases (leb 97 c && leb c 102)) [
    | inl b ↦ inr (inr (inl (ground (arith, b))))
    | inr b ↦ elim (Bool-cases (c == 58)) [
      | inl x ↦ inr (inr (inr (inl ((==_iff c 58).0 x))))
      | inr x ↦ elim (Bool-cases (c == 46)) [
        | inl y ↦ inr (inr (inr (inr ((==_iff c 46).0 y))))
        | inr y ↦ inl (ground (arith, e, a, b, x, y))
      ]
    ]
  ]
]

last_alnum : (c : ℕ) (s : Text) → last_is_alnum c s ≡ true → EndsAlnum (c ∷ s)
last_alnum c [] e = ([], (c, (refl, alnum c e)))
last_alnum c (d ∷ s) e =
    let (front, (last, (q, h))) = last_alnum d s e in (c ∷ front, (last, (ap (λ t. c ∷ t) q, h)))

IsHost-name : (host : Text) → is_host_name host ≡ true → IsHost host
unfolding is_host_name
IsHost-name [] e = cc e
IsHost-name (c ∷ s) e =
    let first : is_alnum c ≡ true = ground (arith, e) in
    let inner : all is_host_char s ≡ true = ground (arith, e) in
    let end : last_is_alnum c s ≡ true = ground (arith, e) in
    (
      alnum c first,
      (
        (inl (alnum c first), all-All is_host_char IsHostChar s host_char inner),
        last_alnum c s end,
      ),
    )

starts : (sep s : Text) → starts_with sep s ≡ true → s ≡ sep ++ drop (length sep) s
unfolding starts_with
starts [] s e = refl
starts (c ∷ sep) [] e = cc e
starts (c ∷ sep) (d ∷ s) e =
    let same = (==_iff c d).0 (ground (arith, e)) in
    rw same (ap (λ t. d ∷ t) (starts sep s (ground (arith, e))))

pub found_parts :
    (sep s : Text)
    → ((partition sep s).found ≡ true)
    → s ≡ (partition sep s).before ++ (sep ++ (partition sep s).after)
unfolding partition
found_parts sep [] e = cc e
found_parts sep (c ∷ s) e = elim (Bool-cases (starts_with sep (c ∷ s))) [
  | inl q ↦ rw q (starts sep (c ∷ s) q)
  | inr q ↦ rw q (ap (λ t. c ∷ t) (found_parts sep s (rw q at e)))
]

pub no_parts : (sep s : Text) → (partition sep s).found ≡ false → (partition sep s).before ≡ s
unfolding partition
no_parts sep [] e = refl
no_parts sep (c ∷ s) e = elim (Bool-cases (starts_with sep (c ∷ s))) [
  | inl q ↦ cc (rw q at e)
  | inr q ↦ rw q (ap (λ t. c ∷ t) (no_parts sep s (rw q at e)))
]

some-injective : {a b : ℕ} → some a ≡ some b → a ≡ b
some-injective {a} e = ap (λ o. elim o [ none ↦ a | some x ↦ x ]) e

found_later :
    (c i d : ℕ) (s : Text) (o : Option ℕ)
    → ((i : ℕ) → find_char c s ≡ some i → s ≡ take i s ++ c ∷ drop (suc i) s)
    → find_char c s ≡ o
    → (elim o [ none ↦ none | some j ↦ some (suc j) ]) ≡ some i
    → d ∷ s ≡ take i (d ∷ s) ++ c ∷ drop (suc i) (d ∷ s)
found_later c i d s none h f e = cc e
found_later c i d s (some j) h f e =
    subst (λ i. d ∷ s ≡ take i (d ∷ s) ++ c ∷ drop (suc i) (d ∷ s)) (some-injective e)
      (ap (λ t. d ∷ t) (h j f))

found_char : (c i : ℕ) (s : Text) → find_char c s ≡ some i → s ≡ take i s ++ c ∷ drop (suc i) s
found_char c i [] e = cc e
found_char c i (d ∷ s) e = elim (Bool-cases (d == c)) [
  | inl q ↦
      let at_front : 0 ≡ i = some-injective (rw q at e) in
      subst (λ i. d ∷ s ≡ take i (d ∷ s) ++ c ∷ drop (suc i) (d ∷ s)) at_front
        (ap (λ x. x ∷ s) ((==_iff d c).0 q))
  | inr q ↦ found_later c i d s (find_char c s) (λ j. found_char c j s) refl (rw q at e)
]

pub append_nil : (s : Text) → s ++ [] ≡ s
append_nil [] = refl
append_nil (c ∷ s) = ap (λ t. c ∷ t) (append_nil s)

one_less : (j : ℕ) → suc j - 1 ≡ j
one_less j = omega arith

one_more : (j : ℕ) → suc j + 1 ≡ suc (suc j)
one_more j = omega arith

in_range : (n : ℤ) → port_in_range n ≡ true → (m : ℕ) × ((n ≡ pos m) × ((0 < m) × (m ≤ 65535)))
in_range (pos m) e = (m, (refl, (ground (arith, e), ground (arith, e))))
in_range (negsuc m) e = ground (arith, e)

module _ (u : Unicode) where
  IsPort-read :
      (port : Text) (r : Result ℤ)
      → int u port ≡ r
      → (r >>= λ n. ok (port_in_range n)) ≡ ok true
      → IsPort u port
  IsPort-read port (raise e) q h = cc h
  IsPort-read port (ok n) q h =
      let (m, (e, b)) = in_range n (ok-injective h) in (m, (q ∙ ap ok e, b))

  valid_port-IsPort : (port : Text) → valid_port u port ≡ ok true → IsPort u port
  unfolding valid_port
  valid_port-IsPort port =
      if_keeps (λ (r : Result Bool). r ≡ ok true → IsPort u port) (isdigit u port)
        (λ d h. IsPort-read port (int u port) refl h) (λ d h. cc h)

  tail_read : (tail : Text) → valid_ipv6_port u tail ≡ ok true → IsPortTail u tail
  unfolding valid_ipv6_port
  tail_read [] = λ h. tt
  tail_read (c ∷ port) =
      if_keeps (λ (r : Result Bool). r ≡ ok true → IsPortTail u (c ∷ port)) (c == b':')
        (λ q h. ((==_iff c 58).0 q, valid_port-IsPort port h)) (λ q h. cc h)

  both :
      (r : Result Bool) (b : Bool)
      → (r >>= λ fits. ok (fits && b)) ≡ ok true
      → (r ≡ ok true) × (b ≡ true)
  both (raise e) b h = cc h
  both (ok true) b h = (refl, ok-injective h)
  both (ok false) b h = cc h

  valid_host-IsAuthority :
      (a : Text) → valid_host u (partition (codes ":") a) ≡ ok true → IsAuthority u a
  unfolding valid_host
  valid_host-IsAuthority a h =
      let p = partition (codes ":") a in
      let (fits, name) =
        both (if p.found then valid_port u p.after else ok true) (is_host_name p.before) h in
      elim (Bool-cases p.found) [
        | inl f ↦ inl (
          p.before,
          58 ∷ p.after,
          (
            found_parts (codes ":") a f,
            (IsHost-name p.before name, (refl, valid_port-IsPort p.after (rw f at fits))),
          ),
        )
        | inr f ↦ inl (
          p.before,
          [],
          (
            sym (no_parts (codes ":") a f) ∙ sym (append_nil p.before),
            (IsHost-name p.before name, tt),
          ),
        )
      ]

  all_three :
      (r : Result Bool) (b b' : Bool)
      → (r >>= λ fits. ok (fits && b && b')) ≡ ok true
      → (r ≡ ok true) × ((b ≡ true) × (b' ≡ true))
  all_three (raise e) b b' h = cc h
  all_three (ok true) true b' h = (refl, (refl, ok-injective h))
  all_three (ok true) false b' h = cc h
  all_three (ok false) b b' h = cc h

  bracketed :
      (rest : Text) (j : ℕ)
      → find_char b']' rest ≡ some j
      → valid_ipv6 u (b'[' ∷ rest) (some (suc j)) ≡ ok true
      → IsAuthority u (b'[' ∷ rest)
  unfolding valid_ipv6
  bracketed rest j f =
      if_keeps (λ (r : Result Bool). r ≡ ok true → IsAuthority u (b'[' ∷ rest)) (ltb (suc j) 2)
        (λ q h. cc h)
        (λ q h.
          let (fits, (some_host, chars)) =
            all_three (valid_ipv6_port u (drop (suc j + 1) (b'[' ∷ rest)))
              (not (is_empty (take (suc j - 1) rest))) (all is_ipv6_char (take (suc j - 1) rest))
              h in
          let tail_is = ap (λ n. drop n (b'[' ∷ rest)) (one_more j) in
          let host_is = ap (λ n. take n rest) (one_less j) in
          inr (
            take j rest,
            drop (suc j) rest,
            (
              ap (λ t. b'[' ∷ t) (found_char b']' j rest f),
              (
                subst (λ t. is_empty t ≡ false) host_is (ground (arith, some_host)),
                (
                  all-All is_ipv6_char IsIpv6Char (take j rest) ipv6_char
                      (subst (λ t. all is_ipv6_char t ≡ true) host_is chars),
                  tail_read (drop (suc j) rest)
                      (subst (λ t. valid_ipv6_port u t ≡ ok true) tail_is fits),
                ),
              ),
            ),
          ))

  from_bracket :
      (rest : Text) (o : Option ℕ)
      → find_char b']' rest ≡ o
      → valid_ipv6 u (b'[' ∷ rest) (elim o [ none ↦ none | some i ↦ some (suc i) ]) ≡ ok true
      → IsAuthority u (b'[' ∷ rest)
  unfolding valid_ipv6
  from_bracket rest none f h = cc h
  from_bracket rest (some j) f h = bracketed rest j f h

  ipv6-IsAuthority :
      (a : Text)
      → starts_with (codes "[") a ≡ true
      → valid_ipv6 u a (find_char b']' a) ≡ ok true
      → IsAuthority u a
  unfolding starts_with
  ipv6-IsAuthority [] q h = cc q
  ipv6-IsAuthority (c ∷ rest) q h =
      let first : 91 ≡ c = (==_iff 91 c).0 (ground (arith, q)) in
      subst
        (λ c.
          valid_ipv6 u (c ∷ rest) (find_char b']' (c ∷ rest)) ≡ ok true → IsAuthority u (c ∷ rest))
        first (from_bracket rest (find_char b']' rest) refl) h

  -- Whatever _valid_authority accepts is a host name, whose characters are letters, digits, dots and
  -- hyphens and which starts and ends with a letter or a digit, or an IPv6 literal in brackets, and
  -- then nothing or a colon and a port from 1 to 65535.
  pub valid_authority-IsAuthority : (a : Text) → valid_authority u a ≡ ok true → IsAuthority u a
  unfolding valid_authority
  valid_authority-IsAuthority a =
      if_keeps (λ (r : Result Bool). r ≡ ok true → IsAuthority u a) (starts_with (codes "[") a)
        (λ q h. ipv6-IsAuthority a q h) (λ q h. valid_host-IsAuthority a h)
