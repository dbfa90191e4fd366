-- ===== src/Config/Address/Shape.antt =====
-- The form of the addresses that normalise_server_url of config.py gives.
use visiontak_client.Prelude.{
  ◌≡◌, ◌∙◌, ◌∷◌, ap, text_eq, text_eq_iff, Bool-cases, refl, Bool, true, false, not, ◌||◌, [], Text,
  codes, ◌++◌, ◌⊎◌, inl, inr, arith, if_keeps, contains, is_empty, sym, if◌then◌else◌,
}
use visiontak_client.Python.{Unicode, Result, ok, raise, ◌>>=◌, strip, ok-injective}
use visiontak_client.Config.Address.{
  assemble, normalise_server_url, valid_authority, authority_of, http_schemes, partition,
}
use visiontak_client.Config.Address.Authority.{
  IsAuthority, valid_authority-IsAuthority, found_parts, no_parts, append_nil,
}

-- Nothing, or what a slash starts.
abbrev pub IsPath : Text → Type 0
IsPath [] = Unit
IsPath (c ∷ s) = c ≡ 47

module _ (u : Unicode) where
  -- The scheme http or https, "://", an authority, and then nothing or a path.
  abbrev pub IsAddress : Text → Type 0
  IsAddress url =
      (scheme authority path : Text) × ((url ≡ scheme ++ codes "://" ++ (authority ++ path))
        × (((scheme ≡ codes "http") ⊎ (scheme ≡ codes "https"))
            × (IsAuthority u authority × IsPath path)))

  listed :
      (scheme : Text)
      → contains scheme (http_schemes u) ≡ true
      → (scheme ≡ codes "http") ⊎ (scheme ≡ codes "https")
  unfolding contains
  listed scheme e = elim (Bool-cases (text_eq (codes "http") scheme)) [
    | inl q ↦ inl (sym ((text_eq_iff (codes "http") scheme).0 q))
    | inr q ↦ inr (sym ((text_eq_iff (codes "https") scheme).0 (ground (arith, e, q))))
  ]

  split_rest : (rest : Text) → (path : Text) × ((rest ≡ authority_of u rest ++ path) × IsPath path)
  split_rest rest = elim (Bool-cases (partition (codes "/") rest).found) [
    | inl f ↦ (47 ∷ (partition (codes "/") rest).after, (found_parts (codes "/") rest f, refl))
    | inr f ↦ ([], (sym (no_parts (codes "/") rest f) ∙ sym (append_nil (authority_of u rest)), tt))
  ]

  address :
      (scheme rest url : Text)
      → contains scheme (http_schemes u) ≡ true
      → valid_authority u (authority_of u rest) ≡ ok true
      → url ≡ scheme ++ codes "://" ++ rest
      → IsAddress url
  address scheme rest url s v e =
      let (path, (whole, h)) = split_rest rest in
      (
        scheme,
        authority_of u rest,
        path,
        (
          e ∙ ap (λ r. scheme ++ codes "://" ++ r) whole,
          (listed scheme s, (valid_authority-IsAuthority u (authority_of u rest) v, h)),
        ),
      )

  authorised :
      (scheme rest url : Text) (r : Result Bool)
      → valid_authority u (authority_of u rest) ≡ r
      → contains scheme (http_schemes u) ≡ true
      → is_empty rest ≡ false
      → (r >>= λ valid. if valid then ok (scheme ++ codes "://" ++ rest) else ok []) ≡ ok url
      → (url ≡ []) ⊎ IsAddress url
  authorised scheme rest url (raise q) v s f e = cc e
  authorised scheme rest url (ok true) v s f e =
      inr (address scheme rest url s v (sym (ok-injective e)))
  authorised scheme rest url (ok false) v s f e = inl (sym (ok-injective e))

  assembled :
      (scheme rest url : Text) → assemble u scheme rest ≡ ok url → (url ≡ []) ⊎ IsAddress url
  unfolding assemble
  assembled scheme rest url =
      if_keeps (λ (r : Result Text). r ≡ ok url → (url ≡ []) ⊎ IsAddress url)
        (not (contains scheme (http_schemes u)) || is_empty rest)
        (λ t e. inl (sym (ok-injective e)))
        (λ t e.
          authorised scheme rest url (valid_authority u (authority_of u rest)) refl
            (ground (arith, t)) (ground (arith, t)) e)

  -- When normalise_server_url returns an address, it is empty, or it is http or https, "://", a host
  -- name of letters, digits, dots and hyphens that starts and ends with a letter or a digit, or an IPv6
  -- literal in brackets, then no port or one from 1 to 65535, and then nothing or a slash and a path.
  pub normalise_server_url-IsAddress :
      (raw url : Text) → normalise_server_url u raw ≡ ok url → (url ≡ []) ⊎ IsAddress url
  unfolding normalise_server_url
  normalise_server_url-IsAddress raw url =
      if_keeps (λ (r : Result Text). r ≡ ok url → (url ≡ []) ⊎ IsAddress url) (is_empty (strip raw))
        (λ t e. inl (sym (ok-injective e))) (λ t. assembled _ _ url)
