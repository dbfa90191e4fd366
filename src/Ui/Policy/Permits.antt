-- ===== src/Ui/Policy/Permits.antt =====
-- What the allowlist of ui/policy.py permits, and that it only ever grows.
use visiontak_client.Prelude.{
  ℕ, zero, suc, ◌≡◌, refl, ap, ◌↔◌, ◌⊎◌, inl, inr, Bool, true, false, ◌||◌, Option, some, List, [],
  ◌∷◌, ◌++◌, Text, codes, text_eq, text_eq_iff, text_eq_refl, arith, if◌then◌else◌, if_keeps,
  is_empty, get_elem?, contains, insert, contains-insert, Bool-cases, Option-cases,
}
use visiontak_client.Python.{Unicode, strip}
use visiontak_client.Platform.{Platform}
use visiontak_client.Models.{Dashboard}
use visiontak_client.Ui.Window.Show.{allow_dashboards}
use visiontak_client.Ui.Policy.{
  HostAllowlist, has_slashes, host_of, ends_with, any_host, always_allowed_schemes, allow, permits,
}

-- A host is a host itself, or below it.
pub data IsWithin (host allowed : Text) : Type 0 where
  same : host ≡ allowed → IsWithin host allowed
  below : (name : Text) → host ≡ name ++ b'.' ∷ allowed → IsWithin host allowed

ends_with-append : (t s : Text) → ends_with t s ≡ true → (front : Text) × (s ≡ front ++ t)
unfolding ends_with
ends_with-append t [] h = ([], (text_eq_iff [] t).0 h)
ends_with-append t (c ∷ s) h = elim (Bool-cases (text_eq (c ∷ s) t)) [
  | inl e ↦ ([], (text_eq_iff (c ∷ s) t).0 e)
  | inr e ↦ let (front, q) = ends_with-append t s (ground arith) in (c ∷ front, ap (◌∷◌ c) q)
]

append-ends_with : (t front : Text) → ends_with t (front ++ t) ≡ true
unfolding ends_with
append-ends_with [] [] = text_eq_refl []
append-ends_with (c ∷ t) [] = ground (arith, text_eq_refl (c ∷ t))
append-ends_with t (c ∷ front) = ground (arith, append-ends_with t front)

-- The test of one allowed host.
one_host : (host allowed : Text) → Bool
one_host host allowed = text_eq host allowed || ends_with (b'.' ∷ allowed) host

one_host→IsWithin : (host allowed : Text) → one_host host allowed ≡ true → IsWithin host allowed
unfolding one_host
one_host→IsWithin host allowed h = elim (Bool-cases (text_eq host allowed)) [
  | inl e ↦ same ((text_eq_iff host allowed).0 e)
  | inr e ↦ let (name, q) = ends_with-append (b'.' ∷ allowed) host (ground arith) in below name q
]

IsWithin→one_host : (host allowed : Text) → IsWithin host allowed → one_host host allowed ≡ true
unfolding one_host
IsWithin→one_host host allowed (same e) = ground (arith, text_eq_iff host allowed)
IsWithin→one_host host allowed (below name e) =
    let q : ends_with (b'.' ∷ allowed) host ≡ true =
      rw e (append-ends_with (b'.' ∷ allowed) name) in
    ground arith

any_host→IsWithin :
    (host : Text) (hosts : List Text)
    → any_host host hosts ≡ true
    → (a : Text) × (contains a hosts ≡ true) × IsWithin host a
unfolding any_host contains
any_host→IsWithin host [] h = cc h
any_host→IsWithin host (a ∷ hosts) h = elim (Bool-cases (one_host host a)) [
  | inl e ↦ (a, ground (arith, text_eq_refl a), one_host→IsWithin host a e)
  | inr e ↦
      let (b, c, q) = any_host→IsWithin host hosts (unfold one_host in ground arith) in
      (b, ground arith, q)
]

IsWithin→any_host :
    (host a : Text) (hosts : List Text)
    → contains a hosts ≡ true
    → IsWithin host a
    → any_host host hosts ≡ true
unfolding any_host contains
IsWithin→any_host host a [] c q = cc c
IsWithin→any_host host a (b ∷ hosts) c q = elim (Bool-cases (text_eq b a)) [
  | inl e ↦
      let is = (text_eq_iff b a).0 e in
      let yes_b : one_host host b ≡ true = rw is (IsWithin→one_host host a q) in
      unfold one_host in ground arith
  | inr e ↦ ground (arith, IsWithin→any_host host a hosts (ground arith) q)
]

module _ (u : Unicode) (p : Platform) where
  -- On an allowlist without the wildcard, an address of another scheme than about, data and blob is
  -- permitted exactly when it has a host and the host is an allowed one or below an allowed one.
  pub permits_iff :
      (a : HostAllowlist) (url : Text)
      → contains (p.urlparse url).scheme always_allowed_schemes ≡ false
      → a.allow_any ≡ false
      → (permits u p a url ≡ true) ↔ (
          (is_empty (host_of u (p.urlparse url)) ≡ false)
          × ((h : Text) × (contains h a.hosts ≡ true) × IsWithin (host_of u (p.urlparse url)) h))
  unfolding permits
  permits_iff a url s n = (
    λ e.
        let host = host_of u (p.urlparse url) in
        (ground arith, any_host→IsWithin host a.hosts (ground arith)),
    λ (full, (h, c, q)).
        let found = IsWithin→any_host (host_of u (p.urlparse url)) h a.hosts c q in ground arith,
  )

  -- The host that `allow` reads from an address.
  abbrev parsed_host : Text → Option Text
  parsed_host x = (p.urlparse (if has_slashes x then x else codes "//" ++ x)).hostname

  -- The three outcomes of `allow`.
  allow_keeps :
      (P : HostAllowlist → Type 0) (x : Text) (a : HostAllowlist)
      → (text_eq (strip x) (codes "*") ≡ true → P (record a { allow_any = true }))
      → P a
      → ((h : Text)
          → parsed_host x ≡ some h
          → is_empty h ≡ false
          → P (record a { hosts = insert (u.lower h) a.hosts }))
      → P (allow u p x a)
  unfolding allow
  allow_keeps P x a wild none_found found = if_keeps P (text_eq (strip x) (codes "*")) wild (λ e.
      elim (Option-cases (parsed_host x)) [
        | inl q ↦ rw q none_found
        | inr (h, q) ↦ rw q (if_keeps P (is_empty h) (λ k. none_found) (λ k. found h q k))
      ])

  hosts-allow_mono :
      (x : Text) (a : HostAllowlist) (h : Text)
      → contains h a.hosts ≡ true
      → contains h (allow u p x a).hosts ≡ true
  hosts-allow_mono x a h c =
      allow_keeps (λ b. contains h b.hosts ≡ true) x a (λ e. c) c
        (λ g q k. ground (arith, contains-insert (u.lower g) h a.hosts))

  any-allow_mono :
      (x : Text) (a : HostAllowlist) → a.allow_any ≡ true → (allow u p x a).allow_any ≡ true
  any-allow_mono x a e = allow_keeps (λ b. b.allow_any ≡ true) x a (λ w. refl) e (λ g q k. e)

  any_host-allow_mono :
      (x host : Text) (a : HostAllowlist)
      → any_host host a.hosts ≡ true
      → any_host host (allow u p x a).hosts ≡ true
  any_host-allow_mono x host a e =
      let (h, c, q) = any_host→IsWithin host a.hosts e in
      IsWithin→any_host host h (allow u p x a).hosts (hosts-allow_mono x a h c) q

  -- What is permitted stays permitted when another address is allowed.
  pub permits-allow :
      (x url : Text) (a : HostAllowlist)
      → permits u p a url ≡ true
      → permits u p (allow u p x a) url ≡ true
  unfolding permits
  permits-allow x url a e =
      ground (arith, any-allow_mono x a, any_host-allow_mono x (host_of u (p.urlparse url)) a)

  -- An address with a host leaves the wildcard or its host behind.
  allow_self :
      (url h : Text) (a : HostAllowlist)
      → has_slashes url ≡ true
      → (p.urlparse url).hostname ≡ some h
      → is_empty h ≡ false
      → ((allow u p url a).allow_any ≡ true) ⊎ (contains (u.lower h) (allow u p url a).hosts ≡ true)
  unfolding allow
  allow_self url h a s e k = elim (Bool-cases (text_eq (strip url) (codes "*"))) [
    | inl w ↦ inl (rw (w, allow) refl)
    | inr w ↦ inr (
        rw (w, s, e, k, allow)
          (rw (contains-insert (u.lower h) (u.lower h) a.hosts, text_eq_refl (u.lower h)) refl))
  ]

  -- The host that is allowed is permitted.
  permits-allow_self :
      (url h : Text) (a : HostAllowlist)
      → has_slashes url ≡ true
      → (p.urlparse url).hostname ≡ some h
      → is_empty h ≡ false
      → is_empty (u.lower h) ≡ false
      → permits u p (allow u p url a) url ≡ true
  unfolding permits host_of
  permits-allow_self url h a s e k l = rw e (elim (allow_self url h a s e k) [
    | inl w ↦ rw w (ground arith)
    | inr c ↦
        let found =
          IsWithin→any_host (u.lower h) (u.lower h) (allow u p url a).hosts c (same refl) in
        ground arith
  ])

  permits-allow_dashboards :
      (url : Text) (ds : List Dashboard) (a : HostAllowlist)
      → permits u p a url ≡ true
      → permits u p (allow_dashboards u p ds a) url ≡ true
  unfolding allow_dashboards
  permits-allow_dashboards url [] a e = e
  permits-allow_dashboards url (d ∷ ds) a e =
      permits-allow_dashboards url ds (allow u p d.url a) (permits-allow d.url url a e)

  -- Once set_dashboards has gone through a list, the page of each dashboard of it may be loaded,
  -- whatever was allowed before, provided its address has "//" and a host that is not empty, in lower
  -- case either.
  pub permits_listed :
      (ds : List Dashboard) (i : ℕ) (d : Dashboard) (h : Text) (a : HostAllowlist)
      → get_elem? ds i ≡ some d
      → has_slashes d.url ≡ true
      → (p.urlparse d.url).hostname ≡ some h
      → is_empty h ≡ false
      → is_empty (u.lower h) ≡ false
      → permits u p (allow_dashboards u p ds a) d.url ≡ true
  unfolding allow_dashboards
  permits_listed [] i d h a q s e k l = cc q
  permits_listed (x ∷ ds) zero d h a q s e k l =
      let is : x ≡ d = ground arith in
      rw is (
        permits-allow_dashboards d.url ds (allow u p d.url a)
          (permits-allow_self d.url h a s e k l))
  permits_listed (x ∷ ds) (suc i) d h a q s e k l =
      permits_listed ds i d h (allow u p x.url a) q s e k l
