-- ===== src/Config/Load/Precedence.antt =====
-- The precedence of load in config.py.
use visiontak_client.Prelude.{
  ◌≡◌, refl, arith, true, false, Option, none, some, List, [], ◌∷◌, Text, ℤ, codes, lookup, assign,
  has_key, contains, text_eq, text_eq_iff, text_eq_refl, if_keeps, Bool-cases, inl, inr,
  lookup-assign_self, lookup-assign_ne, has_key_of_lookup, Distinct, keys, ◌∙◌, sym, ◌≢◌, ap, ltb_ℤ,
  not, if◌then◌else◌,
}
use mathlib.Core.Path.{subst}
use visiontak_client.Python.{Unicode, Result, ok, raise, ◌>>=◌, Result-cases, ok-injective}
use visiontak_client.Json.{Json, Fields, str, obj, get}
use visiontak_client.Config.Load.{
  update, set_default, memory_profile, from_fields, from_mapping, with_entry, is_blank, entry,
  field_names, low_memory_mib, high_memory_mib, collect, env_key, environ_fields, or_ignored,
  or_refused, read_file,
}

-- What `or` makes of two answers: the first that there is.
abbrev pub first_of {ℓ} : {A : Type ℓ} → Option A → Option A → Option A
first_of none o = o
first_of (some a) o = some a

-- A value that is there and is neither null nor the empty text.
abbrev pub given : Option Json → Option Json
given none = none
given (some j) = if is_blank j then none else some j

absent : (k : Text) (d : List (Text × Json)) → has_key k d ≡ false → lookup k d ≡ none
unfolding lookup contains
absent k [] h = refl
absent k (e ∷ d) h = ground (arith, absent k d)

pub lookup-update :
    (k : Text) (values new : List (Text × Json))
    → Distinct (keys new)
    → lookup k (update values new) ≡ first_of (lookup k new) (lookup k values)
unfolding update lookup
lookup-update k values [] h = refl
lookup-update k values ((j, v) ∷ new) h =
    let rest = lookup-update k (assign j v values) new h.1 in
    elim (Bool-cases (text_eq j k)) [
      | inl e ↦
          let same : j ≡ k = (text_eq_iff j k).0 e in
          let gone : lookup k new ≡ none =
            absent k new (ap (λ t. contains t (keys new)) (sym same) ∙ h.0) in
          let self : lookup k (assign j v values) ≡ some v =
            ap (λ t. lookup t (assign j v values)) (sym same) ∙ lookup-assign_self j v values in
          rw e (rw (gone, self) at rest)
      | inr e ↦
          let other : j ≢ k = λ q. cc (sym e ∙ (text_eq_iff j k).1 q) in
          rw e (rw (lookup-assign_ne j k v values other) at rest)
    ]

-- A default does not replace what is there.
lookup-set_default :
    (k j : Text) (d v : Json) (values : List (Text × Json))
    → lookup k values ≡ some v
    → lookup k (set_default j d values) ≡ some v
unfolding set_default
lookup-set_default k j d v values h =
    if_keeps (λ l. lookup k l ≡ some v) (has_key j values) (λ e. h)
      (λ e.
        lookup-assign_ne j k d values
          (λ q. cc (sym e ∙ ap (λ t. has_key t values) q ∙ has_key_of_lookup k values v h))
        ∙ h)

lookup-memory_profile :
    (k : Text) (m : Option ℤ) (v : Json) (values : List (Text × Json))
    → lookup k values ≡ some v
    → lookup k (memory_profile m values) ≡ some v
unfolding memory_profile
lookup-memory_profile k none v values h = h
lookup-memory_profile k (some mib) v values h =
    let P = λ (l : List (Text × Json)). lookup k l ≡ some v in
    if_keeps P (ltb_ℤ mib low_memory_mib)
      (λ e. lookup-set_default k _ _ v _ (lookup-set_default k _ _ v values h))
      (λ e.
        if_keeps P (not (ltb_ℤ mib high_memory_mib)) (λ q. lookup-set_default k _ _ v values h)
          (λ q. h))

lookup-with_entry :
    (name n : Text) (o : Option Json) (out : List (Text × Json))
    → text_eq n name ≡ false
    → lookup name (with_entry n o out) ≡ lookup name out
unfolding lookup
lookup-with_entry name n none out e = refl
lookup-with_entry name n (some j) out e =
    if_keeps (λ l. lookup name l ≡ lookup name out) (is_blank j) (λ b. refl) (λ b. rw e refl)

given-with_entry :
    (name : Text) (o : Option Json) (v : Json) (out : List (Text × Json))
    → given o ≡ some v
    → lookup name (with_entry name o out) ≡ some v
unfolding lookup
given-with_entry name none v out h = cc h
given-with_entry name (some j) v out h = elim (Bool-cases (is_blank j)) [
  | inl b ↦ cc (rw b at h)
  | inr b ↦ rw (b, text_eq_refl name) (rw b at h)
]

-- The part of _from_mapping after an entry of a dict is read.
pub lookup-from_fields :
    (key : Text → Text) (fs : Fields) (name : Text) (v : Json) (names : List Text)
    (out : List (Text × Json))
    → from_fields key (obj fs) names ≡ ok out
    → contains name names ≡ true
    → given (get (key name) fs) ≡ some v
    → lookup name out ≡ some v
unfolding from_fields entry contains
lookup-from_fields key fs name v [] out e c g = cc c
lookup-from_fields key fs name v (n ∷ names) out e c g =
    elim (Result-cases (from_fields key (obj fs) names)) [
      | inr (x, q) ↦ cc (rw q at e)
      | inl (rest, q) ↦
          let is = ok-injective (rw q at e) in
          elim (Bool-cases (text_eq n name)) [
            | inl t ↦
                let same = (text_eq_iff n name).0 t in
                subst (λ l. lookup name l ≡ some v) is
                  (subst (λ m. lookup name (with_entry m (get (key m) fs) rest) ≡ some v) (sym same)
                    (given-with_entry name (get (key name) fs) v rest g))
            | inr t ↦
                subst (λ l. lookup name l ≡ some v) is
                  (lookup-with_entry name n (get (key n) fs) rest t
                    ∙ lookup-from_fields key fs name v names rest q (rw t at c) g)
          ]
    ]

absent-with_entry :
    (k n : Text) (o : Option Json) (out : List (Text × Json))
    → text_eq n k ≡ false
    → has_key k out ≡ false
    → has_key k (with_entry n o out) ≡ false
unfolding contains
absent-with_entry k n none out t h = h
absent-with_entry k n (some j) out t h =
    if_keeps (λ l. has_key k l ≡ false) (is_blank j) {y = (n, j) ∷ out} (λ b. h)
      (λ b. rw (t, h) refl)

absent-from_fields :
    (key : Text → Text) (fs : Fields) (k : Text) (names : List Text) (out : List (Text × Json))
    → from_fields key (obj fs) names ≡ ok out
    → contains k names ≡ false
    → has_key k out ≡ false
unfolding from_fields entry contains
absent-from_fields key fs k [] out e c = ap (has_key k) (sym (ok-injective e))
absent-from_fields key fs k (n ∷ names) out e c =
    elim (Result-cases (from_fields key (obj fs) names)) [
      | inr (x, q) ↦ cc (rw q at e)
      | inl (rest, q) ↦
          subst (λ l. has_key k l ≡ false) (ok-injective (rw q at e))
            (absent-with_entry k n (get (key n) fs) rest (ground (arith, c))
              (absent-from_fields key fs k names rest q (ground (arith, c))))
    ]

Distinct-with_entry :
    (n : Text) (o : Option Json) (out : List (Text × Json))
    → has_key n out ≡ false
    → Distinct (keys out)
    → Distinct (keys (with_entry n o out))
Distinct-with_entry n none out h d = d
Distinct-with_entry n (some j) out h d =
    if_keeps (λ l. Distinct (keys l)) (is_blank j) (λ b. d) (λ b. (h, d))

Distinct-from_fields :
    (key : Text → Text) (fs : Fields) (names : List Text) (out : List (Text × Json))
    → Distinct names
    → from_fields key (obj fs) names ≡ ok out
    → Distinct (keys out)
unfolding from_fields entry
Distinct-from_fields key fs [] out d e = subst (λ l. Distinct (keys l)) (ok-injective e) tt
Distinct-from_fields key fs (n ∷ names) out d e =
    elim (Result-cases (from_fields key (obj fs) names)) [
      | inr (x, q) ↦ cc (rw q at e)
      | inl (rest, q) ↦
          subst (λ l. Distinct (keys l)) (ok-injective (rw q at e))
            (Distinct-with_entry n (get (key n) fs) rest
              (absent-from_fields key fs n names rest q d.0)
              (Distinct-from_fields key fs names rest d.1 q))
    ]

field_names-Distinct : Distinct field_names
unfolding contains text_eq
field_names-Distinct = (
  refl,
  (
    refl,
    (
      refl,
      (
        refl,
        (refl, (refl, (refl, (refl, (refl, (refl, (refl, (refl, (refl, (refl, (refl, tt))))))))))),
      ),
    ),
  ),
)

lookup-first_of :
    (k : Text) (v : Json) (new values : List (Text × Json))
    → Distinct (keys new)
    → lookup k new ≡ some v
    → lookup k (update values new) ≡ some v
lookup-first_of k v new values d h =
    lookup-update k values new d ∙ ap (λ o. first_of o (lookup k values)) h

module _ (u : Unicode) (repr : Json → Text) (loads : Text → Result Json) where
  collected :
      (name : Text) (v : Json) (state config : Result (List (Text × Json)))
      (environ : List (Text × Text)) (hostname : Text) (memory : Option ℤ)
      (env : Result (List (Text × Json))) (values : List (Text × Json))
      → from_mapping env_key (obj (environ_fields environ)) ≡ env
      → contains name field_names ≡ true
      → given (get (env_key name) (environ_fields environ)) ≡ some v
      → (state >>= λ s. config >>= λ c. env >>= λ e. ok (
          memory_profile memory
            (set_default (codes "device_id") (str hostname) (update (update s c) e))))
        ≡ ok values
      → lookup name values ≡ some v
  unfolding from_mapping
  collected name v (raise x) config environ hostname memory env values m n g e = cc e
  collected name v (ok s) (raise x) environ hostname memory env values m n g e = cc e
  collected name v (ok s) (ok c) environ hostname memory (raise x) values m n g e = cc e
  collected name v (ok s) (ok c) environ hostname memory (ok env) values m n g e =
      let fs = environ_fields environ in
      subst (λ l. lookup name l ≡ some v) (ok-injective e)
        (lookup-memory_profile name memory v _ (
          lookup-set_default name (codes "device_id") (str hostname) v _ (
            lookup-first_of name v env (update s c)
              (Distinct-from_fields env_key fs field_names env field_names-Distinct m)
              (lookup-from_fields env_key fs name v field_names env m n g))))

  -- A setting that the environment gives, and gives no empty text for, is what load takes for its
  -- field, whatever the two files, the host name and the memory of the board say.
  pub lookup-collect_env :
      (name : Text) (v : Json) (state_file config_file : Option Text) (environ : List (Text × Text))
      (hostname : Text) (memory : Option ℤ) (values : List (Text × Json))
      → contains name field_names ≡ true
      → given (get (env_key name) (environ_fields environ)) ≡ some v
      → collect u repr loads state_file config_file environ hostname memory ≡ ok values
      → lookup name values ≡ some v
  unfolding collect
  lookup-collect_env name v state_file config_file environ hostname memory values n g e =
      collected name v (or_ignored (read_file u repr loads state_file))
        (or_refused (read_file u repr loads config_file)) environ hostname memory
        (from_mapping env_key (obj (environ_fields environ))) values refl n g e
