-- ===== src/Ui/Pool/Recency.antt =====
-- The order of the live views (ui/kiosk_window.py, _view_order) is the list of the ids last shown.
use visiontak_client.Prelude.{
  ℕ, zero, suc, ◌+◌, ◌≤◌, ◌≡◌, refl, true, false, Option, none, some, List, [], ◌∷◌, ◌++◌, Text,
  text_eq_iff, text_eq_refl, ℤ, arith, leb, leb→le, if◌then◌else◌, length, length-append, contains,
  remove, keys, lookup, has_key, Distinct, length-remove, length-keys, has_key_of_lookup,
  Distinct-remove, not_has_key_of_lookup, remove_absent, Option-cases, Bool-cases, inl, inr, ap,
  ◌⊎◌, ◌∙◌, sym,
}
use visiontak_client.Models.{Dashboard}
use visiontak_client.Ui.Pool.{
  Pool, View, release_view, touch, is_current, find_victim, evict, live_limit, add_view, view_for,
}
use visiontak_client.Ui.Pool.Shape.{IsValid, contains-remove, registered, registered-IsValid}
use visiontak_client.Ui.Pool.Eviction.{live_limit-pos, views-release_view, length-without}

-- The last `n` elements.
abbrev pub keep_last {ℓ} : {A : Type ℓ} → ℕ → List A → List A
keep_last n [] = []
keep_last n (x ∷ l) = if leb (length (x ∷ l)) n then x ∷ l else keep_last n l

-- Distinct lists with the same members are of one length.
length-eq :
    (l m : List Text)
    → Distinct l
    → Distinct m
    → ((k : Text) → contains k l ≡ contains k m)
    → length l ≡ length m
unfolding contains
length-eq [] [] dl dm h = refl
length-eq [] (x ∷ m) dl dm h = cc (h x, text_eq_refl x)
length-eq (x ∷ l) m dl dm h =
    let there : contains x m ≡ true = ground (arith, h x, text_eq_refl x) in
    let rest =
      length-eq l (remove x m) dl.1 (Distinct-remove x m dm)
        (λ k. ground (arith, h k, contains-remove x k m dm, text_eq_iff x k, dl.0)) in
    omega (arith, rest, length-remove x m there)

length-order : (p : Pool) → IsValid p → length p.view_order ≡ length p.views
length-order p h =
    length-eq p.view_order (keys p.views) h.order_distinct h.keys_distinct h.same
    ∙ length-keys p.views

evict_fits :
    (fuel limit : ℕ) (cur : Option Text) (p : Pool)
    → length p.views ≤ limit
    → evict fuel limit cur p ≡ p
unfolding evict
evict_fits zero limit cur p h = refl
evict_fits (suc fuel) limit cur p h = ground arith

find_victim_first :
    (cur : Option Text) (x : Text) (order rest : List Text) (views : List (Text × View))
    → order ≡ x ∷ rest
    → is_current cur x ≡ false
    → has_key x views ≡ true
    → find_victim cur order views ≡ some x
unfolding find_victim
find_victim_first cur x order rest views e c v = rw e (ground arith)

order-release_view :
    (x : Text) (p : Pool)
    → has_key x p.views ≡ true
    → (release_view x p).view_order ≡ remove x p.view_order
unfolding release_view
order-release_view x p h = elim (Option-cases (lookup x p.views)) [
  | inl e ↦ cc (h, not_has_key_of_lookup x p.views e)
  | inr (v, e) ↦ rw (e, release_view) (ground (arith, remove_absent x p.view_order))
]

remove_first : (x : Text) (order rest : List Text) → order ≡ x ∷ rest → remove x order ≡ rest
unfolding remove
remove_first x order rest e = rw e (ground (arith, text_eq_refl x))

-- One view too many: the loop drops the first of the order, which is not the current view.
evict_one :
    (fuel limit : ℕ) (cur : Option Text) (p : Pool) (x : Text) (rest : List Text)
    → p.view_order ≡ x ∷ rest
    → is_current cur x ≡ false
    → has_key x p.views ≡ true
    → length p.views ≡ suc limit
    → (evict (suc fuel) limit cur p).view_order ≡ rest
unfolding evict
evict_one fuel limit cur p x rest e c v n =
    let full : leb (length p.views) limit ≡ false = ground arith in
    rw (full, find_victim_first cur x p.view_order rest p.views e c v)
      (let fits : length (release_view x p).views ≤ limit =
          rw (views-release_view x p v) (omega (arith, length-without x p.views v)) in
        rw (evict_fits fuel limit cur (release_view x p) fits, order-release_view x p v)
          (remove_first x p.view_order rest e))

keep_last_all {ℓ} : {A : Type ℓ} (n : ℕ) (l : List A) → length l ≤ n → keep_last n l ≡ l
keep_last_all n [] h = refl
keep_last_all n (x ∷ l) h = ground arith

keep_last_tail {ℓ} :
    {A : Type ℓ} (n : ℕ) (x : A) (l : List A) → length l ≡ n → keep_last n (x ∷ l) ≡ l
keep_last_tail n x l h = ground (arith, keep_last_all n l)

List-cases : (l : List Text) → (l ≡ []) ⊎ ((x : Text) × (rest : List Text) × (l ≡ x ∷ rest))
List-cases [] = inl refl
List-cases (x ∷ rest) = inr (x, rest, refl)

length-swap :
    (x y : Text) (rest l : List Text) (n : ℕ)
    → l ≡ x ∷ rest
    → length l ≡ n
    → length (rest ++ y ∷ []) ≡ n
length-swap x y rest l n o e = omega (arith, ap length o, length-append rest (y ∷ []))

module _ (limit : ℕ) (d : Dashboard) (p : Pool) (valid : IsValid p)
    (few : length p.views ≤ limit) where
  absent : lookup d.id p.views ≡ none → contains d.id p.view_order ≡ false
  absent e = valid.same d.id ∙ not_has_key_of_lookup d.id p.views e

  order-registered :
      lookup d.id p.views ≡ none → (registered d p).view_order ≡ p.view_order ++ d.id ∷ []
  unfolding touch add_view
  order-registered e = rw (absent e) refl

  length-registered :
      lookup d.id p.views ≡ none → length (registered d p).views ≡ length p.view_order + 1
  length-registered e =
      sym (length-order (registered d p) (registered-IsValid d p e valid))
      ∙ ap length (order-registered e)
      ∙ length-append p.view_order (d.id ∷ [])

  registered_fits :
      (fuel : ℕ)
      → lookup d.id p.views ≡ none
      → length p.view_order + 1 ≤ limit
      → (evict fuel limit (some d.id) (registered d p)).view_order
        ≡ keep_last limit (remove d.id p.view_order ++ d.id ∷ [])
  registered_fits fuel e n =
      rw (evict_fits fuel limit (some d.id) (registered d p) (omega (arith, length-registered e))) (
        rw (order-registered e, remove_absent d.id p.view_order (absent e))
          (sym (
            keep_last_all limit (p.view_order ++ d.id ∷ [])
              (omega (arith, length-append p.view_order (d.id ∷ []))))))

  -- The first of a full order is another view, alive also beside the new one.
  first_other :
      (x : Text) (rest : List Text)
      → lookup d.id p.views ≡ none
      → p.view_order ≡ x ∷ rest
      → (is_current (some d.id) x ≡ false) × (has_key x (registered d p).views ≡ true)
  unfolding is_current contains
  first_other x rest e o =
      let out : contains d.id (x ∷ rest) ≡ false = sym (ap (contains d.id) o) ∙ absent e in
      let same = (registered-IsValid d p e valid).same x in
      let order : (registered d p).view_order ≡ (x ∷ rest) ++ d.id ∷ [] =
        rw (order-registered e, o) refl in
      (ground arith, rw (← same, order) (ground (arith, text_eq_refl x)))

  registered_full :
      (fuel : ℕ)
      → lookup d.id p.views ≡ none
      → length p.view_order ≡ limit
      → 1 ≤ limit
      → (evict (suc fuel) limit (some d.id) (registered d p)).view_order
        ≡ keep_last limit (remove d.id p.view_order ++ d.id ∷ [])
  registered_full fuel e n one = elim (List-cases p.view_order) [
    | inl o ↦ absurd (omega (arith, ap length o))
    | inr (x, rest, o) ↦
        let other = first_other x rest e o in
        let m = length-swap x d.id rest p.view_order limit o n in
        evict_one fuel limit (some d.id) (registered d p) x (rest ++ d.id ∷ [])
          (order-registered e ∙ ap (λ l. l ++ d.id ∷ []) o) other.0 other.1
          (omega (arith, length-registered e))
        ∙ sym (
            rw (remove_absent d.id p.view_order (absent e), o)
              (keep_last_tail limit x (rest ++ d.id ∷ []) m))
  ]

  registered_order :
      (fuel : ℕ)
      → lookup d.id p.views ≡ none
      → 1 ≤ limit
      → fuel ≡ length p.view_order + 1
      → (evict fuel limit (some d.id) (registered d p)).view_order
        ≡ keep_last limit (remove d.id p.view_order ++ d.id ∷ [])
  registered_order zero e one f = absurd (omega arith)
  registered_order (suc fuel) e one f = elim (Bool-cases (leb (length p.view_order + 1) limit)) [
    | inl fits ↦ registered_fits (suc fuel) e (leb→le _ _ fits)
    | inr full ↦ registered_full fuel e (ground (arith, length-order p valid)) one
  ]

-- In a well-formed pool with at most the limit of web views, after a dashboard is shown that is then
-- the current one, the order of use is the old order with its id moved to the end, cut to the limit
-- from the front: the least recently used view is the one dropped.
pub view_order-view_for :
    (max_live : ℤ) (d : Dashboard) (p : Pool)
    → IsValid p
    → length p.views ≤ live_limit max_live
    → (view_for max_live (some d.id) d p).view_order
      ≡ keep_last (live_limit max_live) (remove d.id p.view_order ++ d.id ∷ [])
unfolding view_for
view_order-view_for max_live d p h few = elim (Option-cases (lookup d.id p.views)) [
  | inl e ↦
      rw (e, view_for)
        (registered_order (live_limit max_live) d p h few (length (registered d p).views) e
          (live_limit-pos max_live) (length-registered (live_limit max_live) d p h few e))
  | inr (v, e) ↦
      rw (e, view_for)
        (let there = h.same d.id ∙ has_key_of_lookup d.id p.views v e in
          rw there (
            sym (
              keep_last_all (live_limit max_live) (remove d.id p.view_order ++ d.id ∷ []) (
                omega (
                  arith,
                  length-order p h,
                  length-remove d.id p.view_order there,
                  length-append (remove d.id p.view_order) (d.id ∷ []),
                )))))
]
