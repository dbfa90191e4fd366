-- ===== src/Ui/Pool/Eviction.antt =====
-- What _evict_surplus, _view_for and _drop_stale_views of ui/kiosk_window.py leave in the pool.
use visiontak_client.Prelude.{
  ℕ, zero, suc, ◌+◌, ◌≤◌, ◌≡◌, refl, true, false, not, ◌&&◌, Option, none, some, List, [], ◌∷◌,
  Text, text_eq, text_eq_iff, text_eq_refl, ℤ, pos, negsuc, arith, leb, leb→le, if◌then◌else◌,
  length, contains, keys, lookup, without, has_key, Distinct, keys-without, length-keys,
  lookup-without_ne, lookup-assign_self, has_key_of_lookup, not_has_key_of_lookup, Option-cases,
  Bool-cases, inl, inr, if_keeps, ◌||◌, keys-assign, contains-append,
}
use visiontak_client.Models.{Dashboard}
use visiontak_client.Ui.Pool.{
  Pool, View, release_view, release_all, drop_stale_views, stale_keys, touch, is_current,
  find_victim, evict, live_limit, add_view, view_for,
}
use visiontak_client.Ui.Pool.Shape.{
  IsValid, release_view-IsValid, contains-remove, registered, registered-IsValid,
}

-- A victim is alive and not the current view.
find_victim-eq-some :
    (cur : Option Text) (order : List Text) (views : List (Text × View)) (v : Text)
    → find_victim cur order views ≡ some v
    → (has_key v views ≡ true) × (is_current cur v ≡ false)
unfolding find_victim
find_victim-eq-some cur [] views v h = cc
find_victim-eq-some cur (i ∷ order) views v h =
    ground (arith, find_victim-eq-some cur order views v)

-- With no victim, every view that the order names is the current one.
find_victim-eq-none :
    (cur : Option Text) (order : List Text) (views : List (Text × View)) (k : Text)
    → find_victim cur order views ≡ none
    → contains k order ≡ true
    → has_key k views ≡ true
    → is_current cur k ≡ true
unfolding find_victim contains
find_victim-eq-none cur [] views k h c v = cc
find_victim-eq-none cur (i ∷ order) views k h c v =
    ground (arith, find_victim-eq-none cur order views k, text_eq_iff i k)

-- Distinct texts that are all the current id are one at most.
length-le-one :
    (cur : Option Text) (ks : List Text)
    → Distinct ks
    → ((k : Text) → contains k ks ≡ true → is_current cur k ≡ true)
    → length ks ≤ 1
unfolding contains is_current
length-le-one cur [] d h = omega arith
length-le-one cur (k ∷ []) d h = omega arith
length-le-one none (k ∷ j ∷ ks) d h = cc (h k (ground (arith, text_eq_refl k)))
length-le-one (some c) (k ∷ j ∷ ks) d h = ground (
  arith,
  h k (ground (arith, text_eq_refl k)),
  h j (ground (arith, text_eq_refl j)),
  text_eq_iff k c,
  text_eq_iff j c,
  text_eq_iff j k,
)

pub length-without :
    (k : Text) (d : List (Text × View)) → has_key k d ≡ true → length (without k d) + 1 ≡ length d
unfolding without contains
length-without k [] h = cc
length-without k (e ∷ d) h = ground (arith, length-without k d)

pub views-release_view :
    (id : Text) (p : Pool)
    → has_key id p.views ≡ true
    → (release_view id p).views ≡ without id p.views
unfolding release_view
views-release_view id p h = elim (Option-cases (lookup id p.views)) [
  | inl e ↦ cc (h, not_has_key_of_lookup id p.views e)
  | inr (v, e) ↦ rw (e, release_view) refl
]

release_view_absent : (id : Text) (p : Pool) → has_key id p.views ≡ false → release_view id p ≡ p
unfolding release_view
release_view_absent id p h = elim (Option-cases (lookup id p.views)) [
  | inl e ↦ rw (e, release_view) refl
  | inr (v, e) ↦ cc (h, has_key_of_lookup id p.views v e)
]

-- The loop ends with no more views than the limit.
pub evict-le-limit :
    (fuel limit : ℕ) (cur : Option Text) (p : Pool)
    → IsValid p
    → 1 ≤ limit
    → length p.views ≤ fuel
    → length (evict fuel limit cur p).views ≤ limit
unfolding evict
evict-le-limit zero limit cur p h one f = omega arith
evict-le-limit (suc fuel) limit cur p h one f = elim (Bool-cases (leb (length p.views) limit)) [
  | inl fits ↦ rw fits (leb→le _ _ fits)
  | inr full ↦ rw full (elim (Option-cases (find_victim cur p.view_order p.views)) [
    | inl e ↦ rw e (
        let few =
          length-le-one cur (keys p.views) h.keys_distinct
            (λ k c. find_victim-eq-none cur p.view_order p.views k e (rw (h.same k) c) c) in
        omega (arith, few, length-keys p.views))
    | inr (v, e) ↦
        let alive = (find_victim-eq-some cur p.view_order p.views v e).0 in
        rw e (
          evict-le-limit fuel limit cur (release_view v p) (release_view-IsValid v p h) one
            (rw (views-release_view v p alive) (omega (arith, length-without v p.views alive))))
  ])
]

-- The loop never touches the current view.
pub lookup-evict :
    (fuel limit : ℕ) (c : Text) (p : Pool)
    → lookup c (evict fuel limit (some c) p).views ≡ lookup c p.views
unfolding evict
lookup-evict zero limit c p = refl
lookup-evict (suc fuel) limit c p = elim (Bool-cases (leb (length p.views) limit)) [
  | inl fits ↦ rw fits refl
  | inr full ↦ rw full (elim (Option-cases (find_victim (some c) p.view_order p.views)) [
    | inl e ↦ rw e refl
    | inr (v, e) ↦
        let found = find_victim-eq-some (some c) p.view_order p.views v e in
        rw (e, lookup-evict fuel limit c (release_view v p), views-release_view v p found.0)
          (lookup-without_ne v c p.views
            (λ q. unfold is_current in cc (found.1, (text_eq_iff v c).1 q)))
  ])
]

pub live_limit-pos : (m : ℤ) → 1 ≤ live_limit m
unfolding live_limit
live_limit-pos (pos n) = omega arith
live_limit-pos (negsuc n) = omega arith

module _ (max_live : ℤ) (d : Dashboard) (p : Pool) where
  -- Building or reusing the view of a dashboard leaves it alive.
  pub view_for_alive : (v : View) × (lookup d.id (view_for max_live (some d.id) d p).views ≡ some v)
  unfolding view_for
  view_for_alive = elim (Option-cases (lookup d.id p.views)) [
    | inl e ↦ (
      record { uri = d.url },
      rw (e, view_for, lookup-evict) (lookup-assign_self d.id (record { uri = d.url }) p.views),
    )
    | inr (v, e) ↦ (v, rw (e, view_for) e)
  ]

  -- The number of live views stays within the limit.
  pub view_for-le-limit :
      IsValid p
      → length p.views ≤ live_limit max_live
      → length (view_for max_live (some d.id) d p).views ≤ live_limit max_live
  unfolding view_for
  view_for-le-limit h few = elim (Option-cases (lookup d.id p.views)) [
    | inl e ↦
        rw (e, view_for)
          (evict-le-limit (length (registered d p).views) (live_limit max_live) (some d.id)
            (registered d p) (registered-IsValid d p e h) (live_limit-pos max_live) (omega arith))
    | inr (v, e) ↦ rw (e, view_for) few
  ]

-- What a release does to the keys, at any key.
has_key-release_view :
    (id k : Text) (p : Pool)
    → IsValid p
    → has_key k (release_view id p).views ≡ (if text_eq id k then false else has_key k p.views)
has_key-release_view id k p h = elim (Bool-cases (has_key id p.views)) [
  | inl e ↦
      rw (views-release_view id p e, keys-without)
        (contains-remove id k (keys p.views) h.keys_distinct)
  | inr e ↦ rw (release_view_absent id p e) (ground (arith, text_eq_iff id k))
]

has_key-release_all :
    (ks : List Text) (k : Text) (p : Pool)
    → IsValid p
    → has_key k (release_all ks p).views ≡ (not (contains k ks) && has_key k p.views)
unfolding release_all contains
has_key-release_all [] k p h = refl
has_key-release_all (j ∷ ks) k p h = ground (
  arith,
  has_key-release_all ks k (release_view j p) (release_view-IsValid j p h),
  has_key-release_view j k p h,
)

contains-stale_keys :
    (live ks : List Text) (k : Text)
    → contains k (stale_keys live ks) ≡ (not (contains k live) && contains k ks)
unfolding stale_keys contains
contains-stale_keys live [] k = ground arith
contains-stale_keys live (j ∷ ks) k = ground (arith, contains-stale_keys live ks k, text_eq_iff j k)

-- In a well-formed pool, after _drop_stale_views a dashboard has a web view exactly when it had one
-- and its id is among the live ones.
pub has_key-drop_stale_views :
    (live : List Text) (k : Text) (p : Pool)
    → IsValid p
    → has_key k (drop_stale_views live p).views ≡ (contains k live && has_key k p.views)
unfolding drop_stale_views
has_key-drop_stale_views live k p h = ground (
  arith,
  has_key-release_all (stale_keys live (keys p.views)) k p h,
  contains-stale_keys live (keys p.views) k,
)

length-release_view-le : (id : Text) (p : Pool) → length (release_view id p).views ≤ length p.views
length-release_view-le id p = elim (Bool-cases (has_key id p.views)) [
  | inl e ↦ rw (views-release_view id p e) (omega (arith, length-without id p.views e))
  | inr e ↦ rw (release_view_absent id p e) (omega arith)
]

length-release_all-le :
    (ks : List Text) (p : Pool) → length (release_all ks p).views ≤ length p.views
unfolding release_all
length-release_all-le [] p = omega arith
length-release_all-le (k ∷ ks) p =
    omega (arith, length-release_all-le ks (release_view k p), length-release_view-le k p)

pub length-drop_stale_views-le :
    (live : List Text) (p : Pool) → length (drop_stale_views live p).views ≤ length p.views
unfolding drop_stale_views
length-drop_stale_views-le live p = length-release_all-le (stale_keys live (keys p.views)) p

has_key-evict :
    (fuel limit : ℕ) (cur : Option Text) (k : Text) (p : Pool)
    → IsValid p
    → has_key k (evict fuel limit cur p).views ≡ true
    → has_key k p.views ≡ true
unfolding evict
has_key-evict zero limit cur k p h = λ e. e
has_key-evict (suc fuel) limit cur k p h =
    if_keeps (λ (q : Pool). has_key k q.views ≡ true → has_key k p.views ≡ true)
      (leb (length p.views) limit) (λ fits e. e)
      (λ full. elim (Option-cases (find_victim cur p.view_order p.views)) [
        | inl o ↦ rw o (λ e. e)
        | inr (v, o) ↦ rw o (λ e. ground (
          arith,
          has_key-evict fuel limit cur k (release_view v p) (release_view-IsValid v p h) e,
          has_key-release_view v k p h,
        ))
      ])

has_key-registered :
    (d : Dashboard) (p : Pool) (k : Text)
    → lookup d.id p.views ≡ none
    → has_key k (registered d p).views ≡ true
    → (text_eq d.id k || has_key k p.views) ≡ true
unfolding touch add_view
has_key-registered d p k e =
    rw (keys-assign d.id (record { uri = d.url }) p.views (not_has_key_of_lookup d.id p.views e))
      (λ h. ground (arith, contains-append d.id k (keys p.views)))

-- The views after a dashboard is shown are its own and ones that were there.
pub has_key-view_for :
    (max_live : ℤ) (d : Dashboard) (p : Pool) (k : Text)
    → IsValid p
    → has_key k (view_for max_live (some d.id) d p).views ≡ true
    → (text_eq d.id k || has_key k p.views) ≡ true
unfolding view_for
has_key-view_for max_live d p k h = elim (Option-cases (lookup d.id p.views)) [
  | inl e ↦
      rw (e, view_for)
        (λ alive.
          let one =
            has_key-evict (length (registered d p).views) (live_limit max_live) (some d.id) k
              (registered d p) (registered-IsValid d p e h) alive in
          has_key-registered d p k e one)
  | inr (v, e) ↦ rw (e, view_for) (λ alive. ground arith)
]
