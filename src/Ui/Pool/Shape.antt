-- ===== src/Ui/Pool/Shape.antt =====
-- The invariant of the pool of web views of ui/kiosk_window.py, and that every operation keeps it.
use visiontak_client.Prelude.{
  ℕ, zero, suc, ◌+◌, ◌≡◌, refl, Bool, true, false, ◌||◌, Option, none, some, List, [], ◌∷◌, ◌++◌,
  Text, text_eq, text_eq_iff, ℤ, arith, if◌then◌else◌, contains, remove, keys, lookup, has_key,
  Distinct, contains-append, contains-remove_ne, contains-remove_self, Distinct-remove,
  Distinct-append, keys-without, keys-assign, has_key_of_lookup, not_has_key_of_lookup,
  Option-cases, Bool-cases, inl, inr, remove_absent, ap, leb, length,
}
use visiontak_client.Models.{Dashboard}
use visiontak_client.Ui.Pool.{
  Pool, View, WebCall, init, load, stop, release_view, release_all, drop_stale_views, touch, evict,
  evict_surplus, add_view, view_for, find_victim, stale_keys, Child, set_visible_child,
}

-- How often a view was loaded for an id, and how often one was stopped.
abbrev pub loads : Text → List WebCall → ℕ
loads k [] = 0
loads k (load j u ∷ cs) = if text_eq j k then suc (loads k cs) else loads k cs
loads k (stop j ∷ cs) = loads k cs
loads k (WebCall.reload j ∷ cs) = loads k cs

abbrev pub stops : Text → List WebCall → ℕ
stops k [] = 0
stops k (load j u ∷ cs) = stops k cs
stops k (stop j ∷ cs) = if text_eq j k then suc (stops k cs) else stops k cs
stops k (WebCall.reload j ∷ cs) = stops k cs

abbrev pub one_if : Bool → ℕ
one_if true = 1
one_if false = 0

pub record IsValid (p : Pool) : Type 0 where
  pub order_distinct : Distinct p.view_order
  pub keys_distinct : Distinct (keys p.views)
  -- the order holds exactly the keys
  pub same : (k : Text) → contains k p.view_order ≡ has_key k p.views
  -- the stack holds exactly the views
  pub stacked : p.children ≡ keys p.views
  -- a load is matched by a stop, or its view is alive
  pub balanced : (k : Text) → loads k p.calls ≡ stops k p.calls + one_if (has_key k p.views)

pub init-IsValid : IsValid init
unfolding contains
init-IsValid = record {
  order_distinct = tt;
  keys_distinct = tt;
  same = λ k. refl;
  stacked = refl;
  balanced = λ k. refl;
}

loads-append : (k : Text) (cs ds : List WebCall) → loads k (cs ++ ds) ≡ loads k cs + loads k ds
loads-append k [] ds = omega arith
loads-append k (load j u ∷ cs) ds = ground (arith, loads-append k cs ds)
loads-append k (stop j ∷ cs) ds = loads-append k cs ds
loads-append k (WebCall.reload j ∷ cs) ds = loads-append k cs ds

stops-append : (k : Text) (cs ds : List WebCall) → stops k (cs ++ ds) ≡ stops k cs + stops k ds
stops-append k [] ds = omega arith
stops-append k (load j u ∷ cs) ds = stops-append k cs ds
stops-append k (stop j ∷ cs) ds = ground (arith, stops-append k cs ds)
stops-append k (WebCall.reload j ∷ cs) ds = stops-append k cs ds

-- What a removal does to membership, at any key.
pub contains-remove :
    (k j : Text) (l : List Text)
    → Distinct l
    → contains j (remove k l) ≡ (if text_eq k j then false else contains j l)
contains-remove k j l d = elim (Bool-cases (text_eq k j)) [
  | inl e ↦ rw e (let p = (text_eq_iff k j).0 e in rw (← p) (contains-remove_self k l d))
  | inr n ↦ rw n (contains-remove_ne k j l (λ p. cc (n, (text_eq_iff k j).1 p)))
]

-- A release of a view that is alive, with its calls opened.
release_alive :
    (id : Text) (p : Pool) (v : View)
    → lookup id p.views ≡ some v
    → IsValid p
    → IsValid (release_view id p)
unfolding release_view
release_alive id p v e h =
    rw (e, release_view)
      (record {
        order_distinct = ground (arith, Distinct-remove id p.view_order h.order_distinct);
        keys_distinct = rw keys-without (Distinct-remove id (keys p.views) h.keys_distinct);
        same = λ k. rw keys-without (
            ground (
              arith,
              h.same k,
              contains-remove id k p.view_order h.order_distinct,
              contains-remove id k (keys p.views) h.keys_distinct,
              remove_absent id p.view_order,
            ));
        stacked = rw keys-without (ap (remove id) h.stacked);
        balanced = λ k. rw keys-without (
            ground (
              arith,
              h.balanced k,
              has_key_of_lookup id p.views v e,
              text_eq_iff id k,
              contains-remove id k (keys p.views) h.keys_distinct,
              loads-append k p.calls (stop id ∷ []),
              stops-append k p.calls (stop id ∷ []),
            ));
      })

pub release_view-IsValid : (id : Text) (p : Pool) → IsValid p → IsValid (release_view id p)
release_view-IsValid id p h = elim (Option-cases (lookup id p.views)) [
  | inl e ↦ unfold release_view in rw (e, release_view) h
  | inr (v, e) ↦ release_alive id p v e h
]

pub release_all-IsValid : (ks : List Text) (p : Pool) → IsValid p → IsValid (release_all ks p)
unfolding release_all
release_all-IsValid [] p h = h
release_all-IsValid (k ∷ ks) p h =
    release_all-IsValid ks (release_view k p) (release_view-IsValid k p h)

pub evict-IsValid :
    (fuel limit : ℕ) (cur : Option Text) (p : Pool) → IsValid p → IsValid (evict fuel limit cur p)
unfolding evict
evict-IsValid zero limit cur p h = h
evict-IsValid (suc fuel) limit cur p h = elim (Bool-cases (leb (length p.views) limit)) [
  | inl fits ↦ rw fits h
  | inr full ↦ rw full (elim (Option-cases (find_victim cur p.view_order p.views)) [
    | inl e ↦ rw e h
    | inr (v, e) ↦
        rw e (evict-IsValid fuel limit cur (release_view v p) (release_view-IsValid v p h))
  ])
]

-- What a move to the end does to membership, at any key.
pub contains-moved :
    (id k : Text) (l : List Text)
    → Distinct l
    → contains k ((if contains id l then remove id l else l) ++ id ∷ [])
      ≡ (text_eq id k || contains k l)
contains-moved id k l h =
    rw contains-append (ground (arith, contains-remove id k l h, remove_absent id l))

Distinct-moved :
    (id : Text) (l : List Text)
    → Distinct l
    → Distinct ((if contains id l then remove id l else l) ++ id ∷ [])
Distinct-moved id l h = elim (Bool-cases (contains id l)) [
  | inl e ↦
      rw e (Distinct-append id (remove id l) (contains-remove_self id l h) (Distinct-remove id l h))
  | inr e ↦ rw e (Distinct-append id l e h)
]

touch-IsValid :
    (id : Text) (p : Pool) (v : View)
    → lookup id p.views ≡ some v
    → IsValid p
    → IsValid (touch id p)
unfolding touch
touch-IsValid id p v e h = record {
  order_distinct = Distinct-moved id p.view_order h.order_distinct;
  keys_distinct = h.keys_distinct;
  same = λ k. ground (
    arith,
    h.same k,
    contains-moved id k p.view_order h.order_distinct,
    has_key_of_lookup id p.views v e,
    text_eq_iff id k,
  );
  stacked = h.stacked;
  balanced = h.balanced;
}

-- A new view, added and touched.
abbrev pub registered : Dashboard → Pool → Pool
registered d p = touch d.id (add_view d p)

pub registered-IsValid :
    (d : Dashboard) (p : Pool) → lookup d.id p.views ≡ none → IsValid p → IsValid (registered d p)
unfolding touch add_view
registered-IsValid d p e h =
    let new = not_has_key_of_lookup d.id p.views e in
    let ks = keys-assign d.id (record { uri = d.url }) p.views new in
    record {
      order_distinct = Distinct-moved d.id p.view_order h.order_distinct;
      keys_distinct = rw ks (Distinct-append d.id (keys p.views) new h.keys_distinct);
      same = λ k. rw ks (
          ground (
            arith,
            h.same k,
            contains-moved d.id k p.view_order h.order_distinct,
            contains-append d.id k (keys p.views),
          ));
      stacked = rw ks (ap (λ l. l ++ d.id ∷ []) h.stacked);
      balanced = λ k. rw ks (
          ground (
            arith,
            h.balanced k,
            new,
            text_eq_iff d.id k,
            contains-append d.id k (keys p.views),
            loads-append k p.calls (load d.id d.url ∷ []),
            stops-append k p.calls (load d.id d.url ∷ []),
          ));
    }

pub evict_surplus-IsValid :
    (max_live : ℤ) (cur : Option Text) (p : Pool)
    → IsValid p
    → IsValid (evict_surplus max_live cur p)
unfolding evict_surplus
evict_surplus-IsValid max_live cur p h = evict-IsValid (length p.views) _ cur p h

pub view_for-IsValid :
    (max_live : ℤ) (cur : Option Text) (d : Dashboard) (p : Pool)
    → IsValid p
    → IsValid (view_for max_live cur d p)
unfolding view_for
view_for-IsValid max_live cur d p h = elim (Option-cases (lookup d.id p.views)) [
  | inl e ↦
      rw (e, view_for)
        (evict_surplus-IsValid max_live cur (registered d p) (registered-IsValid d p e h))
  | inr (v, e) ↦ rw (e, view_for) (touch-IsValid d.id p v e h)
]

pub drop_stale_views-IsValid :
    (live : List Text) (p : Pool) → IsValid p → IsValid (drop_stale_views live p)
unfolding drop_stale_views
drop_stale_views-IsValid live p h = release_all-IsValid (stale_keys live (keys p.views)) p h

pub set_visible_child-IsValid : (c : Child) (p : Pool) → IsValid p → IsValid (set_visible_child c p)
unfolding set_visible_child
set_visible_child-IsValid c p h = record {
  order_distinct = h.order_distinct;
  keys_distinct = h.keys_distinct;
  same = h.same;
  stacked = h.stacked;
  balanced = h.balanced;
}

-- A reload is neither a load nor a stop.
pub reload-IsValid :
    (k : Text) (p : Pool)
    → IsValid p
    → IsValid (record p { calls = p.calls ++ WebCall.reload k ∷ [] })
reload-IsValid k p h = record {
  order_distinct = h.order_distinct;
  keys_distinct = h.keys_distinct;
  same = h.same;
  stacked = h.stacked;
  balanced = λ j. omega (
    arith,
    h.balanced j,
    loads-append j p.calls (WebCall.reload k ∷ []),
    stops-append j p.calls (WebCall.reload k ∷ []),
  );
}
