-- ===== src/Prelude/Assoc/Laws.antt =====
-- What the operations on dicts, sets and queues of texts do to membership and to length.
use visiontak_client.Prelude.Assoc.{
  contains, remove, insert, discard, Distinct, keys, lookup, assign, without, has_key,
}
use Prim.Native.Nat.{suc, ◌+◌}
use mathlib.Core.Path.{◌≡◌, refl, ap}
use mathlib.Core.Logic.{◌≢◌}
use mathlib.Core.Bool.{true, false, ◌||◌}
use mathlib.Core.List.{List, [], ◌∷◌, ◌++◌}
use mathlib.Core.Option.{none, some}
use native.Mathlib.Omega.{arith}
use visiontak_client.Prelude.Tests.{if◌then◌else◌}
use visiontak_client.Prelude.Lists.{length}
use visiontak_client.Prelude.Strings.{Text, text_eq, text_eq_iff, text_eq_refl}

pub contains-append :
    (k j : Text) (l : List Text) → contains j (l ++ k ∷ []) ≡ (contains j l || text_eq k j)
unfolding contains
contains-append k j [] = ground arith
contains-append k j (i ∷ l) = ground (arith, contains-append k j l)

pub contains-remove_ne :
    (k j : Text) (l : List Text) → k ≢ j → contains j (remove k l) ≡ contains j l
unfolding contains remove
contains-remove_ne k j [] h = refl
contains-remove_ne k j (i ∷ l) h =
    ground (arith, contains-remove_ne k j l, text_eq_iff i k, text_eq_iff i j)

pub contains-remove_self : (k : Text) (l : List Text) → Distinct l → contains k (remove k l) ≡ false
unfolding contains remove
contains-remove_self k [] h = refl
contains-remove_self k (i ∷ l) h = ground (arith, contains-remove_self k l, text_eq_iff i k)

pub contains_of_contains-remove :
    (k j : Text) (l : List Text) → contains j (remove k l) ≡ true → contains j l ≡ true
unfolding contains remove
contains_of_contains-remove k j [] h = h
contains_of_contains-remove k j (i ∷ l) h = ground (arith, contains_of_contains-remove k j l)

pub remove_absent : (k : Text) (l : List Text) → contains k l ≡ false → remove k l ≡ l
unfolding contains remove
remove_absent k [] h = refl
remove_absent k (i ∷ l) h = ground (arith, remove_absent k l)

pub Distinct-remove : (k : Text) (l : List Text) → Distinct l → Distinct (remove k l)
unfolding remove
Distinct-remove k [] h = tt
Distinct-remove k (i ∷ l) h =
    ground (arith, Distinct-remove k l, contains-remove_ne k i l, text_eq_iff i k)

pub Distinct-append :
    (k : Text) (l : List Text) → contains k l ≡ false → Distinct l → Distinct (l ++ k ∷ [])
unfolding contains
Distinct-append k [] n h = (refl, tt)
Distinct-append k (i ∷ l) n h =
    ground (arith, Distinct-append k l, contains-append k i l, text_eq_iff i k, text_eq_iff k i)

pub length-remove :
    (k : Text) (l : List Text) → contains k l ≡ true → length (remove k l) + 1 ≡ length l
unfolding contains remove
length-remove k [] h = cc
length-remove k (i ∷ l) h = ground (arith, length-remove k l)

pub contains-discard :
    (k j : Text) (s : List Text)
    → contains j (discard k s) ≡ (if text_eq k j then false else contains j s)
unfolding contains discard
contains-discard k j [] = ground arith
contains-discard k j (i ∷ s) =
    ground (arith, contains-discard k j s, text_eq_iff i k, text_eq_iff i j, text_eq_iff k j)

pub contains-insert :
    (k j : Text) (s : List Text) → contains j (insert k s) ≡ (text_eq k j || contains j s)
unfolding contains insert
contains-insert k j s = ground (arith, text_eq_iff k j)

module _ {ℓ} {V : Type ℓ} where
  pub keys-without : (k : Text) (d : List (Text × V)) → keys (without k d) ≡ remove k (keys d)
  unfolding without remove
  keys-without k [] = refl
  keys-without k (e ∷ d) = ground (arith, keys-without k d)

  pub keys-assign :
      (k : Text) (v : V) (d : List (Text × V))
      → has_key k d ≡ false
      → keys (assign k v d) ≡ keys d ++ k ∷ []
  unfolding assign contains
  keys-assign k v [] h = refl
  keys-assign k v (e ∷ d) h = ground (arith, keys-assign k v d)

  pub length-keys : (d : List (Text × V)) → length (keys d) ≡ length d
  length-keys [] = refl
  length-keys (e ∷ d) = ap suc (length-keys d)

  pub has_key_of_lookup :
      (k : Text) (d : List (Text × V)) (v : V) → lookup k d ≡ some v → has_key k d ≡ true
  unfolding lookup contains
  has_key_of_lookup k [] v h = cc
  has_key_of_lookup k (e ∷ d) v h = ground (arith, has_key_of_lookup k d v)

  pub not_has_key_of_lookup :
      (k : Text) (d : List (Text × V)) → lookup k d ≡ none → has_key k d ≡ false
  unfolding lookup contains
  not_has_key_of_lookup k [] h = refl
  not_has_key_of_lookup k (e ∷ d) h = ground (arith, not_has_key_of_lookup k d)

  pub lookup-without_ne :
      (k j : Text) (d : List (Text × V)) → k ≢ j → lookup j (without k d) ≡ lookup j d
  unfolding lookup without
  lookup-without_ne k j [] h = refl
  lookup-without_ne k j (e ∷ d) h =
      ground (arith, lookup-without_ne k j d, text_eq_iff e.0 k, text_eq_iff e.0 j)

  pub lookup-assign_self :
      (k : Text) (v : V) (d : List (Text × V)) → lookup k (assign k v d) ≡ some v
  unfolding lookup assign
  lookup-assign_self k v [] = ground (arith, text_eq_refl k)
  lookup-assign_self k v (e ∷ d) = ground (arith, lookup-assign_self k v d)

  pub lookup-assign_ne :
      (k j : Text) (v : V) (d : List (Text × V)) → k ≢ j → lookup j (assign k v d) ≡ lookup j d
  unfolding lookup assign
  lookup-assign_ne k j v [] h = ground (arith, text_eq_iff k j)
  lookup-assign_ne k j v (e ∷ d) h =
      ground (arith, lookup-assign_ne k j v d, text_eq_iff e.0 k, text_eq_iff e.0 j)
