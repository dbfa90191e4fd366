-- ===== src/Prelude/Assoc.antt =====
-- Python's `dict` keyed by text, in insertion order, and lists of texts used as sets and queues.
pub mod Laws
use Prim.Native.Nat.{ℕ, zero, suc, ◌+◌, ◌≤◌}
use mathlib.Core.Path.{◌≡◌, refl, ap}
use mathlib.Core.Logic.{◌≢◌}
use mathlib.Core.Bool.{Bool, true, false, not, ◌&&◌, ◌||◌}
use mathlib.Core.List.{List, [], ◌∷◌, ◌++◌, map}
use mathlib.Core.Option.{Option, none, some}
use native.Mathlib.Omega.{arith}
use visiontak_client.Prelude.Tests.{if◌then◌else◌}
use visiontak_client.Prelude.Lists.{length}
use visiontak_client.Prelude.Strings.{Text, text_eq, text_eq_iff, text_eq_refl}

-- k in l
unfoldable pub contains : Text → List Text → Bool
contains k [] = false
contains k (j ∷ l) = text_eq j k || contains k l

-- l.remove(k) where k is known to occur: drops the first occurrence.
unfoldable pub remove : Text → List Text → List Text
remove k [] = []
remove k (j ∷ l) = if text_eq j k then l else j ∷ remove k l

-- s.add(k), s.discard(k) on a set.
unfoldable pub insert : Text → List Text → List Text
insert k s = if contains k s then s else k ∷ s

unfoldable pub discard : Text → List Text → List Text
discard k [] = []
discard k (j ∷ l) = let rest = discard k l in if text_eq j k then rest else j ∷ rest

-- No text stands twice.
abbrev pub Distinct : List Text → Type 0
Distinct [] = Unit
Distinct (k ∷ l) = (contains k l ≡ false) × Distinct l

module _ {ℓ} {V : Type ℓ} where
  abbrev pub keys : List (Text × V) → List Text
  keys = map (λ e. e.0)

  -- d.get(k)
  unfoldable pub lookup : Text → List (Text × V) → Option V
  lookup k [] = none
  lookup k ((j, v) ∷ d) = if text_eq j k then some v else lookup k d

  -- d[k] = v
  unfoldable pub assign : Text → V → List (Text × V) → List (Text × V)
  assign k v [] = (k, v) ∷ []
  assign k v ((j, w) ∷ d) = if text_eq j k then (j, v) ∷ d else (j, w) ∷ assign k v d

  -- d.pop(k, None), the dict that is left
  unfoldable pub without : Text → List (Text × V) → List (Text × V)
  without k [] = []
  without k ((j, v) ∷ d) = if text_eq j k then d else (j, v) ∷ without k d

  -- k in d
  abbrev pub has_key : Text → List (Text × V) → Bool
  has_key k d = contains k (keys d)
