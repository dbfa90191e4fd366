-- ===== src/Config/Load/Bounds.antt =====
-- What the checks of Config in config.py leave of the settings.
use visiontak_client.Prelude.{
  ℕ, zero, suc, ◌≤◌, ◌≡◌, refl, arith, Bool, true, false, ◌&&◌, Option, List, Text, ℤ, pos, negsuc,
  ltb_ℤ, length, contains, ltb, ◌⊎◌, inl, inr, Bool-cases,
}
use mathlib.Core.Path.{subst}
use visiontak_client.Python.{Unicode, Result, ok, raise, ◌>>=◌, encode, ok-injective}
use visiontak_client.Json.{Json}
use visiontak_client.Config.{Config}
use visiontak_client.Config.Checks.{check, refuse_if, is_nonzero, cec_backends, accelerations}
use visiontak_client.Config.Load.{load_config, coerce_all, collect}

-- What holds of every result of the rest holds of every result of the whole.
pub bind-keeps :
    {A : Type 0} {B : Type 0} (P : B → Type 0) (r : Result A) (f : A → Result B) (b : B)
    → ((a : A) → f a ≡ ok b → P b)
    → (r >>= f) ≡ ok b
    → P b
bind-keeps P (ok a) f b h e = h a e
bind-keeps P (raise q) f b h e = cc e

-- Zero, or at least a bound.
abbrev pub IsOffOrAtLeast : ℕ → ℤ → Type 0
IsOffOrAtLeast m i = (n : ℕ) × ((i ≡ pos n) × ((n ≡ 0) ⊎ (m ≤ n)))

pub record IsValid (c : Config) : Type 0 where
  pub refresh : IsOffOrAtLeast 10 c.refresh_interval
  pub rotate : IsOffOrAtLeast 5 c.rotate_interval
  pub backend : contains c.cec_backend cec_backends ≡ true
  pub live : (n : ℕ) × ((c.max_live_views ≡ pos n) × (1 ≤ n))
  pub acceleration : contains c.hardware_acceleration accelerations ≡ true
  pub name : (bytes : List ℕ) × ((encode c.osd_name ≡ ok bytes) × (length bytes ≤ 14))

off_or_at_least :
    (m : ℕ) (i : ℤ) → (is_nonzero i && ltb_ℤ i (pos (suc m))) ≡ false → IsOffOrAtLeast (suc m) i
off_or_at_least m (pos zero) e = (0, (refl, inl refl))
off_or_at_least m (pos (suc n)) e = (suc n, (refl, inr (ground arith)))
off_or_at_least m (negsuc n) e = absurd (ground arith)

at_least_one : (i : ℤ) → ltb_ℤ i (pos 1) ≡ false → (n : ℕ) × ((i ≡ pos n) × (1 ≤ n))
at_least_one (pos n) e = (n, (refl, ground arith))
at_least_one (negsuc n) e = absurd (ground arith)

-- A test that did not raise was false.
passed :
    {B : Type 0} (P : B → Type 0) (t : Bool) (c : Config) (f : Config → Result B) (b : B)
    → (t ≡ false → f c ≡ ok b → P b)
    → (refuse_if t c >>= f) ≡ ok b
    → P b
unfolding refuse_if
passed P true c f b h e = cc e
passed P false c f b h e = h refl e

named :
    (c d : Config) (r : Result (List ℕ))
    → encode c.osd_name ≡ r
    → (r >>= λ name. refuse_if (ltb 14 (length name)) c) ≡ ok d
    → (c ≡ d) × ((bytes : List ℕ) × ((encode c.osd_name ≡ ok bytes) × (length bytes ≤ 14)))
unfolding refuse_if
named c d (raise q) n e = cc e
named c d (ok bytes) n e = elim (Bool-cases (ltb 14 (length bytes))) [
  | inl k ↦ cc (rw k at e)
  | inr k ↦ (ok-injective (rw k at e), (bytes, (n, ground arith)))
]

pub check-IsValid : (c d : Config) → check c ≡ ok d → IsValid d
unfolding check
check-IsValid c d = passed IsValid _ c _ d (λ r. passed IsValid _ c _ d (λ o.
    passed IsValid _ c _ d (λ k. passed IsValid _ c _ d (λ l. passed IsValid _ c _ d (λ a e.
      let (same, name) = named c d (encode c.osd_name) refl e in
      subst IsValid same (record {
        refresh = off_or_at_least 9 c.refresh_interval r;
        rotate = off_or_at_least 4 c.rotate_interval o;
        backend = ground (arith, k);
        live = at_least_one c.max_live_views l;
        acceleration = ground (arith, a);
        name = name;
      }))))))

module _ (u : Unicode) (repr : Json → Text) (loads : Text → Result Json) where
  -- Whatever stands in the files and the environment, settings that load returns are in range: the
  -- refresh interval is 0 or at least 10, the carousel's 0 or at least 5, at least one web view may
  -- live, the CEC backend and the acceleration are known words, and the name has an encoding of at
  -- most 14 bytes.
  pub load_config-IsValid :
      (state_file config_file : Option Text) (environ : List (Text × Text)) (hostname : Text)
      (memory : Option ℤ) (c : Config)
      → load_config u repr loads state_file config_file environ hostname memory ≡ ok c
      → IsValid c
  unfolding load_config
  load_config-IsValid state_file config_file environ hostname memory c =
      bind-keeps IsValid (collect u repr loads state_file config_file environ hostname memory)
        (λ values. coerce_all u repr loads values >>= check) c
        (λ values.
          bind-keeps IsValid (coerce_all u repr loads values) check c (λ d e. check-IsValid d c e))
