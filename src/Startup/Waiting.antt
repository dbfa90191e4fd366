-- ===== src/Startup/Waiting.antt =====
-- How long wait_for_wayland of __main__.py waits.
use visiontak_client.Prelude.{
  ℕ, zero, suc, ◌+◌, ◌*◌, ◌≤◌, ◌≡◌, refl, arith, Bool, true, false, some, Text, ℤ, pos, negsuc,
  ltb_ℤ, max_zero, is_empty, ◌⊎◌, inl, inr, Bool-cases, ◌==◌, ==_iff,
}
use mathlib.Core.Path.{subst}
use visiontak_client.Controller.{seconds}
use visiontak_client.Startup.{look, wait_for_wayland}

same : (i m : ℕ) → i ≤ m → m ≤ i → i ≡ m
same i m le ge = omega arith

not_before :
    (at i : ℕ) (timeout : ℤ)
    → 1000 * i ≤ at
    → max_zero timeout ≤ i
    → ltb_ℤ (pos at) (seconds timeout) ≡ false
unfolding seconds
not_before at i (pos n) late le = ground (arith, late, le)
not_before at i (negsuc n) late le = ground (arith, late, le)

module _ (elapsed : ℕ → ℕ) (is_there : ℕ → Bool) (timeout : ℤ) where
  -- What the loop returns after its looks from `i` on.
  abbrev pub IsSeen : ℕ → Bool → Type 0
  IsSeen i true = (n : ℕ) × ((i ≤ n) × (is_there n ≡ true))
  IsSeen i false =
      (n : ℕ) × ((i ≤ n)
        × ((ltb_ℤ (pos (elapsed n)) (seconds timeout) ≡ false)
            × ((m : ℕ) → i ≤ m → m ≤ n → is_there m ≡ false)))

  last_look :
      (i : ℕ) (b : Bool)
      → is_there i ≡ b
      → ltb_ℤ (pos (elapsed i)) (seconds timeout) ≡ false
      → IsSeen i b
  last_look i true e d = (i, (omega arith, e))
  last_look i false e d =
      (i, (omega arith, (d, λ m le ge. subst (λ n. is_there n ≡ false) (same i m le ge) e)))

  earlier : (i : ℕ) (b : Bool) → is_there i ≡ false → IsSeen (suc i) b → IsSeen i b
  earlier i true e (n, (le, f)) = (n, (omega arith, f))
  earlier i false e (n, (le, (d, f))) = (
    n,
    (
      omega arith,
      (
        d,
        λ m lo hi. elim (Bool-cases (i == m)) [
          | inl q ↦ subst (λ j. is_there j ≡ false) ((==_iff i m).0 q) e
          | inr q ↦ f m (ground (arith, q, lo)) hi
        ],
      ),
    ),
  )

  -- The looks from `i` on, with fuel for those that are left.
  look-IsSeen :
      ((n : ℕ) → 1000 * n ≤ elapsed n)
      → (fuel i : ℕ) → max_zero timeout ≤ i + fuel
      → (b : Bool) × ((look elapsed is_there timeout (suc fuel) i ≡ some b) × IsSeen i b)
  unfolding look
  look-IsSeen late zero i le =
      let over = not_before (elapsed i) i timeout (late i) (omega arith) in
      (is_there i, (rw over refl, last_look i (is_there i) refl over))
  look-IsSeen late (suc fuel) i le = elim (Bool-cases (ltb_ℤ (pos (elapsed i)) (seconds timeout))) [
    | inr d ↦ (is_there i, (rw d refl, last_look i (is_there i) refl d))
    | inl d ↦ elim (Bool-cases (is_there i)) [
      | inl t ↦ (true, (rw (d, t) refl, (i, (omega arith, t))))
      | inr t ↦
          let (b, (e, seen)) = look-IsSeen late fuel (suc i) (omega arith) in
          (b, (rw (d, t) e, earlier i b t seen))
    ]
  ]

  -- wait_for_wayland ends: its loop looks for the socket once more often than the timeout has seconds
  -- at most, as each round sleeps a second at least. It returns True only if some look found the
  -- socket, and False only if there is no runtime directory, or if every look up to one after the
  -- deadline missed it.
  pub wait_for_wayland-ends :
      (runtime_dir : Text)
      → ((n : ℕ) → 1000 * n ≤ elapsed n)
      → ((is_empty runtime_dir ≡ true)
          × (wait_for_wayland runtime_dir elapsed is_there timeout (suc (max_zero timeout))
              ≡ some false))
        ⊎ ((b : Bool) × ((wait_for_wayland runtime_dir elapsed is_there timeout
                  (suc (max_zero timeout))
                ≡ some b)
              × IsSeen 0 b))
  unfolding wait_for_wayland
  wait_for_wayland-ends runtime_dir late = elim (Bool-cases (is_empty runtime_dir)) [
    | inl e ↦ inl (e, rw e refl)
    | inr e ↦ inr (rw e (look-IsSeen late (max_zero timeout) 0 (omega arith)))
  ]
