-- ===== src/Cec/Choice.antt =====
-- src/visiontak_client/cec/__init__.py: create_backend, by whether the device exists and whether the
-- module cec can be imported.
use visiontak_client.Prelude.{
  ◌≡◌, refl, arith, Bool, true, false, not, ◌&&◌, ◌||◌, Text, codes, ◌++◌, text_eq, text_eq_iff,
  sym, if◌then◌else◌, Bool-cases, inl, inr,
}
use mathlib.Core.Path.{subst}

-- NullCecBackend with its reason, KernelCecBackend or LibCecBackend.
pub data Chosen : Type 0 where
  null_backend : Text → Chosen
  kernel_backend libcec_backend : Chosen

-- `repr` is the representation of a text.
unfoldable pub create_backend : (Text → Text) → Bool → Bool → Text → Text → Chosen
create_backend repr exists importable device backend =
    if text_eq backend (codes "none")
    then null_backend (codes "cec-backend=none")
    else if (text_eq backend (codes "kernel") || text_eq backend (codes "auto")) && exists
    then kernel_backend
    else if text_eq backend (codes "kernel")
    then null_backend (device ++ codes " not present")
    else if text_eq backend (codes "libcec") || text_eq backend (codes "auto")
    then (if importable
        then libcec_backend
        else if text_eq backend (codes "libcec")
        then null_backend (codes "python3-cec not available")
        else null_backend (codes "no CEC adapter (" ++ device ++ codes " missing, no libcec)"))
    else null_backend (codes "unknown backend " ++ repr backend)

abbrev pub is_kernel : Chosen → Bool
is_kernel kernel_backend = true
is_kernel c = false

abbrev pub is_libcec : Chosen → Bool
is_libcec libcec_backend = true
is_libcec c = false

-- The kernel adapter is chosen exactly when the setting is "kernel" or "auto" and the device exists;
-- libcec exactly when its module can be imported and the setting is "libcec", or "auto" with no device.
pub create_backend_choices :
    (repr : Text → Text) (exists importable : Bool) (device backend : Text)
    → (is_kernel (create_backend repr exists importable device backend)
        ≡ ((text_eq backend (codes "kernel") || text_eq backend (codes "auto")) && exists))
      × (is_libcec (create_backend repr exists importable device backend) ≡ (
          importable
          && (text_eq backend (codes "libcec") || (text_eq backend (codes "auto") && not exists))))
unfolding create_backend text_eq
create_backend_choices repr exists importable device backend =
    let P = λ (b : Text).
      (is_kernel (create_backend repr exists importable device b)
        ≡ ((text_eq b (codes "kernel") || text_eq b (codes "auto")) && exists))
      × (is_libcec (create_backend repr exists importable device b) ≡ (
          importable
          && (text_eq b (codes "libcec") || (text_eq b (codes "auto") && not exists)))) in
    let at = λ (s : Text) (e : text_eq backend s ≡ true). sym ((text_eq_iff backend s).0 e) in
    elim (Bool-cases (text_eq backend (codes "none"))) [
      | inl e ↦ subst P (at (codes "none") e) (ground arith, ground arith)
      | inr e ↦ elim (Bool-cases (text_eq backend (codes "kernel"))) [
        | inl f ↦ subst P (at (codes "kernel") f) (ground arith, ground arith)
        | inr f ↦ elim (Bool-cases (text_eq backend (codes "libcec"))) [
          | inl g ↦ subst P (at (codes "libcec") g) (ground arith, ground arith)
          | inr g ↦ elim (Bool-cases (text_eq backend (codes "auto"))) [
            | inl h ↦ subst P (at (codes "auto") h) (ground arith, ground arith)
            | inr h ↦ (rw (e, f, g, h) refl, rw (e, f, g, h) (ground arith))
          ]
        ]
      ]
    ]
