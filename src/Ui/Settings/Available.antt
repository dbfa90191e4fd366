-- ===== src/Ui/Settings/Available.antt =====
-- What WebKit.Settings is given by ui/kiosk_window.py.
use visiontak_client.Prelude.{
  ◌≡◌, refl, arith, Bool, true, false, not, none, some, List, [], ◌∷◌, Text, codes, text_eq,
  text_eq_iff, if◌then◌else◌, contains, map, lookup, Bool-cases, inl, inr, ◌⊎◌, ◌∙◌, if_keeps, ap,
}
use visiontak_client.Config.{Config}
use visiontak_client.Ui.Settings.{
  AccelPolicy, never, accel_policy, Setting, flag, acceleration, wanted_settings, python_name,
  keep_available, build_web_settings,
}

lookup-keep_available :
    (name : Text) (available : List Text) (wanted : List (Text × Setting))
    → lookup name (keep_available available wanted)
      ≡ (if contains name available then lookup name wanted else none)
unfolding keep_available lookup
lookup-keep_available name available [] = ground arith
lookup-keep_available name available ((k, v) ∷ wanted) = elim (Bool-cases (text_eq k name)) [
  | inl e ↦
      let same = ap (λ n. contains n available) ((text_eq_iff k name).0 e) in
      ground (arith, e, same, lookup-keep_available name available wanted)
  | inr e ↦ ground (arith, e, lookup-keep_available name available wanted)
]

webgl_wanted :
    (has_on_demand : Bool) (config : Config)
    → lookup (codes "enable_webgl") (wanted_settings has_on_demand config)
      ≡ some (flag (not (text_eq config.hardware_acceleration (codes "never"))))
unfolding lookup wanted_settings text_eq
webgl_wanted has_on_demand config = refl

policy_wanted :
    (has_on_demand : Bool) (config : Config)
    → lookup (codes "hardware_acceleration_policy") (wanted_settings has_on_demand config)
      ≡ some (acceleration (accel_policy has_on_demand config.hardware_acceleration))
unfolding lookup wanted_settings text_eq
policy_wanted has_on_demand config = refl

-- The software path: WebGL off and acceleration off, or both on.
abbrev pub IsConsistent : Text → AccelPolicy → Bool → Type 0
IsConsistent mode policy webgl =
    ((mode ≡ codes "never") × ((policy ≡ never) × (webgl ≡ false)))
    ⊎ (¬ (mode ≡ codes "never") × (¬ (policy ≡ never) × (webgl ≡ true)))

is_never : AccelPolicy → Bool
is_never never = true
is_never p = false

never_only :
    (has_on_demand : Bool) (mode : Text)
    → text_eq mode (codes "never") ≡ false
    → is_never (accel_policy has_on_demand mode) ≡ false
unfolding accel_policy is_never
never_only has_on_demand mode e =
    if_keeps (λ (p : AccelPolicy). is_never p ≡ false) (text_eq mode (codes "always")) (λ q. refl)
      (λ q.
        if_keeps (λ (p : AccelPolicy). is_never p ≡ false) (text_eq mode (codes "never"))
          (λ r. cc (e, r))
          (λ r.
            if_keeps (λ (p : AccelPolicy). is_never p ≡ false) has_on_demand (λ x. refl)
              (λ x. refl)))

never_policy : (has_on_demand : Bool) → accel_policy has_on_demand (codes "never") ≡ never
unfolding accel_policy text_eq
never_policy has_on_demand = refl

differs : (p : AccelPolicy) → is_never p ≡ false → p ≡ never → ⊥
unfolding is_never
differs p e q = cc (ap is_never q, e)

consistent :
    (has_on_demand : Bool) (mode : Text)
    → IsConsistent mode (accel_policy has_on_demand mode) (not (text_eq mode (codes "never")))
consistent has_on_demand mode = elim (Bool-cases (text_eq mode (codes "never"))) [
  | inl e ↦
      let m = (text_eq_iff mode (codes "never")).0 e in
      inl (m, (ap (accel_policy has_on_demand) m ∙ never_policy has_on_demand, ap not e))
  | inr e ↦ inr (
    (λ m. cc (e, (text_eq_iff mode (codes "never")).1 m)),
    (differs (accel_policy has_on_demand mode) (never_only has_on_demand mode e), ap not e),
  )
]

-- Whatever properties a release of WebKit has, WebKit.Settings is given only names that it knows, each
-- with the value that is wanted for it, and every wanted one that it knows. WebGL and the acceleration
-- policy that are wanted agree: both are off exactly when the settings of the client say "never".
pub build_web_settings-IsConsistent :
    (has_on_demand : Bool) (properties : List Text) (config : Config)
    → ((name : Text)
        → lookup name (build_web_settings has_on_demand properties config) ≡ (
            if contains name (map python_name properties)
            then lookup name (wanted_settings has_on_demand config)
            else none))
      × ((policy : AccelPolicy) × ((webgl : Bool) × ((lookup
                  (codes "hardware_acceleration_policy")
                  (wanted_settings has_on_demand config)
                ≡ some (acceleration policy))
              × ((lookup (codes "enable_webgl") (wanted_settings has_on_demand config)
                    ≡ some (flag webgl))
                  × IsConsistent config.hardware_acceleration policy webgl))))
unfolding build_web_settings
build_web_settings-IsConsistent has_on_demand properties config = (
  (λ name.
      lookup-keep_available name (map python_name properties)
        (wanted_settings has_on_demand config)),
  (
    accel_policy has_on_demand config.hardware_acceleration,
    (
      not (text_eq config.hardware_acceleration (codes "never")),
      (
        policy_wanted has_on_demand config,
        (webgl_wanted has_on_demand config, consistent has_on_demand config.hardware_acceleration),
      ),
    ),
  ),
)
