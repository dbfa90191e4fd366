-- ===== src/Ui/Settings.antt =====
-- src/visiontak_client/ui/kiosk_window.py: the settings of WebKit; src/visiontak_client/branding.py: the
-- logo.
pub mod Available
use visiontak_client.Prelude.{
  ℕ, Bool, true, false, not, Option, none, some, List, [], ◌∷◌, ◌++◌, Text, codes, text_eq, ◌==◌,
  if◌then◌else◌, contains, map, is_empty,
}
use visiontak_client.Config.{Config}

-- WebKit.HardwareAccelerationPolicy
pub data AccelPolicy : Type 0 where
  always never on_demand : AccelPolicy

-- _accel_policy, by whether this WebKit has ON_DEMAND
unfoldable pub accel_policy : Bool → Text → AccelPolicy
accel_policy has_on_demand mode =
    if text_eq mode (codes "always")
    then always
    else if text_eq mode (codes "never")
    then never
    else if has_on_demand
    then on_demand
    else always

pub data Setting : Type 0 where
  flag : Bool → Setting
  acceleration : AccelPolicy → Setting

-- `wanted` of _build_web_settings
unfoldable pub wanted_settings : Bool → Config → List (Text × Setting)
unfolding accel_policy
wanted_settings has_on_demand config =
    (codes "enable_developer_extras", flag false)
    ∷ (codes "enable_write_console_messages_to_stdout", flag false)
    ∷ (codes "javascript_can_open_windows_automatically", flag false)
    ∷ (codes "enable_back_forward_navigation_gestures", flag false)
    ∷ (codes "enable_html5_database", flag true)
    ∷ (codes "enable_html5_local_storage", flag true)
    ∷ (
      codes "hardware_acceleration_policy",
      acceleration (accel_policy has_on_demand config.hardware_acceleration),
    )
    ∷ (codes "enable_page_cache", flag false)
    ∷ (codes "enable_media_stream", flag false)
    ∷ (codes "enable_smooth_scrolling", flag false)
    ∷ (codes "media_playback_requires_user_gesture", flag false)
    ∷ (codes "enable_webgl", flag (not (text_eq config.hardware_acceleration (codes "never"))))
    ∷ []

-- p.name.replace("-", "_")
unfoldable pub python_name : Text → Text
python_name = map (λ c. if c == b'-' then b'_' else c)

-- {k: v for k, v in wanted.items() if k in available}
unfoldable pub keep_available : List Text → List (Text × Setting) → List (Text × Setting)
keep_available available [] = []
keep_available available ((k, v) ∷ wanted) =
    let rest = keep_available available wanted in
    if contains k available then (k, v) ∷ rest else rest

-- _build_web_settings, by the names that list_properties() gives: the arguments of WebKit.Settings
unfoldable pub build_web_settings : Bool → List Text → Config → List (Text × Setting)
unfolding wanted_settings keep_available python_name
build_web_settings has_on_demand properties config =
    keep_available (map python_name properties) (wanted_settings has_on_demand config)

-- The candidates of logo_path, by SNAP and by the directory above the package.
unfoldable pub logo_candidates : Option Text → Text → List Text
logo_candidates none checkout = (checkout ++ codes "/assets/visiontak-logo.png") ∷ []
logo_candidates (some snap) checkout =
    if is_empty snap
    then (checkout ++ codes "/assets/visiontak-logo.png") ∷ []
    else (snap ++ codes "/assets/visiontak-logo.png")
      ∷ (checkout ++ codes "/assets/visiontak-logo.png")
      ∷ []

unfoldable pub first_file : (Text → Bool) → List Text → Option Text
first_file is_file [] = none
first_file is_file (path ∷ paths) = if is_file path then some path else first_file is_file paths

-- logo_path, by path.is_file()
unfoldable pub logo_path : (Text → Bool) → Option Text → Text → Option Text
unfolding logo_candidates first_file
logo_path is_file snap checkout = first_file is_file (logo_candidates snap checkout)
