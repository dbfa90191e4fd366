-- ===== src/Tests/StartupTests.antt =====
-- Start, keyboard and probe at concrete inputs.
use visiontak_client.Prelude.{
  ℕ, suc, ◌*◌, ◌≡◌, ◌≤◌, ◌⊎◌, arith, Bool, Option, true, false, none, some, [], Text, codes, pos,
  max_zero, is_empty, ◌==◌,
}
use visiontak_client.Python.{ok}
use visiontak_client.Config.{default_config}
use visiontak_client.Api.Request.{Request, Response, http_error}
use visiontak_client.Startup as S
use visiontak_client.Startup.{wait_for_wayland, main}
use visiontak_client.Startup.Waiting.{IsSeen, wait_for_wayland-ends}
use visiontak_client.Startup.Codes.{IsEnd, main-IsEnd}
use visiontak_client.Probe as B
use visiontak_client.Ui.Window.{Window}
use visiontak_client.Ui.Window.Create.{create}
use visiontak_client.Prelude.{List, ◌∷◌, lookup, contains, map, if◌then◌else◌}
use visiontak_client.Ui.Settings.{
  AccelPolicy, acceleration, flag, wanted_settings, python_name, build_web_settings,
}
use visiontak_client.Ui.Settings.Available.{IsConsistent, build_web_settings-IsConsistent}
use visiontak_client.Tests.Samples.{ascii, one_server, base}

-- A clock of 1.5 seconds a round, and a socket that is there at the third look.
abbrev clock : ℕ → ℕ
clock n = 1500 * n

abbrev third : ℕ → Bool
third n = n == 2

clock_is_slow : (n : ℕ) → 1000 * n ≤ clock n
clock_is_slow n = omega arith

wait_for_wayland-ends_example :
    ((is_empty (codes "/run/user/0") ≡ true)
      × (wait_for_wayland (codes "/run/user/0") clock third (pos 5) (suc (max_zero (pos 5)))
          ≡ some false))
    ⊎ ((b : Bool) × ((wait_for_wayland
              (codes "/run/user/0")
              clock
              third
              (pos 5)
              (suc (max_zero (pos 5)))
            ≡ some b)
          × IsSeen clock third (pos 5) 0 b))
wait_for_wayland-ends_example =
    wait_for_wayland-ends clock third (pos 5) (codes "/run/user/0") clock_is_slow

abbrev no_arguments : S.Arguments
no_arguments = record { check_config = false; wayland_wait = pos 60 }

main-IsEnd_example :
    IsEnd ascii
      (codes "1f2e")
      (ok base)
      true
      no_arguments
      (ok default_config)
      (main ascii (codes "1f2e") (ok base) true no_arguments (ok default_config))
main-IsEnd_example = main-IsEnd ascii (codes "1f2e") (ok base) true no_arguments (ok default_config)

abbrev shown : Window
shown = create ascii one_server none (record default_config { server_url = base })

abbrev refusing : ℕ → Request → Response
refusing n r = http_error 403

abbrev takes_all : Text → Bool
takes_all url = true

abbrev no_title : Text → Option Text
no_title page = none

abbrev empty_page : Text → B.Page
empty_page url = B.body []

abbrev probed : B.Arguments
probed = record { base_url = base; token = codes "t"; insecure = false; skip_pages = false }

-- A release that knows two of the properties.
abbrev known : List Text
known = codes "enable-webgl" ∷ codes "enable-page-cache" ∷ []

build_web_settings-IsConsistent_example :
    ((name : Text)
      → lookup name (build_web_settings false known default_config) ≡ (
          if contains name (map python_name known)
          then lookup name (wanted_settings false default_config)
          else none))
    × ((policy : AccelPolicy) × ((webgl : Bool) × ((lookup
                (codes "hardware_acceleration_policy")
                (wanted_settings false default_config)
              ≡ some (acceleration policy))
            × ((lookup (codes "enable_webgl") (wanted_settings false default_config)
                  ≡ some (flag webgl))
                × IsConsistent default_config.hardware_acceleration policy webgl))))
build_web_settings-IsConsistent_example = build_web_settings-IsConsistent false known default_config
