-- ===== src/Startup.antt =====
-- src/visiontak_client/__main__.py: waiting for the compositor, and what main does up to the start of
-- the application.
pub mod Waiting
pub mod Codes
use visiontak_client.Prelude.{
  ℕ, zero, suc, Bool, true, false, not, ◌&&◌, Option, none, some, Text, ℤ, pos, ltb_ℤ,
  if◌then◌else◌, is_empty,
}
use visiontak_client.Python.{Unicode, Result, ok, raise, ◌>>=◌, value_error, json_error}
use visiontak_client.Config.{Config}
use visiontak_client.Config.Address.{ensure_device_id}
use visiontak_client.Controller.{seconds}
use visiontak_client.Enrol.{discover}

-- The loop of wait_for_wayland, its look `i` and those after it, by the milliseconds from the start to
-- each look and by whether the socket is there; none if the fuel does not last.
unfoldable pub look : (ℕ → ℕ) → (ℕ → Bool) → ℤ → ℕ → ℕ → Option Bool
look elapsed is_there timeout zero i = none
look elapsed is_there timeout (suc fuel) i =
    let later = look elapsed is_there timeout fuel (suc i) in
    if ltb_ℤ (pos (elapsed i)) (seconds timeout)
    then (if is_there i then some true else later)
    else some (is_there i)

-- wait_for_wayland, by XDG_RUNTIME_DIR
unfoldable pub wait_for_wayland : Text → (ℕ → ℕ) → (ℕ → Bool) → ℤ → ℕ → Option Bool
unfolding look
wait_for_wayland runtime_dir elapsed is_there timeout fuel =
    if is_empty runtime_dir then some false else look elapsed is_there timeout fuel 0

-- The arguments of the command line that matter.
pub record Arguments : Type 0 where
  pub check_config : Bool
  pub wayland_wait : ℤ

-- What main comes to: a code that it returns, or the application with its settings.
pub data Outcome : Type 0 where
  exits : ℕ → Outcome
  runs : Config → Outcome

-- `discover(cfg)`, where it is asked for, by what DHCP offers
abbrev pub found_server : Result Text → Config → Result Config
found_server offer cfg =
    if is_empty cfg.server_url && cfg.dhcp_discovery
    then (do url ← offer; ok (discover url cfg).0)
    else ok cfg

-- The settings of a first boot.
unfoldable pub first_boot : Unicode → Text → Result Text → Config → Result Config
unfolding ensure_device_id discover
first_boot u uuid offer cfg = found_server offer (ensure_device_id u uuid cfg).0

-- From the import of the controller on.
abbrev pub with_display : Bool → Config → Outcome
with_display display cfg = if display then runs cfg else exits 1

abbrev pub with_config : Unicode → Text → Result Text → Bool → Arguments → Config → Result Outcome
with_config u uuid offer display args cfg =
    if args.check_config
    then ok (exits 0)
    else (do booted ← first_boot u uuid offer cfg; ok (with_display display booted))

-- `except ValueError`, which takes the JSONDecodeError and the UnicodeDecodeError of load too.
abbrev pub with_loaded :
    Unicode → Text → Result Text → Bool → Arguments → Result Config → Result Outcome
with_loaded u uuid offer display args (ok cfg) = with_config u uuid offer display args cfg
with_loaded u uuid offer display args (raise value_error) = ok (exits 2)
with_loaded u uuid offer display args (raise json_error) = ok (exits 2)
with_loaded u uuid offer display args (raise e) = raise e

-- main, by the settings that load gives, a fresh UUID, the server that DHCP offers, and whether the
-- compositor is there in time
unfoldable pub main :
    Unicode → Text → Result Text → Bool → Arguments → Result Config → Result Outcome
unfolding first_boot
main u uuid offer display args loaded = with_loaded u uuid offer display args loaded
