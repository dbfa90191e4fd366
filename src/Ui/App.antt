-- ===== src/Ui/App.antt =====
-- src/visiontak_client/ui/app.py: the environment, the first activation and the keyboard.
use visiontak_client.Prelude.{
  Bool, true, false, Option, none, some, List, Text, codes, if◌then◌else◌, assign, has_key,
}
use visiontak_client.Python.{Unicode, Result, ok, ◌>>=◌}
use visiontak_client.Platform.{Platform}
use visiontak_client.Json.{Json}
use visiontak_client.Config.{Config}
use visiontak_client.Actions.{AnyAction}
use visiontak_client.Cec.Choice.{Chosen}
use visiontak_client.Cec.Keymap.{action_for_key_name}
use visiontak_client.Ui.Window.{Window}
use visiontak_client.Ui.Window.Create.{create}
use visiontak_client.Ui.Window.Handle.{handle_action}
use visiontak_client.Controller as C
use visiontak_client.Controller.{Kiosk}
use visiontak_client.Controller.Events.{attach}

-- os.environ.setdefault(key, value)
unfoldable pub set_env_default : Text → Text → List (Text × Text) → List (Text × Text)
set_env_default key value env = if has_key key env then env else assign key value env

unfoldable pub enforce_wayland : List (Text × Text) → List (Text × Text)
unfolding set_env_default
enforce_wayland env = set_env_default (codes "WEBKIT_FORCE_SANDBOX") (codes "0") (
    set_env_default (codes "WAYLAND_DISPLAY") (codes "wayland-0")
      (assign (codes "GDK_BACKEND") (codes "wayland") env))

module _ (u : Unicode) (p : Platform) where
  -- do_activate with a controller set: the window is made and attached the first time only. `kiosk` is
  -- the controller with its window, none before.
  unfoldable pub do_activate :
      (Json → Text)
      → (Text → Result Json)
      → Option Text
      → Option Text
      → Chosen
      → Config
      → Option Kiosk
      → Result (Option Kiosk)
  do_activate repr loads cache detail chosen config none = do
    k ← attach u p repr loads chosen (C.init config cache (create u p detail config))
    ok (some k)
  do_activate repr loads cache detail chosen config (some k) = ok (some k)

  abbrev pub on_window : AnyAction → Option Window → Option Window
  on_window a none = none
  on_window a (some w) = some (handle_action u p a w)

  abbrev pub in_setup : Option Window → Bool
  in_setup none = false
  in_setup (some w) = w.needs_setup

  abbrev pub pressed : Option AnyAction → Option Window → Option Window × Bool
  pressed none w = (w, false)
  pressed (some a) w = (on_window a w, true)

  -- _on_key_pressed, by the name of the key, empty if it has none: the window after it, and whether
  -- the key is claimed.
  unfoldable pub on_key_pressed : Text → Option Window → Result (Option Window × Bool)
  on_key_pressed name w =
      if in_setup w then ok (w, false) else (do a ← action_for_key_name u name; ok (pressed a w))
