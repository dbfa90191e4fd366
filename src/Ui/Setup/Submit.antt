-- ===== src/Ui/Setup/Submit.antt =====
-- src/visiontak_client/ui/setup.py: _submit, with _on_setup_submit of ui/kiosk_window.py behind it.
use visiontak_client.Prelude.{true, false, Option, none, some, [], ◌∷◌, Text, codes, ◌++◌}
use visiontak_client.Python.{Unicode, Result, ok, raise}
use visiontak_client.Config.Address.{normalise_server_url}
use visiontak_client.Ui.Setup
use visiontak_client.Ui.Setup.{SetupScreen}

-- _on_setup_submit, by the text of the exception of persist, none if it saved: the error to show.
unfoldable pub save_error : Option Text → Option Text
save_error none = none
save_error (some exc) = some (codes "Could not save: " ++ exc)

-- The screen once the address is handed on, and after the answer.
abbrev pub saving : Text → SetupScreen → SetupScreen
saving url s = record (Setup.set_status (codes "Saving " ++ url ++ codes "…") false s) {
  sensitive = false;
}

abbrev pub with_answer : Text → Option Text → SetupScreen → SetupScreen × Option Text
with_answer url none s = (s, some url)
with_answer url (some error) s = (Setup.set_status error true (record s { sensitive = true }), none)

abbrev pub with_address :
    (Text → Option Text) → Result Text → SetupScreen → SetupScreen × Option Text
with_address exc (raise e) s = (s, none)
with_address exc (ok []) s =
    (Setup.set_status (codes "That does not look like an address") true s, none)
with_address exc (ok (c ∷ url)) s =
    with_answer (c ∷ url) (save_error (exc (c ∷ url))) (saving (c ∷ url) s)

-- _submit: the screen after it, and the address that the controller is given to enrol with. An
-- exception of the callback is printed by GTK and changes nothing.
unfoldable pub submit :
    Unicode → (Text → Option Text) → Text → SetupScreen → SetupScreen × Option Text
unfolding Setup.set_status save_error
submit u exc text s = with_address exc (normalise_server_url u text) s
