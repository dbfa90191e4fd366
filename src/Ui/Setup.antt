-- ===== src/Ui/Setup.antt =====
-- The labels and the field of src/visiontak_client/ui/setup.py.
pub mod Submit
use visiontak_client.Prelude.{Bool, true, false, Option, none, Text, codes}

pub record SetupScreen : Type 0 where
  pub status : Text
  pub error : Bool
  pub sensitive : Bool
  pub diagnostic : Option Text

abbrev pub init : SetupScreen
init = record {
  status = codes "Type the address and press Enter";
  error = false;
  sensitive = true;
  diagnostic = none;
}

unfoldable pub set_status : Text → Bool → SetupScreen → SetupScreen
set_status message error s = record s { status = message; error = error }

unfoldable pub reset_for_retry : SetupScreen → SetupScreen
reset_for_retry s = record s { sensitive = true }
