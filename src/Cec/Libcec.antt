-- ===== src/Cec/Libcec.antt =====
-- src/visiontak_client/cec/libcec.py: the callbacks of libcec, and the queue between them and poll.
pub mod Order
use visiontak_client.Prelude.{
  ℕ, zero, Bool, true, false, Option, none, some, List, [], ◌∷◌, ◌++◌, Text, codes, text_eq, ◌==◌,
  if◌then◌else◌, take, get_elem?, is_empty,
}
use visiontak_client.Python.{Unicode, Result, ok, raise, cec_error, other_exception, split_on}
use visiontak_client.Cec.Base.{CecEvent, CecEventKind}

-- LibCecBackend: `is_open` says whether it holds the module of the bindings, `events` is the queue.
pub record Backend : Type 0 where
  pub device : Text
  pub osd_name : Text
  pub events : List CecEvent
  pub is_open : Bool
  pub closed : Bool

unfoldable pub init : Text → Text → Backend
init device osd_name = record {
  device = device;
  osd_name = take 14 osd_name;
  events = [];
  is_open = false;
  closed = false;
}

-- open(), by whether the module imports, whether cec.add_callback takes the two callbacks, whose
-- exceptions are not caught, and whether cec.init succeeds. Where it fails the module is kept all the
-- same.
unfoldable pub open_backend : Bool → Bool → Bool → Backend → Backend × Result (Unit {0})
open_backend false registers starts b = (b, raise cec_error)
open_backend true false starts b = (record b { is_open = true }, raise other_exception)
open_backend true true false b = (record b { is_open = true }, raise cec_error)
open_backend true true true b = (record b { is_open = true; closed = false }, ok tt)

abbrev put : CecEvent → Backend → Backend
put e b = record b { events = b.events ++ e ∷ [] }

-- _on_key
unfoldable pub on_key : ℕ → ℕ → Backend → Backend
on_key key duration b =
    put
      (record {
        kind = if duration == 0 then CecEventKind.key_press else CecEventKind.key_release;
        key_code = some key;
        detail = [];
      })
      b

-- parts[1], if there is one, lowered, is "36".
abbrev is_standby : Unicode → Option Text → Bool
is_standby u none = false
is_standby u (some part) = text_eq (u.lower part) (codes "36")

-- _on_command
unfoldable pub on_command : Unicode → Text → Backend → Backend
unfolding split_on
on_command u command b =
    if is_standby u (get_elem? (split_on b':' command) 1)
    then put (record { kind = CecEventKind.standby; key_code = none; detail = codes "tv standby" })
        b
    else b

-- poll(): all that is queued, or nothing if the wait for the first event times out. No callback
-- comes between the gets.
unfoldable pub poll : Backend → Backend × List CecEvent
poll b = (record b { events = [] }, b.events)

-- close()
unfoldable pub close : Backend → Backend
close b =
    put (record { kind = CecEventKind.adapter_lost; key_code = none; detail = codes "closing" })
      (record b { closed = true; is_open = false })

-- A callback of libcec.
pub data Callback : Type 0 where
  key : ℕ → ℕ → Callback
  command : Text → Callback

unfoldable pub called : Unicode → List Callback → Backend → Backend
called u [] b = b
called u (key k d ∷ cs) b = called u cs (on_key k d b)
called u (command c ∷ cs) b = called u cs (on_command u c b)
