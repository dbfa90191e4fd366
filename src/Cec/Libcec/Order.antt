-- ===== src/Cec/Libcec/Order.antt =====
-- The queue of cec/libcec.py keeps the order of the callbacks.
use visiontak_client.Prelude.{
  ◌≡◌, refl, arith, ap, sym, ◌∙◌, List, [], ◌∷◌, ◌++◌, Text, codes, none, some, ◌==◌, if◌then◌else◌,
  get_elem?,
}
use mathlib.Core.List.{append_assoc, append-nil}
use visiontak_client.Python.{Unicode, split_on}
use visiontak_client.Cec.Base.{CecEvent, CecEventKind}
use visiontak_client.Cec.Libcec.{
  Backend, Callback, key, command, called, on_key, on_command, poll, is_standby,
}

-- The event that a callback stands for: a press for a key of duration 0, a release for another, and
-- the standby of the television for a command with the opcode 36.
abbrev pub meaning : Unicode → Callback → List CecEvent
meaning u (key k d) =
    record {
      kind = if d == 0 then CecEventKind.key_press else CecEventKind.key_release;
      key_code = some k;
      detail = [];
    }
    ∷ []
meaning u (command c) =
    if is_standby u (get_elem? (split_on b':' c) 1)
    then record { kind = CecEventKind.standby; key_code = none; detail = codes "tv standby" } ∷ []
    else []

abbrev pub meanings : Unicode → List Callback → List CecEvent
meanings u [] = []
meanings u (c ∷ cs) = meaning u c ++ meanings u cs

events-on_command :
    (u : Unicode) (c : Text) (b : Backend)
    → (on_command u c b).events ≡ b.events ++ meaning u (command c)
unfolding on_command
events-on_command u c b = ground (arith, append-nil b.events)

events-called :
    (u : Unicode) (cs : List Callback) (b : Backend)
    → (called u cs b).events ≡ b.events ++ meanings u cs
unfolding called on_key
events-called u [] b = sym (append-nil b.events)
events-called u (key k d ∷ cs) b =
    events-called u cs (on_key k d b) ∙ append_assoc b.events (meaning u (key k d)) (meanings u cs)
events-called u (command c ∷ cs) b =
    events-called u cs (on_command u c b)
    ∙ ap (λ l. l ++ meanings u cs) (events-on_command u c b)
    ∙ append_assoc b.events (meaning u (command c)) (meanings u cs)

-- Whatever callbacks libcec makes, poll returns what was queued before them and then one event for
-- each of them that means something, in their order, none twice, and leaves the queue empty.
pub poll-called :
    (u : Unicode) (cs : List Callback) (b : Backend)
    → ((poll (called u cs b)).1 ≡ b.events ++ meanings u cs)
      × ((poll (called u cs b)).0.events ≡ [])
unfolding poll
poll-called u cs b = (events-called u cs b, refl)
