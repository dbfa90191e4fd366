-- ===== src/Ui/MainLoop.antt =====
-- The timeouts of the GLib main loop: GLib.timeout_add_seconds, GLib.source_remove and the removal
-- of a source whose callback returns SOURCE_REMOVE. A source id is never 0.
use visiontak_client.Prelude.{ℕ, suc, List, [], ◌∷◌, ◌==◌, if◌then◌else◌}

-- What a timeout calls back.
pub data Callback : Type 0 where
  hide_toast rotate : Callback

pub record MainLoop : Type 0 where
  pub next : ℕ
  pub timers : List (ℕ × Callback)

abbrev pub init : MainLoop
init = record { next = 1; timers = [] }

-- The id of the source is `next` before the call.
unfoldable pub timeout_add : Callback → MainLoop → MainLoop
timeout_add c l = record { next = suc l.next; timers = (l.next, c) ∷ l.timers }

unfoldable pub drop_timer : ℕ → List (ℕ × Callback) → List (ℕ × Callback)
drop_timer id [] = []
drop_timer id ((k, c) ∷ ts) = let rest = drop_timer id ts in if k == id then rest else (k, c) ∷ rest

unfoldable pub source_remove : ℕ → MainLoop → MainLoop
unfolding drop_timer
source_remove id l = record l { timers = drop_timer id l.timers }
