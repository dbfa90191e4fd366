-- ===== src/Cec/Reader.antt =====
-- src/visiontak_client/cec/__init__.py: CecReader, over any backend of cec/base.py.
pub mod Lifetime
use visiontak_client.Prelude.{ℕ, Bool, true, false, List, [], ◌∷◌, ◌++◌, if◌then◌else◌}
use visiontak_client.Python.{Unicode, Result, ok, raise, cec_error, os_error}
use visiontak_client.Cec.Base.{CecEvent}
use visiontak_client.Cec.Libcec as L

-- CecBackend: its methods on a state `S`, each with what the adapter answers, `A`. close() never lets an
-- exception through to the reader.
pub record CecBackend (S A : Type 0) : Type 0 where
  pub opened : A → S → S × Result (Unit {0})
  pub announced : A → S → S × Result (Unit {0})
  pub polled : A → S → S × Result (List CecEvent)
  pub closed : S → S

-- Where the thread stands: before open(), in the wait before another try, before announce(), in the
-- pump, at its end, or at an exception that nothing caught.
pub data Phase : Type 0 where
  starting waiting announcing pumping ended crashed : Phase

-- CecReader: `handed` are the events that the callback got so far. What the callback raises is caught.
pub record Reader (S : Type 0) : Type 0 where
  pub backend : S
  pub stopping : Bool
  pub phase : Phase
  pub handed : List CecEvent

module _ {S A : Type 0} (b : CecBackend S A) where
  -- start()
  unfoldable pub start : Reader S → Reader S
  start r = record r { stopping = false; phase = starting }

  -- stop(), up to the join
  unfoldable pub stop_reader : Reader S → Reader S
  stop_reader r = record r { stopping = true; backend = b.closed r.backend }

  abbrev pub after_open : S × Result (Unit {0}) → Reader S → Reader S
  after_open (s, ok x) r = record r { backend = s; phase = announcing }
  after_open (s, raise cec_error) r = record r { backend = s; phase = waiting }
  after_open (s, raise e) r = record r { backend = s; phase = crashed }

  abbrev pub after_announce : S × Result (Unit {0}) → Reader S → Reader S
  after_announce (s, ok x) r = record r { backend = s; phase = pumping }
  after_announce (s, raise e) r = record r { backend = s; phase = crashed }

  abbrev pub after_poll : S × Result (List CecEvent) → Reader S → Reader S
  after_poll (s, ok events) r = record r { backend = s; handed = r.handed ++ events }
  after_poll (s, raise os_error) r = record r { backend = b.closed s; phase = starting }
  after_poll (s, raise e) r = record r { backend = s; phase = crashed }

  abbrev pub advance_from : Phase → A → Reader S → Reader S
  advance_from starting a r =
      if r.stopping then record r { phase = ended } else after_open (b.opened a r.backend) r
  advance_from waiting a r =
      if r.stopping then record r { phase = ended } else record r { phase = starting }
  advance_from announcing a r = after_announce (b.announced a r.backend) r
  advance_from pumping a r =
      if r.stopping then record r { phase = starting } else after_poll (b.polled a r.backend) r
  advance_from ended a r = r
  advance_from crashed a r = r

  -- _run and _pump, up to the next call of the backend and over it
  unfoldable pub advance : A → Reader S → Reader S
  advance a r = advance_from r.phase a r

  -- What happens to a reader: its thread goes on, or stop() is called.
  pub data Happening : Type 0 where
    goes_on : A → Happening
    is_stopped : Happening

  unfoldable pub happens : List Happening → Reader S → Reader S
  unfolding advance stop_reader
  happens [] r = r
  happens (goes_on a ∷ hs) r = happens hs (advance a r)
  happens (is_stopped ∷ hs) r = happens hs (stop_reader r)

-- What libcec answers: whether the module imports, whether cec.init succeeds, and the callbacks that
-- come before the next poll.
pub record Answer : Type 0 where
  pub imports : Bool
  pub starts : Bool
  pub callbacks : List L.Callback

-- LibCecBackend as a backend, by whether cec.add_callback takes the callbacks. An exception of set_active_source is caught.
abbrev pub libcec : Unicode → Bool → CecBackend L.Backend Answer
libcec u registers = record {
  opened = λ a s. L.open_backend a.imports registers a.starts s;
  announced = λ a s. (s, ok tt);
  polled = λ a s. ((L.poll (L.called u a.callbacks s)).0, ok (L.poll (L.called u a.callbacks s)).1);
  closed = L.close;
}
