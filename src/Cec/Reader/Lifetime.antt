-- ===== src/Cec/Reader/Lifetime.antt =====
-- How long the thread of CecReader lives.
use visiontak_client.Prelude.{◌≡◌, refl, Bool, true, false, [], ◌∷◌}
use visiontak_client.Python.{Unicode, Result, ok, raise, cec_error, os_error, Exception}
use visiontak_client.Cec.Libcec.{Backend, open_backend}
use visiontak_client.Cec.Reader.{
  CecBackend, Phase, starting, waiting, announcing, pumping, ended, crashed, Reader, stop_reader,
  after_announce, advance, advance_from, goes_on, is_stopped, happens, libcec,
}

-- The exceptions that the reader expects of a backend.
abbrev pub IsRetried : {A : Type 0} → Exception → Result A → Type 0
IsRetried e (ok a) = Unit
IsRetried e (raise x) = x ≡ e

-- open() raises CecError at most, poll() OSError, and announce() nothing.
pub record IsRegular {S A : Type 0} (b : CecBackend S A) : Type 0 where
  pub opens : (a : A) (s : S) → IsRetried cec_error (b.opened a s).1
  pub announces : (a : A) (s : S) → (b.announced a s).1 ≡ ok tt
  pub polls : (a : A) (s : S) → IsRetried os_error (b.polled a s).1

-- The thread has not crashed, and if it has ended, it was stopped.
abbrev pub IsAlive : Phase → Bool → Type 0
IsAlive crashed stopping = ⊥
IsAlive ended stopping = stopping ≡ true
IsAlive phase stopping = Unit

abbrev pub IsOver : Phase → Type 0
IsOver ended = Unit
IsOver crashed = Unit
IsOver phase = ⊥

module _ {S A : Type 0} (b : CecBackend S A) where
  abbrev Alive : Reader S → Type 0
  Alive r = IsAlive r.phase r.stopping

  abbrev stopping_at : Phase → Reader S → Reader S
  stopping_at p r = record r { stopping = true; phase = p }

  announced_ends :
      (x : S × Result (Unit {0})) (a a' : A) (r : Reader S)
      → IsOver
          (advance b a (advance b a' (after_announce b x (record r { stopping = true })))).phase
  unfolding advance
  announced_ends (s, ok x) a a' r = tt
  announced_ends (s, raise e) a a' r = tt

  three_steps :
      (p : Phase) (a a' a'' : A) (r : Reader S)
      → IsOver (advance b a (advance b a' (advance_from b p a'' (stopping_at p r)))).phase
  unfolding advance
  three_steps starting a a' a'' r = tt
  three_steps waiting a a' a'' r = tt
  three_steps announcing a a' a'' r =
      announced_ends (b.announced a'' r.backend) a a' (stopping_at announcing r)
  three_steps pumping a a' a'' r = tt
  three_steps ended a a' a'' r = tt
  three_steps crashed a a' a'' r = tt

  -- Once stop() was called the thread ends with its third call of the backend or wait at the latest,
  -- wherever it stands and whatever the adapter answers.
  pub stop_reader-IsOver :
      (r : Reader S) (a a' a'' : A)
      → IsOver (happens b (is_stopped ∷ goes_on a'' ∷ goes_on a' ∷ goes_on a ∷ []) r).phase
  unfolding happens stop_reader advance
  stop_reader-IsOver r a a' a'' = three_steps r.phase a a' a'' (stop_reader b r)

opened_libcec :
    (imports starts : Bool) (s : Backend)
    → IsRetried cec_error (open_backend imports true starts s).1
unfolding open_backend
opened_libcec false starts s = refl
opened_libcec true false s = refl
opened_libcec true true s = tt

-- libcec keeps to what the reader expects, if cec.add_callback takes the callbacks.
pub libcec-IsRegular : (u : Unicode) → IsRegular (libcec u true)
libcec-IsRegular u = record {
  opens = λ a s. opened_libcec a.imports a.starts s;
  announces = λ a s. refl;
  polls = λ a s. tt;
}
