-- ===== src/Controller/System.antt =====
-- The client as a system: the controller of controller.py, the window that it drives, its timers, its
-- worker threads and the reader of the remote, in any interleaving.
pub mod Attached
pub mod Clock
pub mod Keeps
pub mod Timeouts
pub mod Timers
pub mod Leaves
pub mod Polling
pub mod Refreshes
use visiontak_client.Prelude.{
  ℕ, ◌<◌, ◌≡◌, Bool, true, false, ◌&&◌, ◌||◌, List, [], ◌∷◌, Text, Option, ◌==◌, ◌≢◌,
}
use visiontak_client.Python.{Unicode, Result, ok}
use visiontak_client.Platform.{Platform}
use visiontak_client.Json.{Json}
use visiontak_client.Config.{Config}
use visiontak_client.Api.{ClientConfig}
use visiontak_client.Enrol.{attempt_registration}
use visiontak_client.Enrol.Token.{IsAnswer}
use visiontak_client.Cec.Base.{CecEvent}
use visiontak_client.Cec.Choice.{Chosen}
use visiontak_client.Ui.Window.Create.{create}
use visiontak_client.Ui.Window.Frame.{is_setup_call}
use visiontak_client.Ui.Window.Runs.{Call, call}
use visiontak_client.Controller.{
  Kiosk, Timer, Job, refresh, registration, Idle, window_call, apply_config, dispatch_action, init,
  drop_timer,
}
use visiontak_client.Controller.Refresh.{refresh_config, apply}
use visiontak_client.Controller.Carousel.{dispatch, rotate}
use visiontak_client.Controller.Enrolment.{submit_setup, register_from_setup, poll_registration}
use visiontak_client.Controller.Events.{on_cec_event, stop, attach}

abbrev pub same_job : Job → Job → Bool
same_job refresh refresh = true
same_job registration registration = true
same_job i j = false

-- The timer with an id and a job is running.
abbrev pub is_due : ℕ → Job → List (ℕ × Timer) → Bool
is_due id j [] = false
is_due id j ((i, t) ∷ ts) = (i == id && same_job t.job j) || is_due id j ts

-- A timer leaves the list as it fires.
abbrev pub fired : ℕ → Kiosk → Kiosk
fired id k = record k { timers = drop_timer id k.timers }

module _ (u : Unicode) (p : Platform) (repr : Json → Text) (loads : Text → Result Json)
    (dumps : Json → Text) where
  unfoldable pub run_idle : Idle → Kiosk → Kiosk
  run_idle (window_call c) k = record k { window = call u p c k.window }
  run_idle (apply_config c) k = apply u p false c k
  run_idle (dispatch_action a) k = dispatch u p a k

  -- One step: the main loop runs the first call of the queue; GTK or WebKit calls a method of the
  -- window; an address is submitted while the setup field takes input; a worker of the setup screen or
  -- a timer runs, with whatever the server answers; the carousel's timeout fires; the remote sends an
  -- event; the process is told to stop.
  pub data Step (k : Kiosk) : Kiosk → Type 0 where
    idle_runs :
        (i : Idle) (rest : List Idle)
        → k.idle_queue ≡ i ∷ rest
        → Step k (run_idle i (record k { idle_queue = rest }))
    signal :
        (c : Call) → is_setup_call c ≡ false → Step k (record k { window = call u p c k.window })
    submitted :
        (exc : Text → Option Text) (text : Text)
        → k.window.needs_setup ≡ true
        → k.window.setup.sensitive ≡ true
        → Step k (submit_setup u exc text k)
    worker_runs :
        (exchange : Json → Result Json)
        → ((body : Json) → IsAnswer (exchange body))
        → 0 < k.workers
        → Step k (register_from_setup (attempt_registration repr exchange k.config) k)
    refresh_fires :
        (id : ℕ) (reply : Result ClientConfig) (saved : Bool)
        → is_due id refresh k.timers ≡ true
        → Step k (refresh_config dumps saved reply (fired id k))
    poll_fires :
        (id : ℕ) (exchange : Json → Result Json)
        → ((body : Json) → IsAnswer (exchange body))
        → is_due id registration k.timers ≡ true
        → Step k (poll_registration (attempt_registration repr exchange k.config) (fired id k))
    carousel_fires : k.rotate_source ≢ 0 → Step k (rotate u p k)
    remote : (e : CecEvent) → Step k (on_cec_event e k)
    stops : Step k (stop k)

  -- The states that a start with some settings, cache file and backend may lead to.
  pub data Reach (config : Config) (cache detail : Option Text) (chosen : Chosen)
      : Kiosk → Type 0 where
    attached :
        {k : Kiosk}
        → attach u p repr loads chosen (init config cache (create u p detail config)) ≡ ok k
        → Reach config cache detail chosen k
    later :
        {k k' : Kiosk}
        → Reach config cache detail chosen k
        → Step k k'
        → Reach config cache detail chosen k'
