-- ===== src/Controller.antt =====
-- src/visiontak_client/controller.py: the state of KioskController, its window included, and the calls
-- that it puts on the main loop and on timers. A handler runs as one step, whichever thread it is on.
pub mod Refresh
pub mod Carousel
pub mod Enrolment
pub mod Events
pub mod System
use visiontak_client.Prelude.{
  ℕ, zero, suc, ◌+◌, ◌*◌, Bool, true, false, not, ◌||◌, Option, none, some, List, [], ◌∷◌, ◌++◌,
  Text, ℤ, pos, negsuc, if◌then◌else◌, ◌==◌,
}
use visiontak_client.Config.{Config}
use visiontak_client.Config.Checks.{is_nonzero}
use visiontak_client.Api.{ClientConfig}
use visiontak_client.Actions.{AnyAction}
use visiontak_client.Ui.Window.{Window}
use visiontak_client.Ui.Window.Runs.{Call}

-- What a threading.Timer runs.
pub data Job : Type 0 where
  refresh registration : Job

-- threading.Timer, with its delay in milliseconds.
pub record Timer : Type 0 where
  pub delay : ℤ
  pub job : Job

-- What idle() puts on the main loop: a method of the window, _apply of a fresh configuration, or
-- _dispatch.
pub data Idle : Type 0 where
  window_call : Call → Idle
  apply_config : ClientConfig → Idle
  dispatch_action : AnyAction → Idle

-- `timers` are the timers that were started and have neither fired nor been cancelled, by their ids,
-- `refresh_timer` and `registration_timer` the ones that the controller holds; `workers` counts the
-- threads of _register_from_setup that are yet to run; `client` are the settings of the REST client;
-- `cache` is the cache file.
pub record Kiosk : Type 0 where
  pub config : Config
  pub client : Config
  pub window : Window
  pub cache : Option Text
  pub server_default : Option Text
  pub stopped : Bool
  pub rotating : Bool
  pub rotate_source : ℕ
  pub next_timer : ℕ
  pub timers : List (ℕ × Timer)
  pub refresh_timer : Option ℕ
  pub registration_timer : Option ℕ
  pub idle_queue : List Idle
  pub workers : ℕ
  pub reading : Bool

-- KioskController(config), attached to a window.
unfoldable pub init : Config → Option Text → Window → Kiosk
init config cache window = record {
  config = config;
  client = config;
  window = window;
  cache = cache;
  server_default = none;
  stopped = false;
  rotating = is_nonzero config.rotate_interval;
  rotate_source = 0;
  next_timer = 0;
  timers = [];
  refresh_timer = none;
  registration_timer = none;
  idle_queue = [];
  workers = 0;
  reading = false;
}

-- idle(callback, …)
unfoldable pub idle : Idle → Kiosk → Kiosk
idle i k = record k { idle_queue = k.idle_queue ++ i ∷ [] }

-- Seconds in milliseconds.
unfoldable pub seconds : ℤ → ℤ
seconds (pos n) = pos (n * 1000)
seconds (negsuc n) = negsuc (n * 1000 + 999)

unfoldable pub drop_timer : ℕ → List (ℕ × Timer) → List (ℕ × Timer)
drop_timer id [] = []
drop_timer id ((i, t) ∷ ts) = let rest = drop_timer id ts in if i == id then rest else (i, t) ∷ rest

-- timer.cancel(), if there is a timer; one that has fired is not there any more.
unfoldable pub cancel : Option ℕ → Kiosk → Kiosk
unfolding drop_timer
cancel none k = k
cancel (some id) k = record k { timers = drop_timer id k.timers }

unfoldable pub start_timer : ℤ → Job → Kiosk → Kiosk
start_timer delay job k = record k {
  next_timer = suc k.next_timer;
  timers = (k.next_timer, record { delay = delay; job = job }) ∷ k.timers;
}
