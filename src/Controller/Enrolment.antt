-- ===== src/Controller/Enrolment.antt =====
-- src/visiontak_client/controller.py: enrolment, from the setup screen and in the background.
use visiontak_client.Prelude.{
  suc, ◌-◌, Bool, true, false, not, ◌&&◌, ◌||◌, Option, none, some, Text, codes, ◌++◌, [], ℤ, pos,
  if◌then◌else◌, is_empty,
}
use visiontak_client.Ui.Setup.Submit.{submit}
use visiontak_client.Python.{Unicode, Result, ok, raise}
use visiontak_client.Config.{Config}
use visiontak_client.Enrol.{Registration, Attempt, is_pending, is_approved}
use visiontak_client.Ui.Window.Runs.{setup_message, setup_done, enrolment}
use visiontak_client.Controller.{Kiosk, Job, window_call, idle, start_timer}
use visiontak_client.Controller.Refresh.{schedule_refresh}

-- _configure_from_setup, up to the start of the worker
unfoldable pub configure_from_setup : Text → Kiosk → Kiosk
unfolding idle
configure_from_setup url k =
    let config = record k.config { server_url = url } in
    record (idle (window_call (setup_message (codes "Registering with the server…") false))
      (record k { config = config; client = config })) { workers = suc k.workers }

-- What the controller does with the address that the setup screen hands on.
abbrev pub configured : Option Text → Kiosk → Kiosk
configured none k = k
configured (some url) k = configure_from_setup url k

-- The address is submitted on the setup screen.
unfoldable pub submit_setup : Unicode → (Text → Option Text) → Text → Kiosk → Kiosk
unfolding submit configure_from_setup
submit_setup u exc text k =
    let after = submit u exc text k.window.setup in
    configured after.1 (record k { window = record k.window { setup = after.0 } })

-- The lines of _start_registration that make the timer, and of _poll_registration.
unfoldable pub start_poll : ℤ → Kiosk → Kiosk
unfolding start_timer
start_poll delay k = record (start_timer delay Job.registration k) {
  registration_timer = some k.next_timer;
}

-- _start_registration
unfoldable pub start_registration : Kiosk → Kiosk
unfolding start_poll
start_registration k =
    if is_empty k.config.server_url || not (is_empty k.config.api_token)
    then k
    else start_poll (pos 500) k

abbrev pub approved_with_token : Registration → Config → Bool
approved_with_token r config = is_approved r && not (is_empty config.api_token)

-- The branches of _register_from_setup, by the answer; `k` has the new settings.
abbrev pub registered_with : Option Registration → Kiosk → Kiosk
registered_with none k =
    idle
      (window_call (
        setup_message (codes "Saved, but " ++ k.config.server_url ++ codes " did not answer") true))
      k
registered_with (some r) k =
    if approved_with_token r k.config
    then schedule_refresh (pos 500) (
        idle (window_call setup_done) (
          idle (window_call (setup_message (codes "Approved — starting up") false))
            (record k { client = k.config })))
    else start_registration (
        idle (window_call (enrolment (codes "Waiting for approval on the server"))) (
          idle (window_call setup_done) (
            idle (window_call (setup_message (codes "Registered — waiting for approval") false))
              k)))

-- _register_from_setup, after attempt_registration has returned
unfoldable pub registered_from_setup : Attempt → Kiosk → Kiosk
unfolding idle schedule_refresh start_registration
registered_from_setup a k = registered_with a.answer (record k { config = a.config })

-- A worker runs; an exception that attempt_registration lets through ends its thread.
unfoldable pub register_from_setup : Result Attempt → Kiosk → Kiosk
unfolding registered_from_setup
register_from_setup (ok a) k = registered_from_setup a (record k { workers = k.workers - 1 })
register_from_setup (raise e) k = record k { workers = k.workers - 1 }

-- What _poll_registration shows before it polls again.
unfoldable pub show_progress : Registration → Kiosk → Kiosk
unfolding idle
show_progress r k =
    if is_pending r
    then idle (window_call (enrolment (codes "Waiting for approval on the server"))) k
    else if is_approved r
    then idle (window_call (enrolment (codes "Approved, but no token was issued"))) k
    else k

-- The branches of _poll_registration, by the answer.
abbrev pub polled_with : Option Registration → Kiosk → Kiosk
polled_with none k = start_poll (pos 20000) k
polled_with (some r) k =
    if approved_with_token r k.config
    then schedule_refresh (pos 500)
        (idle (window_call (enrolment [])) (record k { client = k.config }))
    else start_poll (pos 20000) (show_progress r k)

-- _poll_registration, after attempt_registration has returned
unfoldable pub polled : Attempt → Kiosk → Kiosk
unfolding idle schedule_refresh start_poll show_progress
polled a k = polled_with a.answer (record k { config = a.config })

-- _poll_registration
unfoldable pub poll_registration : Result Attempt → Kiosk → Kiosk
unfolding polled
poll_registration (ok a) k = if k.stopped then k else polled a k
poll_registration (raise e) k = k
