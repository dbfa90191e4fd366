-- ===== src/Tests/ControllerTests.antt =====
-- The client as a system, from a start with a carousel.
use visiontak_client.Prelude.{
  ◌≡◌, inr, refl, none, some, true, false, Text, codes, pos, contains, map, text_eq, is_empty,
}
use visiontak_client.Python.{Result, ok, raise, json_error, auth_error, strip}
use visiontak_client.Json.{Json}
use visiontak_client.Config.{Config, default_config}
use visiontak_client.Models.{Dashboard}
use visiontak_client.Api.{ClientConfig, no_config, load}
use visiontak_client.Cec.Choice.{kernel_backend}
use visiontak_client.Ui.Window.{current_dashboard}
use visiontak_client.Ui.Window.Create.{create}
use visiontak_client.Ui.Window.Runs.{call, message}
use visiontak_client.Ui.Policy.{allow_raises}
use visiontak_client.Ui.Window.Show.{any_refused, set_dashboards_raises}
use visiontak_client.Controller.{Kiosk, init}
use visiontak_client.Controller.Refresh.{apply, schedule_refresh}
use visiontak_client.Controller.Refresh.Start.{IsStart, apply-shows_start}
use visiontak_client.Controller.Carousel.{apply_rotation}
use visiontak_client.Controller.Enrolment.{start_registration}
use visiontak_client.Controller.Events.{attach, start_cec}
use visiontak_client.Controller.System.{Step, Reach}
use visiontak_client.Controller.System.Clock.{Clock}
use visiontak_client.Controller.System.Timeouts.{Reach-Clock}
use visiontak_client.Controller.System.Refreshes.{Reach-IsTicking}
use visiontak_client.Controller.System.Refreshes.Handlers.{IsTicking}
use visiontak_client.Controller.Refresh.{refresh_config}
use visiontak_client.Controller.Refresh.Backoff.{IsNext, refresh_config-IsNext}
use visiontak_client.Controller.System.Polling.{Reach-IsAsking}
use visiontak_client.Controller.System.Polling.Handlers.{IsAsking}
use visiontak_client.Tests.Samples.{ascii, one_server, repr, base, boards}

abbrev rotating : Config
rotating = record default_config { server_url = base; rotate_interval = pos 30 }

abbrev corrupt : Text → Result Json
corrupt t = raise json_error

abbrev dumps : Json → Text
dumps j = codes "{}"

abbrev fresh : Kiosk
fresh = init rotating none (create ascii one_server none rotating)

abbrev started : Kiosk
started = apply_rotation (
    schedule_refresh (pos 1000)
      (start_registration (start_cec kernel_backend (apply ascii one_server true no_config fresh))))

started_is_attached : attach ascii one_server repr corrupt kernel_backend fresh ≡ ok started
unfolding attach load init set_dashboards_raises create any_refused
started_is_attached = refl

abbrev toasting : Kiosk
toasting = record started {
  window = call ascii one_server (message (codes "hello")) started.window;
}

toasting_is_reached :
    Reach ascii one_server repr corrupt dumps rotating none none kernel_backend toasting
toasting_is_reached =
    Reach.later (Reach.attached started_is_attached) (Step.signal (message (codes "hello")) refl)

Reach-Clock_example :
    Clock toasting.rotate_source toasting.window.main_loop toasting.window.toast_source
Reach-Clock_example =
    Reach-Clock ascii one_server repr corrupt dumps rotating none none kernel_backend toasting
      toasting_is_reached

abbrev answer : ClientConfig
answer = record { dashboards = boards; default_id = some (codes "c") }

c_is_listed : contains (codes "c") (map (λ d. d.id) boards) ≡ true
unfolding contains text_eq
c_is_listed = refl

fresh_has_server : fresh.window.needs_setup ≡ false
unfolding init create
fresh_has_server = refl

fresh_is_empty : is_empty fresh.window.dashboards ≡ true
unfolding init create
fresh_is_empty = refl

fresh_starts_with_c : IsStart fresh.config.start_dashboard answer.default_id (codes "c")
unfolding init
fresh_starts_with_c = (refl, inr (refl, refl))

answer_accepted : any_refused one_server answer.dashboards ≡ false
unfolding any_refused allow_raises text_eq strip
answer_accepted = refl

apply-shows_start_example :
    (d : Dashboard) × ((current_dashboard (apply ascii one_server false answer fresh).window
        ≡ some d)
      × (d.id ≡ codes "c"))
apply-shows_start_example =
    apply-shows_start ascii one_server false answer (codes "c") fresh fresh_has_server
      fresh_is_empty fresh_starts_with_c c_is_listed answer_accepted

Reach-IsTicking_example :
    IsTicking toasting.stopped toasting.config.refresh_interval toasting.timers
Reach-IsTicking_example =
    Reach-IsTicking ascii one_server repr corrupt dumps rotating none none kernel_backend toasting
      toasting_is_reached

refresh_config-IsNext_example :
    IsNext (raise auth_error) started (refresh_config dumps true (raise auth_error) started)
refresh_config-IsNext_example = refresh_config-IsNext dumps true (raise auth_error) started

Reach-IsAsking_example : IsAsking toasting.stopped toasting.config.api_token toasting.timers
Reach-IsAsking_example =
    Reach-IsAsking ascii one_server repr corrupt dumps rotating none none kernel_backend toasting
      refl toasting_is_reached
