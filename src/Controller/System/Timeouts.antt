-- ===== src/Controller/System/Timeouts.antt =====
-- The timeouts of the client in every state that it reaches.
use visiontak_client.Prelude.{ℕ, ◌≡◌, refl, arith, false, Option, Text, if_keeps}
use visiontak_client.Python.{Unicode, Result}
use visiontak_client.Platform.{Platform}
use visiontak_client.Json.{Json}
use visiontak_client.Config.{Config}
use visiontak_client.Cec.Choice.{Chosen}
use visiontak_client.Ui.Window.{Window, leave_setup, setup_status}
use visiontak_client.Ui.Window.Create.{create}
use visiontak_client.Ui.Window.Runs.{
  Call, call, dashboards, action, show, row_activated, load_started, load_finished, load_failed,
  blank, message, toast_timeout, setup_done, cec, enrolment, setup_message,
}
use visiontak_client.Controller.{Kiosk}
use visiontak_client.Controller.System.{Reach}
use visiontak_client.Controller.System.Keeps.{Reach-keeps}
use visiontak_client.Ui.Window.Frame.{call-keeps, is_setup_call}
use visiontak_client.Controller.System.Clock.{
  Clock, toasted-Clock, hidden-Clock, cancelled-Clock, started-Clock,
}

module _ (u : Unicode) (p : Platform) where
  abbrev IsTimed : Window → ℕ → Type 0
  IsTimed w r = Clock r w.main_loop w.toast_source

  plain_call :
      (c : Call) (w : Window) (r : ℕ)
      → is_setup_call c ≡ false
      → IsTimed w r
      → IsTimed (call u p c w) r
  plain_call c w r s h =
      call-keeps u p (λ f. Clock r f.main_loop f.toast_source) (toasted-Clock r) (hidden-Clock r) c
        w s h

  call-IsTimed : (c : Call) (w : Window) (r : ℕ) → IsTimed w r → IsTimed (call u p c w) r
  unfolding call leave_setup setup_status
  call-IsTimed setup_done w r h = if_keeps (λ w. IsTimed w r) w.needs_setup (λ e. h) (λ e. h)
  call-IsTimed (setup_message m e) w r h = h
  call-IsTimed (dashboards ds) w r h = plain_call (dashboards ds) w r refl h
  call-IsTimed (action a) w r h = plain_call (action a) w r refl h
  call-IsTimed (show i) w r h = plain_call (show i) w r refl h
  call-IsTimed (row_activated i) w r h = plain_call (row_activated i) w r refl h
  call-IsTimed (load_started id) w r h = plain_call (load_started id) w r refl h
  call-IsTimed (load_finished id) w r h = plain_call (load_finished id) w r refl h
  call-IsTimed (load_failed uri) w r h = plain_call (load_failed uri) w r refl h
  call-IsTimed (blank b) w r h = plain_call (blank b) w r refl h
  call-IsTimed (message m) w r h = plain_call (message m) w r refl h
  call-IsTimed toast_timeout w r h = plain_call toast_timeout w r refl h
  call-IsTimed (cec t) w r h = plain_call (cec t) w r refl h
  call-IsTimed (enrolment m) w r h = plain_call (enrolment m) w r refl h

  starts : (detail : Option Text) (config : Config) → IsTimed (create u p detail config) 0
  unfolding create
  starts detail config = record {
    toasts = refl;
    carousel = refl;
    apart = λ q. refl;
    positive = omega arith;
    toast_lt = omega arith;
    rotate_lt = omega arith;
  }

  -- In every state that the client reaches the timeouts of the carousel in the main loop are exactly
  -- the one that the controller holds, none if it holds none, and those of the toast exactly the one
  -- that the window holds; the two are different sources. So no source is lost, and none is left
  -- behind when one is started again.
  pub Reach-Clock :
      (repr : Json → Text) (loads : Text → Result Json) (dumps : Json → Text) (config : Config)
      (cache detail : Option Text) (chosen : Chosen) (k : Kiosk)
      → Reach u p repr loads dumps config cache detail chosen k
      → Clock k.rotate_source k.window.main_loop k.window.toast_source
  Reach-Clock repr loads dumps config cache detail chosen k r =
      Reach-keeps u p IsTimed call-IsTimed (λ s w r h. h) (λ w r h. cancelled-Clock r _ _ h)
        (λ w h. started-Clock _ _ h) repr loads dumps (starts detail config) r
