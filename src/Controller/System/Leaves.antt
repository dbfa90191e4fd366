-- ===== src/Controller/System/Leaves.antt =====
-- The handlers of controller.py that leave the timers, the settings and the workers alone.
use visiontak_client.Prelude.{
  ℕ, Bool, not, ◌&&◌, Option, none, some, List, Text, ◌==◌, if_keeps, is_empty,
}
use visiontak_client.Python.{Result, ok, raise}
use visiontak_client.Config.{Config}
use visiontak_client.Config.Checks.{is_nonzero}
use visiontak_client.Actions.{AnyAction}
use visiontak_client.Api.{ClientConfig}
use visiontak_client.Cec.Base.{CecEvent, CecEventKind}
use visiontak_client.Cec.Keymap.{action_for}
use visiontak_client.Ui.Window.Show.{set_dashboards_raises}
use visiontak_client.Controller.{Kiosk, Timer, idle}
use visiontak_client.Controller.Carousel.{
  cancel_rotation, add_rotation, apply_rotation, restart_rotation_clock, toggle_rotation,
}
use visiontak_client.Controller.Events.{on_kind, on_code, on_key}
use visiontak_client.Python.{Unicode}
use visiontak_client.Platform.{Platform}
use visiontak_client.Controller.Refresh.{start_at, apply, select_start_dashboard}

module _ (P : Bool → Config → ℕ → ℕ → List (ℕ × Timer) → Type 0) where
  abbrev pub Of : Kiosk → Type 0
  Of k = P k.stopped k.config k.workers k.next_timer k.timers

  pub on_key-leaves : (r : Result (Option AnyAction)) (k : Kiosk) → Of k → Of (on_key r k)
  unfolding idle
  on_key-leaves (ok (some a)) k h = h
  on_key-leaves (ok none) k h = h
  on_key-leaves (raise e) k h = h

  pub on_code-leaves : (o : Option ℕ) (k : Kiosk) → Of k → Of (on_code o k)
  on_code-leaves none k h = h
  on_code-leaves (some code) k h = on_key-leaves (action_for code) k h

  pub on_kind-leaves : (c : CecEventKind) (e : CecEvent) (k : Kiosk) → Of k → Of (on_kind c e k)
  unfolding idle
  on_kind-leaves CecEventKind.key_press e k h = on_code-leaves e.key_code k h
  on_kind-leaves CecEventKind.standby e k h = h
  on_kind-leaves CecEventKind.wake e k h = h
  on_kind-leaves CecEventKind.adapter_ready e k h = h
  on_kind-leaves CecEventKind.adapter_lost e k h = h
  on_kind-leaves CecEventKind.key_release e k h = h
  on_kind-leaves CecEventKind.active_source_lost e k h = h

  pub apply_rotation-leaves : (k : Kiosk) → Of k → Of (apply_rotation k)
  unfolding apply_rotation cancel_rotation add_rotation
  apply_rotation-leaves k h =
      if_keeps Of (k.rotating && is_nonzero k.config.rotate_interval)
        (λ e.
          if_keeps (λ (j : Kiosk). Of (add_rotation j)) (k.rotate_source == 0) (λ q. h) (λ q. h))
        (λ e. if_keeps Of (k.rotate_source == 0) (λ q. h) (λ q. h))

  pub toggle_rotation-leaves : (k : Kiosk) → Of k → Of (toggle_rotation k)
  unfolding toggle_rotation
  toggle_rotation-leaves k h =
      if_keeps Of (not (is_nonzero k.config.rotate_interval)) (λ e. h)
        (λ e. apply_rotation-leaves (record k { rotating = not k.rotating }) h)

  pub restarted-leaves : (k : Kiosk) → Of k → Of (restart_rotation_clock k)
  unfolding restart_rotation_clock
  restarted-leaves k h =
      if_keeps Of (k.rotate_source == 0) (λ e. h) (λ e. apply_rotation-leaves k h)

module _ (u : Unicode) (p : Platform) (P : Bool → Config → ℕ → ℕ → List (ℕ × Timer) → Type 0) where
  pub start_at-leaves : (o : Option Text) (k : Kiosk) → Of P k → Of P (start_at u p o k)
  start_at-leaves none k h = h
  start_at-leaves (some id) k h = h

  pub apply-leaves : (b : Bool) (c : ClientConfig) (k : Kiosk) → Of P k → Of P (apply u p b c k)
  unfolding apply select_start_dashboard
  apply-leaves b c k h =
      if_keeps (Of P) (b && is_empty c.dashboards) (λ e. h)
        (λ e.
          if_keeps (Of P)
            (is_empty k.window.dashboards && not (set_dashboards_raises p c.dashboards k.window))
            (λ q. start_at-leaves _ _ h) (λ q. h))
