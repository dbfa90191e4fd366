-- ===== src/Controller/Events.antt =====
-- src/visiontak_client/controller.py: attach, stop and the events of the remote.
use visiontak_client.Prelude.{
  ℕ, true, false, Option, none, some, Text, codes, ◌++◌, is_empty, if◌then◌else◌, pos,
}
use visiontak_client.Python.{Unicode, Result, ok, raise, value_error, ◌>>=◌}
use visiontak_client.Platform.{Platform}
use visiontak_client.Json.{Json}
use visiontak_client.Actions.{AnyAction}
use visiontak_client.Api.{load}
use visiontak_client.Api.Request.{base_url}
use visiontak_client.Cec.Base.{CecEvent, CecEventKind, kind_value}
use visiontak_client.Cec.Choice.{Chosen, null_backend, kernel_backend, libcec_backend}
use visiontak_client.Cec.Keymap.{action_for}
use visiontak_client.Ui.Window.Show.{set_dashboards_raises}
use visiontak_client.Ui.Window.Runs.{blank, cec}
use visiontak_client.Controller.{Kiosk, window_call, dispatch_action, idle, cancel}
use visiontak_client.Controller.Refresh.{apply, schedule_refresh}
use visiontak_client.Controller.Carousel.{apply_rotation, cancel_rotation}
use visiontak_client.Controller.Enrolment.{start_registration}

-- The status of the backend: the name of its class, and its reason in parentheses.
unfoldable pub backend_status : Chosen → Text
backend_status kernel_backend = codes "KernelCecBackend"
backend_status libcec_backend = codes "LibCecBackend"
backend_status (null_backend reason) =
    if is_empty reason
    then codes "NullCecBackend"
    else codes "NullCecBackend (" ++ reason ++ codes ")"

-- _start_cec
unfoldable pub start_cec : Chosen → Kiosk → Kiosk
unfolding idle backend_status
start_cec c k = idle (window_call (cec (backend_status c))) (record k { reading = true })

-- What a key resolves to; an exception ends the event, and the reader goes on.
abbrev pub on_key : Result (Option AnyAction) → Kiosk → Kiosk
on_key (ok (some a)) k = idle (dispatch_action a) k
on_key (ok none) k = k
on_key (raise e) k = k

abbrev pub on_code : Option ℕ → Kiosk → Kiosk
on_code none k = k
on_code (some code) k = on_key (action_for code) k

abbrev pub on_kind : CecEventKind → CecEvent → Kiosk → Kiosk
on_kind CecEventKind.key_press e k = on_code e.key_code k
on_kind CecEventKind.standby e k = idle (window_call (blank true)) k
on_kind CecEventKind.wake e k = idle (window_call (blank false)) k
on_kind CecEventKind.adapter_ready e k =
    idle (window_call (cec (kind_value e.kind ++ codes " (" ++ e.detail ++ codes ")"))) k
on_kind CecEventKind.adapter_lost e k =
    idle (window_call (cec (kind_value e.kind ++ codes " (" ++ e.detail ++ codes ")"))) k
on_kind CecEventKind.key_release e k = k
on_kind CecEventKind.active_source_lost e k = k

-- _on_cec_event
unfoldable pub on_cec_event : CecEvent → Kiosk → Kiosk
unfolding idle
on_cec_event e k = on_kind e.kind e k

-- stop()
unfoldable pub stop : Kiosk → Kiosk
unfolding cancel cancel_rotation
stop k =
    cancel_rotation
      (record (cancel k.registration_timer (cancel k.refresh_timer (record k { stopped = true }))) {
        reading = false;
      })

module _ (u : Unicode) (p : Platform) (repr : Json → Text) (loads : Text → Result Json) where
  -- attach(window), by the backend that was chosen. An empty list of the cache, at which _apply
  -- returns before set_dashboards, has no address that is refused.
  unfoldable pub attach : Chosen → Kiosk → Result Kiosk
  unfolding apply start_cec start_registration schedule_refresh apply_rotation
  attach chosen k = do
    c ← load u repr loads k.cache (base_url k.client)
    if set_dashboards_raises p c.dashboards k.window
        then raise value_error
        else ok (
            apply_rotation (
              schedule_refresh (pos 1000)
                (start_registration (start_cec chosen (apply u p true c k)))))
