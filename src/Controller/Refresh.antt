-- ===== src/Controller/Refresh.antt =====
-- src/visiontak_client/controller.py: fetching the configuration, and what is shown first.
pub mod Start
pub mod Backoff
use visiontak_client.Prelude.{
  ℕ, Bool, true, false, not, ◌&&◌, ◌||◌, Option, none, some, List, Text, codes, ℤ, pos, ltb_ℤ,
  if◌then◌else◌, is_empty,
}
use visiontak_client.Python.{Unicode, Result, ok, raise, api_error, auth_error}
use visiontak_client.Platform.{Platform}
use visiontak_client.Json.{Json}
use visiontak_client.Config.{Config}
use visiontak_client.Config.Checks.{is_nonzero}
use visiontak_client.Api.{ClientConfig, save}
use visiontak_client.Ui.Window.{Window}
use visiontak_client.Ui.Window.Show.{set_dashboards, set_dashboards_raises, show_index, index_of}
use visiontak_client.Ui.Window.Runs.{message}
use visiontak_client.Controller.{
  Kiosk, Job, Idle, window_call, apply_config, idle, seconds, start_timer,
}

-- _schedule_refresh
unfoldable pub schedule_refresh : ℤ → Kiosk → Kiosk
unfolding start_timer
schedule_refresh delay k =
    if k.stopped || not (is_nonzero k.config.refresh_interval)
    then k
    else record (start_timer delay Job.refresh k) { refresh_timer = some k.next_timer }

abbrev pub max_ℤ : ℤ → ℤ → ℤ
max_ℤ a b = if ltb_ℤ a b then b else a

-- AUTH_RETRY_SECONDS
abbrev pub auth_retry : ℤ
auth_retry = pos 900

-- The delay of the next refresh, in seconds.
unfoldable pub next_delay : Result ClientConfig → ℤ → ℤ
next_delay (raise auth_error) interval = max_ℤ interval auth_retry
next_delay r interval = interval

-- The branches of _refresh, before its `finally`. Where the cache cannot be written, the OSError
-- leaves _apply out.
unfoldable pub after_fetch : (Json → Text) → Bool → Result ClientConfig → Kiosk → Kiosk
unfolding idle
after_fetch dumps saved (ok c) k =
    if saved then idle (apply_config c) (record k { cache = save dumps c }) else k
after_fetch dumps saved (raise auth_error) k =
    idle (window_call (message (codes "Server rejected this device's token"))) k
after_fetch dumps saved (raise api_error) k =
    idle (window_call (message (codes "Server unreachable — showing cached dashboards"))) k
after_fetch dumps saved (raise e) k = k

-- _refresh, by what fetch_client_config gives and whether the cache can be written
unfoldable pub refresh_config : (Json → Text) → Bool → Result ClientConfig → Kiosk → Kiosk
unfolding schedule_refresh after_fetch next_delay
refresh_config dumps saved reply k =
    schedule_refresh (seconds (next_delay reply k.config.refresh_interval))
      (after_fetch dumps saved reply k)

-- `config.start_dashboard or server_default`, if it is not empty
unfoldable pub wanted : Text → Option Text → Option Text
wanted start default =
    if not (is_empty start)
    then some start
    else elim default [ none ↦ none | some id ↦ if is_empty id then none else some id ]

module _ (u : Unicode) (p : Platform) where
  abbrev pub show_found : Option ℕ → Window → Window
  show_found none w = w
  show_found (some i) w = show_index u p (pos i) w

  abbrev pub start_at : Option Text → Kiosk → Kiosk
  start_at none k = k
  start_at (some id) k = record k {
    window = show_found (index_of id 0 k.window.dashboards) k.window;
  }

  -- _select_start_dashboard
  unfoldable pub select_start_dashboard : Kiosk → Kiosk
  unfolding wanted
  select_start_dashboard k = start_at (wanted k.config.start_dashboard k.server_default) k

  -- _apply. Where set_dashboards raises, what it did stays, and no start dashboard is selected.
  unfoldable pub apply : Bool → ClientConfig → Kiosk → Kiosk
  unfolding select_start_dashboard
  apply from_cache c k =
      let shown = record k {
        server_default = c.default_id;
        window = set_dashboards u p c.dashboards k.window;
      } in
      if from_cache && is_empty c.dashboards
      then k
      else if is_empty k.window.dashboards && not (set_dashboards_raises p c.dashboards k.window)
      then select_start_dashboard shown
      else shown
