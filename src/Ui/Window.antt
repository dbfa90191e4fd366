-- ===== src/Ui/Window.antt =====
-- src/visiontak_client/ui/kiosk_window.py: the state of KioskWindow and its methods. The web views are
-- in Ui/Pool, the chooser in Ui/Menu. GTK widgets are kept by what the code sets on them.
pub mod Show
pub mod Handle
pub mod Create
pub mod Invariant
pub mod Methods
pub mod Runs
pub mod Frame
use visiontak_client.Prelude.{
  ℕ, suc, ◌+◌, ◌-◌, Bool, true, false, not, ◌&&◌, Option, none, some, List, [], ◌∷◌, ◌++◌, map,
  Text, codes, text_eq, ℤ, pos, negsuc, ◌+ℤ◌, max_zero, mod_ℤ, ltb, leb, ◌==◌, if◌then◌else◌,
  length, get_elem?, is_empty, contains, insert, discard, lookup,
}
use visiontak_client.Python.{Unicode}
use visiontak_client.Platform.{Platform}
use visiontak_client.Netinfo.{local_ip}
use visiontak_client.Config.{Config}
use visiontak_client.Models.{Dashboard}
use visiontak_client.Actions.{Action, AnyAction, plain, digit}
use visiontak_client.Ui.Menu
use visiontak_client.Ui.Menu.{Menu}
use visiontak_client.Ui.Pool
use visiontak_client.Ui.Pool.{
  Pool, Child, placeholder, setup_screen, web_view, WebCall, reload, set_visible_child, view_for,
  drop_stale_views,
}
use visiontak_client.Ui.Policy
use visiontak_client.Ui.Policy.{HostAllowlist}
use visiontak_client.Ui.MainLoop
use visiontak_client.Ui.MainLoop.{MainLoop}
use visiontak_client.Ui.Setup
use visiontak_client.Ui.Setup.{SetupScreen}

-- The values that the lines of the diagnostics panel show.
pub record InfoLines : Type 0 where
  pub device : Text
  pub address : Text
  pub server : Text
  -- name, position from 1, how many
  pub dashboard : Option (Text × ℤ × ℕ)
  pub cec : Text
  pub osd_name : Text
  pub cec_device : Text
  pub present : Bool

pub record Window : Type 0 where
  pub config : Config
  pub dashboards : List Dashboard
  pub pool : Pool
  pub current : ℤ
  pub allowlist : HostAllowlist
  pub menu : Menu
  pub caption : Text
  pub needs_setup : Bool
  pub setup : SetupScreen
  pub blanked : Bool
  pub loading_visible : Bool
  pub toast_label : Text
  pub toast_visible : Bool
  pub toast_source : ℕ
  pub main_loop : MainLoop
  pub info_visible : Bool
  pub info_label : Option InfoLines
  pub cec_status : Option Text

-- The dashboard at `_current`, if that is in range.
abbrev pub dashboard_at : ℤ → List Dashboard → Option Dashboard
dashboard_at (pos i) ds = get_elem? ds i
dashboard_at (negsuc n) ds = none

unfoldable pub current_dashboard : Window → Option Dashboard
current_dashboard w = dashboard_at w.current w.dashboards

abbrev pub waiting : Text
waiting = codes "Waiting for dashboards…"

unfoldable pub set_enrolment_status : Text → Window → Window
set_enrolment_status message w = record w {
  caption = if is_empty message then waiting else message;
}

unfoldable pub setup_status : Text → Bool → Window → Window
setup_status message error w = record w {
  setup =
      let s = Setup.set_status message error w.setup in
      if error then Setup.reset_for_retry s else s;
}

unfoldable pub leave_setup : Window → Window
leave_setup w =
    if w.needs_setup
    then record w { needs_setup = false; pool = set_visible_child placeholder w.pool }
    else w

unfoldable pub toast : Text → Window → Window
toast message w =
    let l =
      if w.toast_source == 0
      then w.main_loop
      else MainLoop.source_remove w.toast_source w.main_loop in
    record w {
      toast_label = message;
      toast_visible = true;
      toast_source = l.next;
      main_loop = MainLoop.timeout_add MainLoop.hide_toast l;
    }

-- The callback of the toast's timeout; the loop drops the source as it returns SOURCE_REMOVE.
unfoldable pub hide_toast : Window → Window
hide_toast w = record w {
  toast_visible = false;
  toast_source = 0;
  main_loop = MainLoop.source_remove w.toast_source w.main_loop;
}

unfoldable pub sync_loading : Window → Window
sync_loading w = record w {
  loading_visible = elim (current_dashboard w) [
    | none ↦ false
    | some d ↦ contains d.id w.pool.loading_ids
  ];
}

abbrev pub or_starting : Option Text → Text
or_starting none = codes "starting"
or_starting (some s) = s

module _ (u : Unicode) (p : Platform) where
  -- The lines of the panel; `(no network)` and `(unset)` stand for empty values.
  unfoldable pub info_lines : Window → InfoLines
  info_lines w = record {
    device = w.config.device_id;
    address = local_ip p w.config.server_url;
    server = w.config.server_url;
    dashboard = elim (current_dashboard w) [
      | none ↦ none
      | some d ↦ some (d.name, w.current +ℤ pos 1, length w.dashboards)
    ];
    cec = or_starting w.cec_status;
    osd_name = w.config.osd_name;
    cec_device = w.config.cec_device;
    present = p.exists w.config.cec_device;
  }

  unfoldable pub update_info : Window → Window
  update_info w = if w.info_visible then record w { info_label = some (info_lines w) } else w

  unfoldable pub toggle_info : Window → Window
  toggle_info w = update_info (record w { info_visible = not w.info_visible })

  unfoldable pub set_status : Text → Window → Window
  set_status status w = update_info (record w { cec_status = some status })
