-- ===== src/Ui/Window/Create.antt =====
-- src/visiontak_client/ui/kiosk_window.py: KioskWindow.__init__.
use visiontak_client.Prelude.{
  false, Option, none, some, List, [], ◌∷◌, ◌++◌, Text, negsuc, if◌then◌else◌, is_empty,
}
use visiontak_client.Python.{Unicode, split_on, stripped}
use visiontak_client.Platform.{Platform}
use visiontak_client.Config.{Config}
use visiontak_client.Ui.Menu
use visiontak_client.Ui.Pool
use visiontak_client.Ui.Pool.{Pool, setup_screen, set_visible_child}
use visiontak_client.Ui.Policy
use visiontak_client.Ui.MainLoop
use visiontak_client.Ui.Setup
use visiontak_client.Ui.Setup.{SetupScreen}
use visiontak_client.Ui.Window.{Window, waiting}

-- `seed`: the server's address, if set, and the hosts of `allowed_hosts`.
unfoldable pub seed : Config → List Text
unfolding split_on stripped
seed c =
    (if is_empty c.server_url then [] else c.server_url ∷ [])
    ++ stripped (split_on b',' c.allowed_hosts)

-- show_discovery_detail, by the detail that describe() gave; none if it raised.
unfoldable pub show_discovery_detail : Option Text → SetupScreen → SetupScreen
show_discovery_detail none s = s
show_discovery_detail (some detail) s =
    if is_empty detail then s else record s { diagnostic = some detail }

module _ (u : Unicode) (p : Platform) where
  -- KioskWindow.__init__, where urlparse accepts the server's address and every allowed host.
  unfoldable pub create : Option Text → Config → Window
  create detail c =
      let needs_setup = is_empty c.server_url in
      record {
        config = c;
        dashboards = [];
        pool = if needs_setup then set_visible_child setup_screen Pool.init else Pool.init;
        current = negsuc 0;
        allowlist = Policy.allow_all u p (seed c) Policy.empty;
        menu = Menu.init;
        caption = waiting;
        needs_setup = needs_setup;
        setup =
            if needs_setup
            then if c.dhcp_discovery then show_discovery_detail detail Setup.init else Setup.init
            else Setup.init;
        blanked = false;
        loading_visible = false;
        toast_label = [];
        toast_visible = false;
        toast_source = 0;
        main_loop = MainLoop.init;
        info_visible = false;
        info_label = none;
        cec_status = none;
      }
