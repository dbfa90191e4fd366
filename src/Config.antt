-- ===== src/Config.antt =====
-- src/visiontak_client/config.py: the settings. The children load and check them.
pub mod Checks
pub mod Load
pub mod Address
pub mod Persist
use visiontak_client.Prelude.{ℤ, pos, Bool, true, false, Text, codes, []}

pub record Config : Type 0 where
  pub server_url : Text
  pub api_token : Text
  pub device_id : Text
  pub cec_backend : Text
  pub cec_device : Text
  pub osd_name : Text
  pub refresh_interval : ℤ
  pub rotate_interval : ℤ
  pub start_dashboard : Text
  pub verify_tls : Bool
  pub request_timeout : ℤ
  pub allowed_hosts : Text
  pub max_live_views : ℤ
  pub hardware_acceleration : Text
  pub dhcp_discovery : Bool

-- The defaults of the fields.
abbrev pub default_config : Config
default_config = record {
  server_url = [];
  api_token = [];
  device_id = [];
  cec_backend = codes "auto";
  cec_device = codes "/dev/cec0";
  osd_name = codes "VisionTAK";
  refresh_interval = pos 300;
  rotate_interval = pos 0;
  start_dashboard = [];
  verify_tls = true;
  request_timeout = pos 15;
  allowed_hosts = codes "*";
  max_live_views = pos 3;
  hardware_acceleration = codes "auto";
  dhcp_discovery = false;
}
