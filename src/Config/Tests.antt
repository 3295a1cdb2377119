-- ===== src/Config/Tests.antt =====
-- A configuration without an API key and with a timeout of 0.
use nova_airouter.Prelude.{pos, ◌≡◌, false, some, is_some, exists, codes}
use nova_airouter.Config.{Config, bad_api_key, validate_config}
use nova_airouter.Config.Valid.{violates, all_errors, validate_config_lem}

abbrev open_config : Config
open_config = record {
  node_id = codes "n1";
  listen_addr = codes ":15050";
  gossip_addr = codes ":15051";
  discovery_addr = codes ":15052";
  api_key = codes "";
  disable_admin_auth = false;
  heartbeat_timeout = pos 30;
  backend_timeout = pos 0;
  queue_timeout = pos 30;
  forward_connect_timeout = pos 5;
  forward_read_timeout = pos 30;
  default_max_concurrency = pos 10;
  gossip_state_interval = pos 5;
  gossip_metadata_interval = pos 30;
  gossip_probe_interval = pos 1;
  gossip_probe_timeout = pos 1;
  gossip_suspicion_mult = pos 4;
  gossip_retransmit_mult = pos 4;
}

validate_config_example :
    (validate_config open_config ≡ some bad_api_key)
    × (is_some (validate_config open_config) ≡ exists (violates open_config) all_errors)
validate_config_example = validate_config_lem open_config
