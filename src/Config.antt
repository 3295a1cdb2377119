-- ===== src/Config.antt =====
-- internal/config/validator.go: which configurations are accepted. A configuration has the fields
-- that the validator reads; an error stands for its message, none for nil.
pub mod Valid
mod Tests
use nova_airouter.Prelude.{
  ℤ, pos, leb_ℤ, ltb_ℤ, Bool, true, false, not, ◌&&◌, if◌then◌else◌, Option, none, some, [], ◌∷◌,
  Text,
}

pub record Config : Type 0 where
  pub node_id : Text
  pub listen_addr : Text
  pub gossip_addr : Text
  pub discovery_addr : Text
  pub api_key : Text
  pub disable_admin_auth : Bool
  pub heartbeat_timeout : ℤ
  pub backend_timeout : ℤ
  pub queue_timeout : ℤ
  pub forward_connect_timeout : ℤ
  pub forward_read_timeout : ℤ
  pub default_max_concurrency : ℤ
  pub gossip_state_interval : ℤ
  pub gossip_metadata_interval : ℤ
  pub gossip_probe_interval : ℤ
  pub gossip_probe_timeout : ℤ
  pub gossip_suspicion_mult : ℤ
  pub gossip_retransmit_mult : ℤ

pub data ConfigError : Type 0 where
  bad_node_id : ConfigError
  bad_listen_addr : ConfigError
  bad_gossip_addr : ConfigError
  bad_discovery_addr : ConfigError
  bad_api_key : ConfigError
  bad_heartbeat_timeout : ConfigError
  bad_backend_timeout : ConfigError
  bad_queue_timeout : ConfigError
  bad_forward_connect_timeout : ConfigError
  bad_forward_read_timeout : ConfigError
  bad_max_concurrency : ConfigError
  bad_state_interval : ConfigError
  bad_metadata_interval : ConfigError
  bad_probe_interval : ConfigError
  bad_probe_timeout : ConfigError
  bad_suspicion_mult : ConfigError
  bad_retransmit_mult : ConfigError

abbrev pub is_blank : Text → Bool
is_blank [] = true
is_blank (c ∷ s) = false

abbrev pub not_positive : ℤ → Bool
not_positive z = leb_ℤ z (pos 0)

-- `if err := …; err != nil { return err }`.
abbrev pub or_else : Option ConfigError → Option ConfigError → Option ConfigError
or_else none rest = rest
or_else (some e) rest = some e

unfoldable pub validate_node_id : Text → Option ConfigError
validate_node_id node_id = if is_blank node_id then some bad_node_id else none

unfoldable pub validate_listen_addr : Text → Option ConfigError
validate_listen_addr addr = if is_blank addr then some bad_listen_addr else none

unfoldable pub validate_gossip_addr : Text → Option ConfigError
validate_gossip_addr addr = if is_blank addr then some bad_gossip_addr else none

unfoldable pub validate_discovery_addr : Text → Option ConfigError
validate_discovery_addr addr = if is_blank addr then some bad_discovery_addr else none

unfoldable pub validate_admin_api_key : Text → Bool → Option ConfigError
validate_admin_api_key api_key disable_auth =
    if not disable_auth && is_blank api_key then some bad_api_key else none

unfoldable pub validate_timeouts : Config → Option ConfigError
validate_timeouts cfg =
    if not_positive cfg.heartbeat_timeout
    then some bad_heartbeat_timeout
    else if not_positive cfg.backend_timeout
    then some bad_backend_timeout
    else if not_positive cfg.queue_timeout
    then some bad_queue_timeout
    else if not_positive cfg.forward_connect_timeout
    then some bad_forward_connect_timeout
    else if not_positive cfg.forward_read_timeout
    then some bad_forward_read_timeout
    else none

unfoldable pub validate_concurrency : ℤ → Option ConfigError
validate_concurrency max_concurrency =
    if ltb_ℤ max_concurrency (pos 1) then some bad_max_concurrency else none

unfoldable pub validate_gossip_settings : Config → Option ConfigError
validate_gossip_settings cfg =
    if not_positive cfg.gossip_state_interval
    then some bad_state_interval
    else if not_positive cfg.gossip_metadata_interval
    then some bad_metadata_interval
    else if not_positive cfg.gossip_probe_interval
    then some bad_probe_interval
    else if not_positive cfg.gossip_probe_timeout
    then some bad_probe_timeout
    else if ltb_ℤ cfg.gossip_suspicion_mult (pos 1)
    then some bad_suspicion_mult
    else if ltb_ℤ cfg.gossip_retransmit_mult (pos 1)
    then some bad_retransmit_mult
    else none

unfoldable pub validate_config : Config → Option ConfigError
validate_config cfg = or_else (validate_node_id cfg.node_id) (
    or_else (validate_listen_addr cfg.listen_addr) (
      or_else (validate_gossip_addr cfg.gossip_addr) (
        or_else (validate_discovery_addr cfg.discovery_addr) (
          or_else (validate_admin_api_key cfg.api_key cfg.disable_admin_auth) (
            or_else (validate_timeouts cfg) (
              or_else (validate_concurrency cfg.default_max_concurrency)
                (or_else (validate_gossip_settings cfg) none)))))))
