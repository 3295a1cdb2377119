-- ===== src/Config/Valid.antt =====
-- A configuration is accepted exactly if it violates no requirement.
use nova_airouter.Prelude.{
  ℤ, pos, pos_part, ltb, ltb_ℤ, ◌==◌, ◌≡◌, refl, ◌∙◌, ap, Bool, true, false, not, ◌&&◌, ◌||◌,
  if◌then◌else◌, Option, none, some, is_some, List, [], ◌∷◌, exists, Text, length, arith,
  Bool-cases, inl, inr,
}
use nova_airouter.Config.{
  Config, ConfigError, is_blank, not_positive, or_else, validate_node_id, validate_listen_addr,
  validate_gossip_addr, validate_discovery_addr, validate_admin_api_key, validate_timeouts,
  validate_concurrency, validate_gossip_settings, validate_config, bad_node_id, bad_listen_addr,
  bad_gossip_addr, bad_discovery_addr, bad_api_key, bad_heartbeat_timeout, bad_backend_timeout,
  bad_queue_timeout, bad_forward_connect_timeout, bad_forward_read_timeout, bad_max_concurrency,
  bad_state_interval, bad_metadata_interval, bad_probe_interval, bad_probe_timeout,
  bad_suspicion_mult, bad_retransmit_mult,
}

-- The requirement behind each error.
abbrev positive : ℤ → Bool
positive z = ltb 0 (pos_part z)

abbrev blank : Text → Bool
blank s = length s == 0

abbrev pub violates : Config → ConfigError → Bool
violates cfg bad_node_id = blank cfg.node_id
violates cfg bad_listen_addr = blank cfg.listen_addr
violates cfg bad_gossip_addr = blank cfg.gossip_addr
violates cfg bad_discovery_addr = blank cfg.discovery_addr
violates cfg bad_api_key = not (cfg.disable_admin_auth || not (blank cfg.api_key))
violates cfg bad_heartbeat_timeout = not (positive cfg.heartbeat_timeout)
violates cfg bad_backend_timeout = not (positive cfg.backend_timeout)
violates cfg bad_queue_timeout = not (positive cfg.queue_timeout)
violates cfg bad_forward_connect_timeout = not (positive cfg.forward_connect_timeout)
violates cfg bad_forward_read_timeout = not (positive cfg.forward_read_timeout)
violates cfg bad_max_concurrency = not (positive cfg.default_max_concurrency)
violates cfg bad_state_interval = not (positive cfg.gossip_state_interval)
violates cfg bad_metadata_interval = not (positive cfg.gossip_metadata_interval)
violates cfg bad_probe_interval = not (positive cfg.gossip_probe_interval)
violates cfg bad_probe_timeout = not (positive cfg.gossip_probe_timeout)
violates cfg bad_suspicion_mult = not (positive cfg.gossip_suspicion_mult)
violates cfg bad_retransmit_mult = not (positive cfg.gossip_retransmit_mult)

abbrev pub all_errors : List ConfigError
all_errors =
    bad_node_id ∷ bad_listen_addr ∷ bad_gossip_addr ∷ bad_discovery_addr ∷ bad_api_key
    ∷ bad_heartbeat_timeout ∷ bad_backend_timeout ∷ bad_queue_timeout ∷ bad_forward_connect_timeout
    ∷ bad_forward_read_timeout ∷ bad_max_concurrency ∷ bad_state_interval ∷ bad_metadata_interval
    ∷ bad_probe_interval ∷ bad_probe_timeout ∷ bad_suspicion_mult ∷ bad_retransmit_mult ∷ []

-- The first error of a list whose requirement is violated.
abbrev pub first_violated : Config → List ConfigError → Option ConfigError
first_violated cfg [] = none
first_violated cfg (e ∷ es) = if violates cfg e then some e else first_violated cfg es

blank_lem : (s : Text) → is_blank s ≡ blank s
blank_lem [] = refl
blank_lem (c ∷ s) = ground arith

not_positive_lem : (z : ℤ) → not_positive z ≡ not (positive z)
not_positive_lem z = ground arith

below_one : (z : ℤ) → ltb_ℤ z (pos 1) ≡ not (positive z)
below_one z = ground arith

key_lem : (s : Text) (b : Bool) → (not b && is_blank s) ≡ not (b || not (blank s))
key_lem s true = refl
key_lem s false = rw (blank_lem s) (ground arith)

or_else-if :
    (b : Bool) (e : ConfigError) (o rest : Option ConfigError)
    → or_else (if b then some e else o) rest ≡ (if b then some e else or_else o rest)
or_else-if true e o rest = refl
or_else-if false e o rest = refl

first_violated-exists :
    (cfg : Config) (es : List ConfigError)
    → is_some (first_violated cfg es) ≡ exists (violates cfg) es
first_violated-exists cfg [] = refl
first_violated-exists cfg (e ∷ es) = elim (Bool-cases (violates cfg e)) [
  | inl h ↦ rw h refl
  | inr h ↦ rw h (first_violated-exists cfg es)
]

validate_config-first : (cfg : Config) → validate_config cfg ≡ first_violated cfg all_errors
unfolding validate_config validate_node_id validate_listen_addr validate_gossip_addr
    validate_discovery_addr validate_admin_api_key validate_timeouts validate_concurrency
    validate_gossip_settings
validate_config-first cfg =
    rw
      (
        blank_lem cfg.node_id,
        blank_lem cfg.listen_addr,
        blank_lem cfg.gossip_addr,
        blank_lem cfg.discovery_addr,
        key_lem cfg.api_key cfg.disable_admin_auth,
        not_positive_lem cfg.heartbeat_timeout,
        not_positive_lem cfg.backend_timeout,
        not_positive_lem cfg.queue_timeout,
        not_positive_lem cfg.forward_connect_timeout,
        not_positive_lem cfg.forward_read_timeout,
        below_one cfg.default_max_concurrency,
        not_positive_lem cfg.gossip_state_interval,
        not_positive_lem cfg.gossip_metadata_interval,
        not_positive_lem cfg.gossip_probe_interval,
        not_positive_lem cfg.gossip_probe_timeout,
        below_one cfg.gossip_suspicion_mult,
        below_one cfg.gossip_retransmit_mult,
      )
      (simp or_else-if refl)

-- A configuration is rejected exactly if it violates one of the 17 requirements: the identifiers
-- and addresses are given, a key is given unless the admin interface asks for none, and the
-- timeouts, intervals and multipliers are positive. The error is that of the first violated one.
pub validate_config_lem :
    (cfg : Config)
    → (validate_config cfg ≡ first_violated cfg all_errors)
      × (is_some (validate_config cfg) ≡ exists (violates cfg) all_errors)
validate_config_lem cfg = (
  validate_config-first cfg,
  ap is_some (validate_config-first cfg) ∙ first_violated-exists cfg all_errors,
)
