-- ===== src/Models/Node/Stale.antt =====
-- What `CleanStale` removes and what it keeps.
use nova_airouter.Prelude.{
  ℕ, ◌+◌, ltb, ℤ, Time, elapsed, ltb_ℤ, is_zero, ◌≡◌, Bool, false, not, ◌&&◌, if◌then◌else◌, Option,
  none, some, Text, lookup, Distinct, lookup-keep_if, lookup-map_values, arith,
}
use nova_airouter.Models.Node.{
  EndpointState, EndpointMetadata, RemoteNode, RemoteNodeStore, clean_endpoints, clean_stale,
}

-- What a cleaning leaves at a node's key.
abbrev pub cleaned : Time → ℤ → ℤ → Option RemoteNode → Option RemoteNode
cleaned now node_timeout endpoint_timeout none = none
cleaned now node_timeout endpoint_timeout (some node) =
    if ltb_ℤ node_timeout (elapsed now node.last_seen)
    then none
    else some (clean_endpoints now endpoint_timeout node)

pub lookup-clean_stale :
    (now : Time) (node_timeout endpoint_timeout : ℤ) (id : Text) (s : RemoteNodeStore)
    → Distinct s
    → lookup id (clean_stale now node_timeout endpoint_timeout s)
      ≡ cleaned now node_timeout endpoint_timeout (lookup id s)
unfolding clean_stale
lookup-clean_stale now nt et id s d = rw (lookup-map_values, lookup-keep_if _ id s d) (ground arith)

-- The state and the description of a path at a node.
abbrev pub state_in : Text → Option RemoteNode → Option EndpointState
state_in path none = none
state_in path (some node) = lookup path node.endpoint_states

abbrev pub description_in : Text → Option RemoteNode → Option EndpointMetadata
description_in path none = none
description_in path (some node) = lookup path node.endpoint_descriptions

-- Every map in the store has distinct keys.
pub record IsStore (s : RemoteNodeStore) : Type 0 where
  pub ids : Distinct s
  pub states :
      (id : Text) (node : RemoteNode) → lookup id s ≡ some node → Distinct node.endpoint_states
  pub descriptions :
      (id : Text) (node : RemoteNode)
      → lookup id s ≡ some node
      → Distinct node.endpoint_descriptions

-- An endpoint that was seen, and not in the last `timeout` nanoseconds.
abbrev pub outlived : Time → ℕ → Option EndpointState → Bool
outlived now timeout none = false
outlived now timeout (some state) =
    not (is_zero state.last_seen) && ltb (state.last_seen + timeout) now
