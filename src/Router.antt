-- ===== src/Router.antt =====
-- internal/business/router/router.go: which node a request goes to. A request is one step: the
-- registry and the pools do not change between its reads. The pool manager is there. The waits
-- between attempts and `strings.TrimSpace` are not modelled; the latter is a parameter.
pub mod Handler
pub mod Candidates
pub mod Answers
pub mod Longest
mod Tests
use nova_airouter.Prelude.{
  ℕ, zero, suc, ◌+◌, ltb, ◌==◌, ℤ, pos, ◌+ℤ◌, i32, ltb_ℤ, Bool, true, false, not, ◌&&◌, ◌||◌,
  if◌then◌else◌, Option, none, some, List, [], ◌∷◌, ◌++◌, map, length, select, exists, Text,
  text_eq, codes, has_prefix, has_suffix, drop_last, Dict, lookup,
}
use nova_airouter.Models.Node.{
  EndpointState, EndpointMetadata, RemoteNode, RemoteNodeStore, list_nodes,
}
use nova_airouter.Models.Endpoint.{LocalEndpoint, LocalEndpointStore, get_all, list_by_node_path}
use nova_airouter.Pool.Requests.{PoolMetrics}
use nova_airouter.Pool.Remote.{RemoteCounters, get_remote_active}
use nova_airouter.Balancer.{Float64, Draws, Selection, nothing, picked, panicked, select_node}

-- What a request finds: this node's id, the registry, `GetPool(…).GetMetrics()` and the counters of
-- the pool manager.
pub record Env : Type 0 where
  pub node_id : Text
  pub endpoints : LocalEndpointStore
  pub nodes : RemoteNodeStore
  pub pool_metrics : Text → Text → Option PoolMetrics
  pub counters : RemoteCounters
  pub trim_space : Text → Text

-- `strings.Split(s, ",")`.
unfoldable pub split_commas : Text → List Text
split_commas [] = [] ∷ []
split_commas (c ∷ s) =
    let rest = split_commas s in
    if c == b',' then [] ∷ rest else elim rest [ [] ↦ (c ∷ []) ∷ [] | p ∷ ps ↦ (c ∷ p) ∷ ps ]

-- The nodes that `X-Forwarded-By` names.
unfoldable pub already_seen : Env → Text → Text → Bool
already_seen env [] id = false
already_seen env (c ∷ s) id =
    exists (λ part. text_eq (env.trim_space part) id) (split_commas (c ∷ s))

unfoldable pub match_node_path : Text → Text → Bool
match_node_path request_path node_path =
    if has_suffix node_path (codes "/")
    then (has_prefix request_path node_path
        || text_eq (request_path ++ codes "/") node_path
        || text_eq request_path (drop_last node_path))
    else (text_eq request_path node_path || text_eq request_path (node_path ++ codes "/"))

-- The loop for the longest local node path, of which `best` is the longest so far.
unfoldable pub longest_local : Text → Text → Dict LocalEndpoint → Text
longest_local path best [] = best
longest_local path best ((_, ep) ∷ rest) =
    longest_local path
      (if ep.healthy
          && (match_node_path path ep.node_path && ltb (length best) (length ep.node_path))
        then ep.node_path
        else best)
      rest

pub record Totals : Type 0 where
  pub max_concurrent : ℤ  -- int32
  pub active : ℤ  -- int32
  pub queue_len : ℤ  -- int32
  pub has_plugin : Bool
  pub has_regular : Bool

add_metrics : Option PoolMetrics → Totals → Totals
add_metrics none t = t
add_metrics (some m) t = record t {
  active = i32 (t.active +ℤ m.active);
  queue_len = i32 (t.queue_len +ℤ m.queue_len);
}

unfoldable pub add_backends : Env → Text → List LocalEndpoint → Totals → Totals
unfolding add_metrics
add_backends env best [] t = t
add_backends env best (ep ∷ eps) t =
    let t' = add_metrics (env.pool_metrics best ep.ep_id) (record t {
      max_concurrent = i32 (t.max_concurrent +ℤ ep.max_concurrent);
      has_plugin = t.has_plugin || ep.plugin;
      has_regular = t.has_regular || not ep.plugin;
    }) in
    add_backends env best eps (if ep.healthy then t' else t)

abbrev pub no_totals : Totals
no_totals = record {
  max_concurrent = pos 0;
  active = pos 0;
  queue_len = pos 0;
  has_plugin = false;
  has_regular = false;
}

pub record NodesForPath : Type 0 where
  pub plugin_nodes : List RemoteNode
  pub regular_nodes : List RemoteNode

abbrev pub add_node : Bool → RemoteNode → NodesForPath → NodesForPath
add_node true node c = record c { plugin_nodes = c.plugin_nodes ++ node ∷ [] }
add_node false node c = record c { regular_nodes = c.regular_nodes ++ node ∷ [] }

-- A candidate with the one state that counts.
abbrev pub candidate : Text → Text → ℤ → Text → EndpointState → RemoteNode
candidate id address port path state = record {
  node_id = id;
  address = address;
  service_port = port;
  service_path = [];
  node_path = path;
  ep_id = [];
  endpoint_states = (path, state) ∷ [];
  endpoint_descriptions = [];
  last_seen = 0;
}

unfoldable pub local_node : Env → Text → Totals → RemoteNode
local_node env best t = candidate env.node_id (codes "127.0.0.1") (pos 0) best (record {
  active = t.active;
  queue_len = t.queue_len;
  healthy = true;
  max_concurrent = t.max_concurrent;
  plugin = t.has_plugin && not t.has_regular;
  response_time = pos 0;
  last_seen = 0;
})

add_local : Env → (Text → Bool) → Text → NodesForPath → NodesForPath
add_local env seen [] c = c
add_local env seen (b ∷ best) c =
    let t = add_backends env (b ∷ best) (list_by_node_path (b ∷ best) env.endpoints) no_totals in
    if ltb_ℤ (pos 0) t.max_concurrent && not (seen env.node_id)
    then add_node (t.has_plugin && not t.has_regular) (local_node env (b ∷ best) t) c
    else c

-- The length of the longest remote node path, over the states of a node and over the nodes.
unfoldable pub longest_state : Text → ℕ → Dict EndpointState → ℕ
longest_state path best [] = best
longest_state path best ((node_path, _) ∷ rest) =
    longest_state path
      (if match_node_path path node_path && ltb best (length node_path)
        then length node_path
        else best)
      rest

unfoldable pub longest_remote : Text → ℕ → List RemoteNode → ℕ
longest_remote path best [] = best
longest_remote path best (node ∷ nodes) =
    longest_remote path (longest_state path best node.endpoint_states) nodes

plugin_in : EndpointState → Option EndpointMetadata → Bool
plugin_in state none = state.plugin
plugin_in state (some desc) = desc.plugin

unfoldable pub forward_node : Env → RemoteNode → Text → EndpointState → RemoteNode
unfolding plugin_in
forward_node env node node_path state =
    let estimated = i32 (state.active +ℤ get_remote_active node.node_id node_path env.counters) in
    candidate node.node_id node.address node.service_port node_path (record {
      active = if ltb_ℤ estimated (pos 0) then pos 0 else estimated;
      queue_len = state.queue_len;
      healthy = true;
      max_concurrent = state.max_concurrent;
      plugin = plugin_in state (lookup node_path node.endpoint_descriptions);
      response_time = pos 0;
      last_seen = 0;
    })

-- The loop over the states of one node; `best` is the length of the longest match.
unfoldable pub add_states :
    Env → Text → ℕ → RemoteNode → Dict EndpointState → NodesForPath → NodesForPath
unfolding plugin_in
add_states env path best node [] c = c
add_states env path best node ((node_path, state) ∷ rest) c =
    let c' =
      add_node (plugin_in state (lookup node_path node.endpoint_descriptions))
        (forward_node env node node_path state) c in
    add_states env path best node rest (
      if state.healthy && (match_node_path path node_path && (length node_path == best))
      then c'
      else c)

unfoldable pub add_remote :
    Env → (Text → Bool) → Text → ℕ → List RemoteNode → NodesForPath → NodesForPath
add_remote env seen path best [] c = c
add_remote env seen path best (node ∷ nodes) c =
    add_remote env seen path best nodes
      (if seen node.node_id then c else add_states env path best node node.endpoint_states c)

pub add_longest : Env → (Text → Bool) → Text → ℕ → List RemoteNode → NodesForPath → NodesForPath
add_longest env seen path zero nodes c = c
add_longest env seen path (suc n) nodes c = add_remote env seen path (suc n) nodes c

unfoldable pub get_nodes_for_path : Env → Text → (Text → Bool) → NodesForPath
unfolding add_local add_longest
get_nodes_for_path env path seen =
    let none_yet : NodesForPath = record { plugin_nodes = []; regular_nodes = [] } in
    let c = add_local env seen (longest_local path [] (get_all env.endpoints)) none_yet in
    let nodes = list_nodes env.nodes in
    add_longest env seen path (longest_remote path 0 nodes) nodes c
