-- ===== src/Models/Node.antt =====
-- internal/models/node.go: `RemoteNodeStore`, behind the thin internal/registry/remote/remote.go.
-- Every method holds the store's lock, so a call is one step; `time.Now()` is an argument. A nil
-- map reads like an empty one and the methods create it before they write: both are `[]` here.
-- Pointers in the store are not shared with others, so an update in place is a new value.
pub mod Health
pub mod Stale
pub mod Invariant
mod Tests
use nova_airouter.Prelude.{
  ℕ, ℤ, pos, ltb_ℤ, Time, elapsed, is_zero, Bool, true, false, not, ◌&&◌, ◌||◌, if◌then◌else◌,
  Option, none, some, List, [], ◌∷◌, ◌++◌, select, exists, map, Text, codes, text_eq, has_prefix,
  has_suffix, drop_last, Dict, lookup, insert, delete, map_values, keep_if, is_some,
}

pub record EndpointState : Type 0 where
  pub active : ℤ  -- int32
  pub queue_len : ℤ  -- int32
  pub healthy : Bool
  pub max_concurrent : ℤ  -- int32
  pub plugin : Bool
  pub response_time : ℤ  -- int64
  pub last_seen : Time

pub record EndpointMetadata : Type 0 where
  pub service_id : Text
  pub service_path : Text
  pub node_path : Text
  pub description : Text
  pub plugin : Bool
  pub max_concurrent : ℤ  -- int32

pub record RemoteNode : Type 0 where
  pub node_id : Text
  pub address : Text
  pub service_port : ℤ
  pub service_path : Text
  pub node_path : Text
  pub ep_id : Text
  pub endpoint_states : Dict EndpointState
  pub endpoint_descriptions : Dict EndpointMetadata
  pub last_seen : Time

abbrev pub RemoteNodeStore : Type 0
RemoteNodeStore = Dict RemoteNode

unfoldable pub new_remote_node_store : RemoteNodeStore
new_remote_node_store = []

unfoldable pub set_node : Text → RemoteNode → RemoteNodeStore → RemoteNodeStore
set_node node_id node s = insert node_id node s

upsert_in : Time → Text → Text → ℤ → Option RemoteNode → RemoteNode
upsert_in now node_id address service_port (some existing) = record existing {
  address = address;
  service_port = service_port;
  last_seen = now;
}
upsert_in now node_id address service_port none = record {
  node_id = node_id;
  address = address;
  service_port = service_port;
  service_path = [];
  node_path = [];
  ep_id = [];
  endpoint_states = [];
  endpoint_descriptions = [];
  last_seen = now;
}

unfoldable pub upsert : Time → Text → Text → ℤ → RemoteNodeStore → RemoteNodeStore
unfolding upsert_in
upsert now node_id address service_port s =
    insert node_id (upsert_in now node_id address service_port (lookup node_id s)) s

unfoldable pub get_node : Text → RemoteNodeStore → Option RemoteNode
get_node node_id s = lookup node_id s

unfoldable pub delete_node : Text → RemoteNodeStore → RemoteNodeStore
delete_node node_id s = delete node_id s

-- `if node, ok := s.nodes[nodeID]; ok { … }`: an update of one node, if it is there.
at_node_in :
    Option RemoteNode → Text → (RemoteNode → RemoteNode) → RemoteNodeStore → RemoteNodeStore
at_node_in none node_id f s = s
at_node_in (some node) node_id f s = insert node_id (f node) s

unfoldable pub at_node : Text → (RemoteNode → RemoteNode) → RemoteNodeStore → RemoteNodeStore
unfolding at_node_in
at_node node_id f s = at_node_in (lookup node_id s) node_id f s

unfoldable pub touch_last_seen : Time → Text → RemoteNodeStore → RemoteNodeStore
touch_last_seen now node_id = at_node node_id (λ node. record node { last_seen = now })

unfoldable pub list_nodes : RemoteNodeStore → List RemoteNode
list_nodes s = map (λ e. e.1) s

-- `for path, state := range endpointStates { … }` of `UpdateState`.
unfoldable pub put_states : Time → Dict EndpointState → Dict EndpointState → Dict EndpointState
put_states now [] m = m
put_states now ((path, state) ∷ rest) m =
    put_states now rest (insert path (record state { last_seen = now }) m)

unfoldable pub update_state : Time → Text → Dict EndpointState → RemoteNodeStore → RemoteNodeStore
update_state now node_id states = at_node node_id λ node. record node {
  endpoint_states = put_states now states node.endpoint_states;
  last_seen = now;
}

-- The state that `UpdateMetadata` leaves at a path, by the one that it finds.
abbrev pub described : Time → EndpointMetadata → Option EndpointState → EndpointState
described now desc none = record {
  active = pos 0;
  queue_len = pos 0;
  healthy = true;
  max_concurrent = desc.max_concurrent;
  plugin = false;
  response_time = pos 0;
  last_seen = now;
}
described now desc (some state) = record state {
  healthy = true;
  max_concurrent = desc.max_concurrent;
  last_seen = now;
}

-- `for path, desc := range descriptions { … }` of `UpdateMetadata`: the states.
unfoldable pub put_described :
    Time → Dict EndpointMetadata → Dict EndpointState → Dict EndpointState
put_described now [] m = m
put_described now ((path, desc) ∷ rest) m =
    put_described now rest (insert path (described now desc (lookup path m)) m)

-- The same loop: the descriptions.
unfoldable pub put_descriptions :
    Dict EndpointMetadata → Dict EndpointMetadata → Dict EndpointMetadata
put_descriptions [] m = m
put_descriptions ((path, desc) ∷ rest) m = put_descriptions rest (insert path desc m)

unfoldable pub update_metadata :
    Time → Text → Dict EndpointMetadata → RemoteNodeStore → RemoteNodeStore
update_metadata now node_id descriptions = at_node node_id λ node. record node {
  endpoint_states = put_described now descriptions node.endpoint_states;
  endpoint_descriptions = put_descriptions descriptions node.endpoint_descriptions;
}

unfoldable pub mark_unhealthy : Text → RemoteNodeStore → RemoteNodeStore
mark_unhealthy node_id = at_node node_id λ node. record node {
  endpoint_states = map_values (λ _ state. record state { healthy = false }) node.endpoint_states;
}

-- The match of a request path and a node path that `GetHealthyNodesForPath` makes inline.
unfoldable pub path_matches : Text → Text → Bool
path_matches path node_path =
    if has_suffix node_path (codes "/")
    then (has_prefix path node_path
        || text_eq (path ++ codes "/") node_path
        || text_eq path (drop_last node_path))
    else (text_eq path node_path || text_eq path (node_path ++ codes "/"))

unfoldable pub serves_path : Text → RemoteNode → Bool
serves_path path node = exists (λ e. (e.1).healthy && path_matches path e.0) node.endpoint_states

unfoldable pub get_healthy_nodes_for_path : Text → RemoteNodeStore → List RemoteNode
get_healthy_nodes_for_path path s = select (serves_path path) (list_nodes s)

-- `!state.LastSeen.IsZero() && now.Sub(state.LastSeen) > endpointTimeout`.
unfoldable pub is_stale : Time → ℤ → EndpointState → Bool
is_stale now endpoint_timeout state =
    not (is_zero state.last_seen) && ltb_ℤ endpoint_timeout (elapsed now state.last_seen)

stale_at : Time → ℤ → Option EndpointState → Bool
stale_at now endpoint_timeout none = false
stale_at now endpoint_timeout (some state) = is_stale now endpoint_timeout state

-- The loop over the endpoints of a node that stays: the descriptions of the deleted paths go too.
unfoldable pub clean_endpoints : Time → ℤ → RemoteNode → RemoteNode
unfolding stale_at
clean_endpoints now endpoint_timeout node = record node {
  endpoint_states =
      keep_if (λ _ state. not (is_stale now endpoint_timeout state)) node.endpoint_states;
  endpoint_descriptions =
      keep_if (λ path _. not (stale_at now endpoint_timeout (lookup path node.endpoint_states)))
        node.endpoint_descriptions;
}

unfoldable pub clean_stale : Time → ℤ → ℤ → RemoteNodeStore → RemoteNodeStore
clean_stale now node_timeout endpoint_timeout s =
    map_values (λ _ node. clean_endpoints now endpoint_timeout node)
      (keep_if (λ _ node. not (ltb_ℤ node_timeout (elapsed now node.last_seen))) s)

unfoldable pub remove_endpoint : Text → Text → RemoteNodeStore → RemoteNodeStore
remove_endpoint node_id path = at_node node_id λ node. record node {
  endpoint_states = delete path node.endpoint_states;
  endpoint_descriptions = delete path node.endpoint_descriptions;
}

-- The calls that gossip makes on the store.
pub data Call : Type 0 where
  upserts : Time → Text → Text → ℤ → Call
  touches : Time → Text → Call
  reports : Time → Text → Dict EndpointState → Call
  describes : Time → Text → Dict EndpointMetadata → Call
  marks_unhealthy : Text → Call
  removes : Text → Call
  removes_endpoint : Text → Text → Call
  cleans : Time → ℤ → ℤ → Call

unfoldable pub step : RemoteNodeStore → Call → RemoteNodeStore
step s (upserts now id address port) = upsert now id address port s
step s (touches now id) = touch_last_seen now id s
step s (reports now id states) = update_state now id states s
step s (describes now id descriptions) = update_metadata now id descriptions s
step s (marks_unhealthy id) = mark_unhealthy id s
step s (removes id) = delete_node id s
step s (removes_endpoint id path) = remove_endpoint id path s
step s (cleans now node_timeout endpoint_timeout) = clean_stale now node_timeout endpoint_timeout s

unfoldable pub run : RemoteNodeStore → List Call → RemoteNodeStore
run s [] = s
run s (c ∷ cs) = run (step s c) cs
