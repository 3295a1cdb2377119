-- ===== src/Gossip/Sync/Messages.antt =====
-- What a state message leaves of a remote node.
use nova_airouter.Prelude.{
  Time, ◌≡◌, refl, true, false, if◌then◌else◌, Option, none, some, List, [], ◌∷◌, inl, inr, Text,
  text_eq, text_eq_iff, text_eq_refl, Dict, lookup, insert, lookup-insert, lookup-delete, Distinct,
  insert-Distinct, arith, Option-cases, exists,
}
use nova_airouter.Models.Node.{
  EndpointState, EndpointMetadata, RemoteNode, RemoteNodeStore, put_states, put_described,
  described, update_state, update_metadata, remove_endpoint,
}
use nova_airouter.Models.Node.Stale.{state_in}
use nova_airouter.Models.Node.Health.{lookup-at_node}
use nova_airouter.Gossip.Message.{PathInfo, GossipMessage}
use nova_airouter.Gossip.Sync.{
  Peer, Config, Sync, state_of, metadata_of, states_of, metadata_map, ensure_node, apply_path_infos,
  remove_endpoints, handle_state_message,
}

-- The last of the path infos for a path.
abbrev pub last_info : Text → List PathInfo → Option PathInfo → Option PathInfo
last_info path [] before = before
last_info path (pi ∷ pis) before =
    last_info path pis (if text_eq pi.node_path path then some pi else before)

-- The state that a path info leaves: as reported, but healthy, and seen now.
abbrev pub recorded : Time → PathInfo → EndpointState
recorded now pi = record (state_of pi) { healthy = true; last_seen = now }

abbrev pub over : {V W : Type 0} → (V → W) → Option V → Option W → Option W
over f none w = w
over f (some v) w = some (f v)

abbrev seen_at : Time → EndpointState → EndpointState
seen_at now st = record st { last_seen = now }

lookup-put_states :
    (now : Time) (path : Text) (sts m : Dict EndpointState)
    → Distinct sts
    → lookup path (put_states now sts m) ≡ over (seen_at now) (lookup path sts) (lookup path m)
unfolding put_states lookup
lookup-put_states now path [] m d = refl
lookup-put_states now path ((k, st) ∷ sts) m d = ground (
  arith,
  text_eq_iff k path,
  lookup-put_states now path sts (insert k (record st { last_seen = now }) m) d.1,
  lookup-insert k path (record st { last_seen = now }) m,
)

lookup-put_described :
    (now : Time) (path : Text) (ds : Dict EndpointMetadata) (m : Dict EndpointState)
    → Distinct ds
    → lookup path (put_described now ds m)
      ≡ over (λ desc. described now desc (lookup path m)) (lookup path ds) (lookup path m)
unfolding put_described lookup
lookup-put_described now path [] m d = refl
lookup-put_described now path ((k, desc) ∷ ds) m d = ground (
  arith,
  text_eq_iff k path,
  lookup-put_described now path ds (insert k (described now desc (lookup k m)) m) d.1,
  lookup-insert k path (described now desc (lookup k m)) m,
)

states_of-Distinct :
    (pis : List PathInfo) (m : Dict EndpointState) → Distinct m → Distinct (states_of pis m)
unfolding states_of
states_of-Distinct [] m d = d
states_of-Distinct (pi ∷ pis) m d = states_of-Distinct pis _ (insert-Distinct pi.node_path _ m d)

metadata_map-Distinct :
    (pis : List PathInfo) (m : Dict EndpointMetadata) → Distinct m → Distinct (metadata_map pis m)
unfolding metadata_map
metadata_map-Distinct [] m d = d
metadata_map-Distinct (pi ∷ pis) m d =
    metadata_map-Distinct pis _ (insert-Distinct pi.node_path _ m d)

map_opt : {V W : Type 0} → (V → W) → Option V → Option W
map_opt f o = over f o none

lookup-states_of :
    (path : Text) (pis : List PathInfo) (before : Option PathInfo) (m : Dict EndpointState)
    → lookup path m ≡ map_opt state_of before
    → lookup path (states_of pis m) ≡ map_opt state_of (last_info path pis before)
unfolding states_of map_opt
lookup-states_of path [] before m h = h
lookup-states_of path (pi ∷ pis) before m h =
    lookup-states_of path pis (if text_eq pi.node_path path then some pi else before)
      (insert pi.node_path (state_of pi) m)
      (ground (arith, lookup-insert pi.node_path path (state_of pi) m))

lookup-metadata_map :
    (path : Text) (pis : List PathInfo) (before : Option PathInfo) (m : Dict EndpointMetadata)
    → lookup path m ≡ map_opt metadata_of before
    → lookup path (metadata_map pis m) ≡ map_opt metadata_of (last_info path pis before)
unfolding metadata_map map_opt
lookup-metadata_map path [] before m h = h
lookup-metadata_map path (pi ∷ pis) before m h =
    lookup-metadata_map path pis (if text_eq pi.node_path path then some pi else before)
      (insert pi.node_path (metadata_of pi) m)
      (ground (arith, lookup-insert pi.node_path path (metadata_of pi) m))

-- The two updates of a message, at one path of the node's states.
merged :
    (now : Time) (path : Text) (pis : List PathInfo) (m : Dict EndpointState)
    → lookup path (put_described now (metadata_map pis []) (put_states now (states_of pis []) m))
      ≡ over (recorded now) (last_info path pis none) (lookup path m)
unfolding map_opt
merged now path pis m =
    rw
      (
        lookup-put_described now path (metadata_map pis []) (put_states now (states_of pis []) m)
            (metadata_map-Distinct pis [] tt),
        lookup-put_states now path (states_of pis []) m (states_of-Distinct pis [] tt),
        lookup-states_of path pis none [] (unfold lookup in refl),
        lookup-metadata_map path pis none [] (unfold lookup in refl),
      )
      (ground arith)

update_states :
    (now : Time) (id path : Text) (pis : List PathInfo) (nodes : RemoteNodeStore)
    (node : RemoteNode)
    → lookup id nodes ≡ some node
    → state_in path (
        lookup id (
          update_metadata now id
            (metadata_map pis [])
            (update_state now id (states_of pis []) nodes)))
      ≡ over (recorded now) (last_info path pis none) (lookup path node.endpoint_states)
unfolding update_metadata update_state
update_states now id path pis nodes node e =
    rw (lookup-at_node, lookup-at_node, text_eq_refl id, e)
      (merged now path pis node.endpoint_states)

-- The node that a message finds, or creates from its peer.
ensure_node-known :
    (c : Config) (now : Time) (id : Text) (node : RemoteNode) (p : Option Peer)
    (nodes : RemoteNodeStore)
    → ensure_node c now id (some node) p nodes ≡ nodes
unfolding ensure_node
ensure_node-known c now id node p nodes = ground arith

state_in-remove_endpoint :
    (id key path : Text) (nodes : RemoteNodeStore)
    → state_in path (lookup id (remove_endpoint id key nodes))
      ≡ (if text_eq key path then none else state_in path (lookup id nodes))
unfolding remove_endpoint
state_in-remove_endpoint id key path nodes =
    rw (lookup-at_node, text_eq_refl id)
      (elim (Option-cases (lookup id nodes)) [
        | inl e ↦ rw e (ground arith)
        | inr (node, e) ↦ rw e (lookup-delete key path node.endpoint_states)
      ])

state_in-remove_endpoints :
    (id path : Text) (keys : List Text) (nodes : RemoteNodeStore)
    → state_in path (lookup id (remove_endpoints id keys nodes))
      ≡ (if exists (λ key. text_eq key path) keys then none else state_in path (lookup id nodes))
unfolding remove_endpoints
state_in-remove_endpoints id path [] nodes = refl
state_in-remove_endpoints id path (key ∷ keys) nodes = ground (
  arith,
  state_in-remove_endpoints id path keys (remove_endpoint id key nodes),
  state_in-remove_endpoint id key path nodes,
)

apply_path_infos-state :
    (c : Config) (now : Time) (id path : Text) (pis : List PathInfo) (s : Sync) (node : RemoteNode)
    → lookup id s.nodes ≡ some node
    → state_in path (lookup id (apply_path_infos c now id pis s).nodes)
      ≡ over (recorded now) (last_info path pis none) (lookup path node.endpoint_states)
unfolding apply_path_infos
apply_path_infos-state c now id path [] s node e = rw e refl
apply_path_infos-state c now id path (pi ∷ pis) s node e =
    rw (e, ensure_node-known c now id node (lookup id s.peers) s.nodes)
      (update_states now id path (pi ∷ pis) s.nodes node e)

-- A state message from a known node that does not leave decides the state of each of its paths: a
-- path among the deleted ones has none; any other path in the message has the reported counts
-- and limit, but is healthy, whatever the message says of its health; and a path that the message
-- does not name keeps its state.
pub handle_state_message-state :
    (c : Config) (now : Time) (msg : GossipMessage) (path : Text) (s : Sync) (node : RemoteNode)
    → lookup msg.node_id s.nodes ≡ some node
    → msg.deleted_node ≡ false
    → state_in path (lookup msg.node_id (handle_state_message c now msg s).nodes) ≡ (
        if exists (λ key. text_eq key path) msg.deleted_paths
        then none
        else over
            (recorded now)
            (last_info path msg.path_infos none)
            (lookup path node.endpoint_states))
unfolding handle_state_message
handle_state_message-state c now msg path s node e stays =
    rw
      (
        stays,
        state_in-remove_endpoints,
        apply_path_infos-state c now msg.node_id path msg.path_infos s node e,
      )
      refl
