-- ===== src/Gossip/Sync/Members.antt =====
-- Who is a member of the cluster: joining, leaving and being forgotten.
use nova_airouter.Prelude.{
  suc, Time, ◌≡◌, refl, ◌∙◌, Bool, true, false, not, ◌&&◌, if◌then◌else◌, Option, none, some,
  is_some, List, [], ◌∷◌, length, Text, text_eq, text_eq_refl, lookup, lookup-insert, lookup-delete,
  arith,
}
use nova_airouter.Models.Node.{
  RemoteNode, RemoteNodeStore, upsert, update_state, update_metadata, remove_endpoint, delete_node,
}
use nova_airouter.Models.Node.Health.{lookup-at_node, IsKept, upsert-IsKept, touch_last_seen-IsKept}
use nova_airouter.Gossip.Message.{PathInfo, GossipMessage}
use nova_airouter.Gossip.Sync.{
  Peer, Config, Sync, add_peer, add_peer_in, add_peer_locked, is_fresh, ensure_node,
  apply_path_infos, remove_endpoints, handle_state_message,
}

-- A peer that is stale at a cleaning.
abbrev pub stale_peer : Config → Time → Option Peer → Bool
stale_peer c now none = false
stale_peer c now (some peer) = not (is_fresh c now peer)

ensure_node-other :
    (c : Config) (now : Time) (id j : Text) (n : Option RemoteNode) (p : Option Peer)
    (nodes : RemoteNodeStore)
    → text_eq id j ≡ false
    → lookup j (ensure_node c now id n p nodes) ≡ lookup j nodes
unfolding ensure_node upsert
ensure_node-other c now id j none (some peer) nodes e = rw (lookup-insert, e) refl
ensure_node-other c now id j _ _ nodes e = refl

remove_endpoints-other :
    (id j : Text) (keys : List Text) (nodes : RemoteNodeStore)
    → text_eq id j ≡ false
    → lookup j (remove_endpoints id keys nodes) ≡ lookup j nodes
unfolding remove_endpoints remove_endpoint
remove_endpoints-other id j [] nodes e = refl
remove_endpoints-other id j (key ∷ keys) nodes e =
    remove_endpoints-other id j keys _ e ∙ rw (lookup-at_node, e) refl

apply_path_infos-other :
    (c : Config) (now : Time) (id j : Text) (pis : List PathInfo) (s : Sync)
    → text_eq id j ≡ false
    → lookup j (apply_path_infos c now id pis s).nodes ≡ lookup j s.nodes
unfolding apply_path_infos update_metadata update_state
apply_path_infos-other c now id j [] s e = refl
apply_path_infos-other c now id j (pi ∷ pis) s e =
    rw (lookup-at_node, e, lookup-at_node, e)
      (ensure_node-other c now id j (lookup id s.nodes) (lookup id s.peers) s.nodes e)

apply_path_infos-peers :
    (c : Config) (now : Time) (id : Text) (pis : List PathInfo) (s : Sync)
    → (apply_path_infos c now id pis s).peers ≡ s.peers
unfolding apply_path_infos
apply_path_infos-peers c now id [] s = refl
apply_path_infos-peers c now id (pi ∷ pis) s = refl

-- A state message speaks of its sender alone: every other node and peer stays as it was. If it says
-- that the sender leaves, neither the sender's node nor its peer is left; if not, the sender's peer
-- stays as it was.
pub handle_state_message-members :
    (c : Config) (now : Time) (msg : GossipMessage) (j : Text) (s : Sync)
    → text_eq msg.node_id j ≡ false
    → let s' = handle_state_message c now msg s in
      (lookup j s'.nodes ≡ lookup j s.nodes)
      × (lookup j s'.peers ≡ lookup j s.peers)
      × (msg.deleted_node && is_some (lookup msg.node_id s'.nodes) ≡ false)
      × (lookup msg.node_id s'.peers
          ≡ (if msg.deleted_node then none else lookup msg.node_id s.peers))
unfolding handle_state_message delete_node
handle_state_message-members c now msg j s other =
    let s₁ = apply_path_infos c now msg.node_id msg.path_infos s in
    let ns = remove_endpoints msg.node_id msg.deleted_paths s₁.nodes in
    let fs = remove_endpoints-other msg.node_id j msg.deleted_paths s₁.nodes in
    ground (
      arith,
      apply_path_infos-other c now msg.node_id j msg.path_infos s,
      apply_path_infos-peers c now msg.node_id msg.path_infos s,
      remove_endpoints-other msg.node_id j msg.deleted_paths s₁.nodes,
      lookup-delete msg.node_id j ns,
      lookup-delete msg.node_id j s₁.peers,
      lookup-delete msg.node_id msg.node_id ns,
      lookup-delete msg.node_id msg.node_id s₁.peers,
      text_eq_refl msg.node_id,
    )

abbrev Joined : Text → Sync → Sync × Bool → Type 0
Joined id s r =
    (is_some (lookup id r.0.peers) ≡ true)
    × (length r.0.peers
        ≡ (if is_some (lookup id s.peers) then length s.peers else suc (length s.peers)))
    × (r.1 ≡ not (is_some (lookup id s.peers)))

add_peer_in-IsKept :
    (c : Config) (now : Time) (id address : Text) (o : Option Peer) (s : Sync) (node : RemoteNode)
    → lookup id s.nodes ≡ some node
    → IsKept node (lookup id (add_peer_in c now id address o s).0.nodes)
unfolding add_peer_in
add_peer_in-IsKept c now id address none s node e = upsert-IsKept now id _ _ s.nodes node e
add_peer_in-IsKept c now id address (some peer) s node e =
    touch_last_seen-IsKept now id s.nodes node e

-- Joining again keeps what is known of the endpoints of a node.
pub add_peer-IsKept :
    (c : Config) (now : Time) (infos : List PathInfo) (id address : Text) (s : Sync)
    (node : RemoteNode)
    → lookup id s.nodes ≡ some node
    → IsKept node (lookup id (add_peer c now infos id address s).0.nodes)
unfolding add_peer add_peer_locked
add_peer-IsKept c now infos id address s node e =
    add_peer_in-IsKept c now id address (lookup id s.peers) s node e
