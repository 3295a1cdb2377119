-- ===== src/Gossip/Sync.antt =====
-- internal/gossip/sync/sync.go: the peers of this node and what their messages do to the registry
-- of remote nodes. A handler is one step with one reading of the clock; two handlers that interleave
-- between their locked calls are not modelled. What `fmt.Sscanf` reads is a parameter. A message to
-- a peer is an element of the result.
pub mod Messages
pub mod Members
mod Tests
use nova_airouter.Prelude.{
  ℕ, suc, ◌+◌, ◌==◌, ℤ, pos, ltb_ℤ, Time, elapsed, Bool, true, false, not, if◌then◌else◌, Option,
  none, some, is_some, List, [], ◌∷◌, ◌++◌, map, length, Text, codes, text_eq, Dict, lookup, insert,
  delete, keep_if, select,
}
use nova_airouter.Models.Node.{
  EndpointState, EndpointMetadata, RemoteNode, RemoteNodeStore, upsert, touch_last_seen,
  delete_node, get_node, update_state, update_metadata, remove_endpoint,
}
use nova_airouter.Gossip.Message.{PathInfo, PeerInfo, GossipMessage}

pub record Peer : Type 0 where
  pub node_id : Text
  pub address : Text
  pub last_seen : Time

-- The configuration that the service reads, and `fmt.Sscanf` on it.
pub record Config : Type 0 where
  pub node_id : Text
  pub listen_port : ℤ  -- what `Sscanf(GetListenAddr(), ":%d", &bindPort)` leaves in `bindPort`
  pub scan_port : Text → ℤ  -- what `Sscanf(text, "%d", &port)` leaves in `port`
  pub peer_timeout : ℤ

pub record Sync : Type 0 where
  pub peers : Dict Peer
  pub nodes : RemoteNodeStore

unfoldable pub new : Sync
new = record { peers = []; nodes = [] }

abbrev pub default_port : ℤ
default_port = pos 15050

is_zero_ℤ : ℤ → Bool
is_zero_ℤ (pos n) = n == 0
is_zero_ℤ _ = false

-- `bindPort`, or 15050 if the configuration gives none.
unfoldable pub bind_port : Config → ℤ
unfolding is_zero_ℤ
bind_port c = if is_zero_ℤ c.listen_port then default_port else c.listen_port

-- `strings.Split(address, ":")[0]`.
unfoldable pub host_of : Text → Text
host_of [] = []
host_of (c ∷ s) = if c == b':' then [] else c ∷ host_of s

-- `strings.Split(address, ":")[1]`, if there is one.
unfoldable pub port_of : Text → Option Text
unfolding host_of
port_of [] = none
port_of (c ∷ s) = if c == b':' then some (host_of s) else port_of s

port_in : Config → Option Text → ℤ
unfolding bind_port
port_in c (some (d ∷ s)) = c.scan_port (d ∷ s)
port_in c _ = bind_port c

host_or_local : Text → Text
host_or_local [] = codes "127.0.0.1"
host_or_local (d ∷ s) = d ∷ s

add_peer_in : Config → Time → Text → Text → Option Peer → Sync → Sync × Bool
unfolding port_in host_or_local
add_peer_in c now node_id address (some peer) s = (
  record {
    peers = insert node_id (record peer { last_seen = now }) s.peers;
    nodes = touch_last_seen now node_id s.nodes;
  },
  false,
)
add_peer_in c now node_id address none s = (
  record {
    peers =
        insert node_id (record { node_id = node_id; address = address; last_seen = now }) s.peers;
    nodes =
        upsert now node_id (host_or_local (host_of address)) (port_in c (port_of address)) s.nodes;
  },
  true,
)

unfoldable pub add_peer_locked : Config → Time → Text → Text → Sync → Sync × Bool
unfolding add_peer_in
add_peer_locked c now node_id address s =
    add_peer_in c now node_id address (lookup node_id s.peers) s

unfoldable pub remove_peer : Text → Sync → Sync
remove_peer node_id s = record {
  peers = delete node_id s.peers;
  nodes = delete_node node_id s.nodes;
}

unfoldable pub get_cluster_size : Sync → ℕ
get_cluster_size s = length s.peers + 1

-- A message posted to a peer: the address, the path and the body.
pub record Post : Type 0 where
  pub to : Text
  pub path : Text
  pub body : GossipMessage

abbrev pub post_all : Text → GossipMessage → List Peer → List Post
post_all path body [] = []
post_all path body (p ∷ ps) =
    record { to = p.address; path = path; body = body } ∷ post_all path body ps

unfoldable pub get_nodes : Sync → List Peer
get_nodes s = map (λ e. e.1) s.peers

abbrev pub message_from : Text → GossipMessage
message_from node_id = record {
  type = [];
  node_id = node_id;
  peer = none;
  path_infos = [];
  deleted_paths = [];
  deleted_node = false;
}

-- `notifyPeersOfNewNode`: everyone but the newcomer hears of it.
unfoldable pub notify_peers_of_new_node : Text → Text → Sync → List Post
notify_peers_of_new_node node_id address s =
    post_all (codes "/v1/gossip/peer")
      (record (message_from []) {
        type = codes "peer_announce";
        peer = some (record { node_id = node_id; address = address; healthy = true });
      })
      (select (λ p. not (text_eq p.node_id node_id)) (get_nodes s))

-- `BroadcastSync`, given the aggregated local endpoints in the order of the map.
unfoldable pub broadcast_sync : Config → List PathInfo → Sync → List Post
broadcast_sync c infos s =
    post_all (codes "/v1/gossip/sync") (record (message_from c.node_id) { path_infos = infos })
      (get_nodes s)

-- `AddPeer`: the new state and what is sent.
unfoldable pub add_peer : Config → Time → List PathInfo → Text → Text → Sync → Sync × List Post
add_peer c now infos node_id address s =
    let (s', is_new) = add_peer_locked c now node_id address s in
    (
      s',
      if is_new
          then broadcast_sync c infos s' ++ notify_peers_of_new_node node_id address s'
          else [],
    )

unfoldable pub broadcast_deleted_paths : Config → List Text → Sync → List Post
broadcast_deleted_paths c paths s =
    post_all (codes "/v1/gossip/sync") (record (message_from c.node_id) { deleted_paths = paths })
      (get_nodes s)

unfoldable pub broadcast_node_leave : Config → Sync → List Post
broadcast_node_leave c s =
    post_all (codes "/v1/gossip/sync") (record (message_from c.node_id) { deleted_node = true })
      (get_nodes s)

-- The two maps that `HandleStateMessage` builds from the path infos.
abbrev pub state_of : PathInfo → EndpointState
state_of pi = record {
  active = pi.active;
  queue_len = pi.queue_len;
  healthy = pi.healthy;
  max_concurrent = pi.max_concurrent;
  plugin = pi.plugin;
  response_time = pos 0;
  last_seen = 0;
}

abbrev pub metadata_of : PathInfo → EndpointMetadata
metadata_of pi = record {
  service_id = [];
  service_path = [];
  node_path = pi.node_path;
  description = [];
  plugin = pi.plugin;
  max_concurrent = pi.max_concurrent;
}

unfoldable pub states_of : List PathInfo → Dict EndpointState → Dict EndpointState
states_of [] m = m
states_of (pi ∷ pis) m = states_of pis (insert pi.node_path (state_of pi) m)

unfoldable pub metadata_map : List PathInfo → Dict EndpointMetadata → Dict EndpointMetadata
metadata_map [] m = m
metadata_map (pi ∷ pis) m = metadata_map pis (insert pi.node_path (metadata_of pi) m)

-- `if !HasRemoteNode { if peer, ok := s.peers[…]; ok { UpdateRemoteNode } }`.
ensure_node :
    Config → Time → Text → Option RemoteNode → Option Peer → RemoteNodeStore → RemoteNodeStore
ensure_node c now node_id none (some peer) nodes =
    upsert now node_id peer.address (bind_port c) nodes
ensure_node c now node_id _ _ nodes = nodes

unfoldable pub apply_path_infos : Config → Time → Text → List PathInfo → Sync → Sync
unfolding ensure_node
apply_path_infos c now node_id [] s = s
apply_path_infos c now node_id (pi ∷ pis) s =
    let nodes =
      ensure_node c now node_id (lookup node_id s.nodes) (lookup node_id s.peers) s.nodes in
    record s {
      nodes =
          update_metadata now node_id (metadata_map (pi ∷ pis) [])
            (update_state now node_id (states_of (pi ∷ pis) []) nodes);
    }

unfoldable pub remove_endpoints : Text → List Text → RemoteNodeStore → RemoteNodeStore
remove_endpoints node_id [] nodes = nodes
remove_endpoints node_id (path ∷ paths) nodes =
    remove_endpoints node_id paths (remove_endpoint node_id path nodes)

unfoldable pub handle_state_message : Config → Time → GossipMessage → Sync → Sync
handle_state_message c now msg s =
    let s₁ = apply_path_infos c now msg.node_id msg.path_infos s in
    let s₂ = record s₁ { nodes = remove_endpoints msg.node_id msg.deleted_paths s₁.nodes } in
    if msg.deleted_node
    then record { peers = delete msg.node_id s₂.peers; nodes = delete_node msg.node_id s₂.nodes }
    else s₂

abbrev pub is_fresh : Config → Time → Peer → Bool
is_fresh c now peer = not (ltb_ℤ c.peer_timeout (elapsed now peer.last_seen))

-- The loop over the peers: a stale one is deleted with its remote node.
unfoldable pub drop_stale_nodes : Config → Time → Dict Peer → RemoteNodeStore → RemoteNodeStore
drop_stale_nodes c now [] nodes = nodes
drop_stale_nodes c now ((node_id, peer) ∷ rest) nodes =
    drop_stale_nodes c now rest (if is_fresh c now peer then nodes else delete_node node_id nodes)

unfoldable pub cleanup_stale_peers : Config → Time → Sync → Sync
cleanup_stale_peers c now s = record {
  peers = keep_if (λ _ peer. is_fresh c now peer) s.peers;
  nodes = drop_stale_nodes c now s.peers s.nodes;
}
