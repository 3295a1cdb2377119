-- ===== src/Gossip/Sync/Tests.antt =====
-- Messages between three nodes.
use nova_airouter.Prelude.{
  pos, second, ◌*◌, ◌≡◌, refl, true, false, ◌&&◌, some, is_some, [], ◌∷◌, Text, codes, text_eq,
  lookup,
}
use nova_airouter.Models.Node.{RemoteNode}
use nova_airouter.Models.Node.Stale.{state_in}
use nova_airouter.Gossip.Message.{PathInfo, GossipMessage}
use nova_airouter.Gossip.Sync.{Peer, Config, Sync, message_from, handle_state_message, state_of}
use nova_airouter.Gossip.Sync.Messages.{handle_state_message-state}
use nova_airouter.Gossip.Sync.Members.{handle_state_message-members}

abbrev n1 : Text
n1 = codes "n1"

abbrev n2 : Text
n2 = codes "n2"

abbrev chat : Text
chat = codes "/chat"

abbrev config : Config
config = record {
  node_id = codes "n0";
  listen_port = pos 15050;
  scan_port = λ t. pos 80;
  peer_timeout = pos (90 * second);
}

abbrev node : RemoteNode
node = record {
  node_id = n1;
  address = codes "10.0.0.1";
  service_port = pos 15050;
  service_path = [];
  node_path = [];
  ep_id = [];
  endpoint_states = [];
  endpoint_descriptions = [];
  last_seen = 1;
}

abbrev peer : Peer
peer = record { node_id = n1; address = codes "10.0.0.1"; last_seen = 1 }

abbrev cluster : Sync
cluster = record { peers = (n1, peer) ∷ []; nodes = (n1, node) ∷ [] }

abbrev sick : PathInfo
sick = record {
  service_id = [];
  service_path = [];
  node_path = chat;
  active = pos 3;
  queue_len = pos 2;
  healthy = false;
  max_concurrent = pos 8;
  plugin = false;
}

abbrev sick_message : GossipMessage
sick_message = record (message_from n1) { path_infos = sick ∷ [] }

-- The endpoint was reported unhealthy, and is recorded as healthy.
handle_state_message-state_example :
    state_in chat (lookup n1 (handle_state_message config 5 sick_message cluster).nodes)
    ≡ some (record (state_of sick) { healthy = true; last_seen = 5 })
unfolding text_eq lookup
handle_state_message-state_example =
    handle_state_message-state config 5 sick_message chat cluster node refl refl

other_id : text_eq n1 n2 ≡ false
unfolding text_eq
other_id = refl

handle_state_message-members_example :
    let s' = handle_state_message config 5 sick_message cluster in
    (lookup n2 s'.nodes ≡ lookup n2 cluster.nodes)
    × (lookup n2 s'.peers ≡ lookup n2 cluster.peers)
    × (false && is_some (lookup n1 s'.nodes) ≡ false)
    × (lookup n1 s'.peers ≡ lookup n1 cluster.peers)
handle_state_message-members_example =
    handle_state_message-members config 5 sick_message n2 cluster other_id
