-- ===== src/Gossip/Server.antt =====
-- internal/gossip/gossip.go: the HTTP side of gossip. A request is one step; its body is what the
-- JSON decoder makes of it, none for an error. The peers that a handler lists are read once.
pub mod Refused
pub mod Delivery
mod Tests
use nova_airouter.Prelude.{
  ℕ, ◌+◌, ◌==◌, ltb, Time, Bool, true, false, not, ◌&&◌, ◌||◌, if◌then◌else◌, Option, none, some,
  List, [], ◌∷◌, ◌++◌, map, length, select, Text, text_eq, codes, Dict, lookup, get_elem?,
}
use nova_airouter.Models.Node.{
  EndpointState, EndpointMetadata, RemoteNode, RemoteNodeStore, list_nodes,
}
use nova_airouter.Registry.Local.{LocalRegistry}
use nova_airouter.Registry.Facade.{AggregatedPathInfo, aggregate_local_path_infos}
use nova_airouter.Gossip.Message.{PathInfo, GossipMessage}
use nova_airouter.Gossip.Sync.{
  Peer, Config, Sync, Post, add_peer, remove_peer, get_nodes, message_from, handle_state_message,
  broadcast_node_leave, post_all,
}

pub record ServerConfig : Type 0 where
  pub sync : Config
  pub api_key : Text
  pub disable_admin_auth : Bool

pub record Request : Type 0 where
  pub method : Text
  pub path : Text
  pub api_key : Text  -- the header X-API-Key, empty if it is missing
  pub remote_ip : Text  -- the host of `RemoteAddr`, empty if it cannot be split
  pub query_node_id : Text
  pub body : Option GossipMessage

pub data Reply : Type 0 where
  refused : ℕ → Reply  -- an error status
  accepted : Reply
  joined : Text → List PathInfo → Reply
  node_state : Text → List PathInfo → Reply
  node_ids : List Text → Reply

pub record Served : Type 0 where
  pub sync : Sync
  pub posts : List Post
  pub reply : Reply

-- `requireGossipAuth`.
unfoldable pub is_authorized : ServerConfig → Request → Bool
is_authorized c r =
    if text_eq c.api_key [] || c.disable_admin_auth then true else text_eq r.api_key c.api_key

abbrev pub path_info_of : AggregatedPathInfo → PathInfo
path_info_of agg = record {
  service_id = [];
  service_path = [];
  node_path = agg.node_path;
  active = agg.active;
  queue_len = agg.queue_len;
  healthy = agg.healthy;
  max_concurrent = agg.max_concurrent;
  plugin = agg.plugin;
}

abbrev pub infos_of : Dict AggregatedPathInfo → List PathInfo
infos_of [] = []
infos_of ((_, agg) ∷ m) = path_info_of agg ∷ infos_of m

unfoldable pub get_local_path_infos : LocalRegistry → List PathInfo
get_local_path_infos reg = infos_of (aggregate_local_path_infos reg)

abbrev pub refuse : ℕ → Sync → Served
refuse code s = record { sync = s; posts = []; reply = refused code }

-- What a node posts of its own endpoints, and `sendSyncToPeer`.
abbrev pub sync_message : ServerConfig → LocalRegistry → GossipMessage
sync_message c reg = record (message_from c.sync.node_id) { path_infos = get_local_path_infos reg }

abbrev pub send_sync_to_peer : ServerConfig → LocalRegistry → Text → Post
send_sync_to_peer c reg ip = record {
  to = ip;
  path = codes "/v1/gossip/sync";
  body = sync_message c reg;
}

join_in : ServerConfig → Time → LocalRegistry → Request → Option GossipMessage → Sync → Served
join_in c now reg r none s = refuse 400 s
join_in c now reg r (some msg) s =
    let (s', posts) = add_peer c.sync now (get_local_path_infos reg) msg.node_id r.remote_ip s in
    if text_eq msg.node_id [] then refuse 400 s else record {
      sync = s';
      posts = posts ++ send_sync_to_peer c reg r.remote_ip ∷ [];
      reply = joined c.sync.node_id (get_local_path_infos reg);
    }

unfoldable pub handle_gossip_join : ServerConfig → Time → LocalRegistry → Request → Sync → Served
unfolding join_in
handle_gossip_join c now reg r s =
    if not (is_authorized c r)
    then refuse 401 s
    else if not (text_eq r.method (codes "POST"))
    then refuse 405 s
    else join_in c now reg r r.body s

-- `rn.EndpointDescriptions[path]` of a path that has none is the zero value.
service_path_in : Option EndpointMetadata → Text
service_path_in none = []
service_path_in (some meta) = meta.service_path

infos_of_states : Dict EndpointMetadata → Dict EndpointState → List PathInfo
unfolding service_path_in
infos_of_states descriptions [] = []
infos_of_states descriptions ((path, state) ∷ rest) =
    record {
      service_id = [];
      service_path = service_path_in (lookup path descriptions);
      node_path = path;
      active = state.active;
      queue_len = state.queue_len;
      healthy = state.healthy;
      max_concurrent = state.max_concurrent;
      plugin = state.plugin;
    }
    ∷ infos_of_states descriptions rest

infos_of_node : Text → List RemoteNode → List PathInfo
unfolding infos_of_states
infos_of_node node_id [] = []
infos_of_node node_id (n ∷ ns) =
    let rest = infos_of_node node_id ns in
    if text_eq n.node_id node_id
    then infos_of_states n.endpoint_descriptions n.endpoint_states
    else rest

state_reply_in : Text → Sync → List Peer → Served
unfolding infos_of_node
state_reply_in node_id s [] = refuse 404 s
state_reply_in node_id s (p ∷ ps) = record {
  sync = s;
  posts = [];
  reply = node_state p.node_id (infos_of_node node_id (list_nodes s.nodes));
}

post_state_in : ServerConfig → Time → Option GossipMessage → Sync → Served
post_state_in c now none s = refuse 400 s
post_state_in c now (some msg) s = record {
  sync = handle_state_message c.sync now msg s;
  posts = [];
  reply = accepted;
}

unfoldable pub handle_gossip_state : ServerConfig → Time → Request → Sync → Served
unfolding state_reply_in post_state_in
handle_gossip_state c now r s =
    if not (is_authorized c r)
    then refuse 401 s
    else if text_eq r.method (codes "GET")
    then (if text_eq r.query_node_id []
        then refuse 400 s
        else state_reply_in r.query_node_id s
            (select (λ p. text_eq p.node_id r.query_node_id) (get_nodes s)))
    else if not (text_eq r.method (codes "POST"))
    then refuse 405 s
    else post_state_in c now r.body s

unfoldable pub handle_gossip_nodes : ServerConfig → Request → Sync → Served
handle_gossip_nodes c r s =
    if not (is_authorized c r)
    then refuse 401 s
    else if not (text_eq r.method (codes "GET"))
    then refuse 405 s
    else record {
      sync = s;
      posts = [];
      reply = node_ids (c.sync.node_id ∷ map (λ p. p.node_id) (get_nodes s));
    }

abbrev pub is_empty_list {ℓ} : {A : Type ℓ} → List A → Bool
is_empty_list [] = true
is_empty_list (x ∷ xs) = false

-- Whether a message says anything of the endpoints of its sender.
abbrev pub has_content : GossipMessage → Bool
has_content msg =
    not (is_empty_list msg.path_infos) || not (is_empty_list msg.deleted_paths) || msg.deleted_node

sync_in : ServerConfig → Time → LocalRegistry → Request → Option GossipMessage → Sync → Served
sync_in c now reg r none s = refuse 400 s
sync_in c now reg r (some msg) s =
    let (s', posts) = add_peer c.sync now (get_local_path_infos reg) msg.node_id r.remote_ip s in
    if text_eq msg.node_id [] then record { sync = s; posts = []; reply = accepted } else record {
      sync = if has_content msg then handle_state_message c.sync now msg s' else s';
      posts = posts;
      reply = accepted;
    }

unfoldable pub handle_gossip_sync : ServerConfig → Time → LocalRegistry → Request → Sync → Served
unfolding sync_in
handle_gossip_sync c now reg r s =
    if not (is_authorized c r)
    then refuse 401 s
    else if not (text_eq r.method (codes "POST"))
    then refuse 405 s
    else sync_in c now reg r r.body s

config_in : Option GossipMessage → Sync → Served
config_in none s = refuse 400 s
config_in (some msg) s = record { sync = s; posts = []; reply = accepted }

-- A configuration that is received is only logged.
unfoldable pub handle_gossip_config : ServerConfig → Request → Sync → Served
unfolding config_in
handle_gossip_config c r s =
    if not (is_authorized c r)
    then refuse 401 s
    else if not (text_eq r.method (codes "POST"))
    then refuse 405 s
    else config_in r.body s

-- The routes of `Start`.
unfoldable pub serve : ServerConfig → Time → LocalRegistry → Request → Sync → Served
serve c now reg r s =
    if text_eq r.path (codes "/health")
    then record { sync = s; posts = []; reply = accepted }
    else if text_eq r.path (codes "/v1/gossip/join")
    then handle_gossip_join c now reg r s
    else if text_eq r.path (codes "/v1/gossip/sync")
    then handle_gossip_sync c now reg r s
    else if text_eq r.path (codes "/v1/gossip/peer")
    then handle_gossip_sync c now reg r s
    else if text_eq r.path (codes "/v1/gossip/state")
    then handle_gossip_state c now r s
    else if text_eq r.path (codes "/v1/gossip/nodes")
    then handle_gossip_nodes c r s
    else if text_eq r.path (codes "/v1/gossip/config")
    then handle_gossip_config c r s
    else refuse 404 s

-- `checkSinglePeerHealth`, by the status of the answer, none for an error.
abbrev pub is_ok : Option ℕ → Bool
is_ok none = false
is_ok (some status) = status == 200

-- `checkPeerHealth`: the peers that do not answer with 200 are removed.
unfoldable pub check_peer_health : (Peer → Option ℕ) → List Peer → Sync → Sync
check_peer_health status [] s = s
check_peer_health status (p ∷ ps) s =
    check_peer_health status ps (if is_ok (status p) then s else remove_peer p.node_id s)
