-- ===== src/Gossip/Server/Tests.antt =====
-- A node that announces one endpoint, and nodes that receive.
use nova_airouter.Prelude.{
  pos, second, ◌*◌, ◌≡◌, refl, true, false, none, some, [], ◌∷◌, Text, codes, text_eq, lookup,
}
use mathlib.Core.Option
use nova_airouter.Models.Node.{RemoteNode}
use nova_airouter.Models.Node.Stale.{state_in}
use nova_airouter.Models.Endpoint.{LocalEndpoint}
use nova_airouter.Registry.Local.{LocalRegistry}
use nova_airouter.Registry.Facade.{aggregate_local_path_infos}
use nova_airouter.Gossip.Sync.{Sync}
use nova_airouter.Gossip.Sync.Messages.{over, recorded}
use nova_airouter.Gossip.Server.{
  ServerConfig, Request, is_authorized, path_info_of, sync_message, serve,
}
use nova_airouter.Gossip.Server.Delivery.{sync_delivered}

abbrev server : Text → ServerConfig
server id = record {
  sync = record {
    node_id = id;
    listen_port = pos 15050;
    scan_port = λ t. pos 80;
    peer_timeout = pos (90 * second);
  };
  api_key = codes "k";
  disable_admin_auth = false;
}

abbrev chat : LocalEndpoint
chat = record {
  service_id = codes "s";
  ep_id = codes "a";
  service_path = codes "/";
  node_path = codes "/chat";
  description = [];
  healthy = true;
  last_heartbeat = 9;
  active = pos 2;
  queue_len = pos 0;
  max_concurrent = pos 4;
  local_only = false;
  plugin = false;
}

abbrev sender : LocalRegistry
sender = record { endpoints = (codes "/chat", (codes "a", chat) ∷ []) ∷ []; service_map = [] }

abbrev nothing : LocalRegistry
nothing = record { endpoints = []; service_map = [] }

abbrev known : RemoteNode
known = record {
  node_id = codes "n1";
  address = codes "10.0.0.1";
  service_port = pos 15050;
  service_path = [];
  node_path = [];
  ep_id = [];
  endpoint_states = [];
  endpoint_descriptions = [];
  last_seen = 1;
}

abbrev cluster : Sync
cluster = record {
  peers =
      (codes "n1", record { node_id = codes "n1"; address = codes "10.0.0.1"; last_seen = 1 }) ∷ [];
  nodes = (codes "n1", known) ∷ [];
}

abbrev announced : Request
announced = record {
  method = codes "POST";
  path = codes "/v1/gossip/sync";
  api_key = codes "k";
  remote_ip = codes "10.0.0.1";
  query_node_id = [];
  body = some (sync_message (server (codes "n1")) sender);
}

abbrev keyless : Request
keyless = record announced { api_key = [] }

sync_delivered_example :
    state_in
      (codes "/chat")
      (lookup (codes "n1") (serve (server (codes "n0")) 5 nothing announced cluster).sync.nodes)
    ≡ over
        (recorded 5)
        (Option.map path_info_of (lookup (codes "/chat") (aggregate_local_path_infos sender)))
        none
unfolding is_authorized text_eq lookup
sync_delivered_example =
    sync_delivered (server (codes "n1")) (server (codes "n0")) 5 sender nothing announced
      (codes "/chat") cluster known refl refl refl refl (λ e. absurd (cc)) refl
