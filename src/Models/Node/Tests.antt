-- ===== src/Models/Node/Tests.antt =====
-- A store with two nodes, cleaned.
use nova_airouter.Prelude.{pos, true, false, List, [], ◌∷◌, Text, codes}
use nova_airouter.Models.Node.{EndpointState, RemoteNode, Call, upserts, reports}

abbrev n1 : Text
n1 = codes "n1"

abbrev chat : Text
chat = codes "/chat"

abbrev busy : EndpointState
busy = record {
  active = pos 3;
  queue_len = pos 0;
  healthy = true;
  max_concurrent = pos 4;
  plugin = false;
  response_time = pos 0;
  last_seen = 0;
}

abbrev calls : List Call
calls = upserts 1 n1 (codes "10.0.0.1") (pos 80) ∷ reports 2 n1 ((chat, busy) ∷ []) ∷ []

abbrev node : RemoteNode
node = record {
  node_id = n1;
  address = codes "10.0.0.1";
  service_port = pos 80;
  service_path = [];
  node_path = [];
  ep_id = [];
  endpoint_states = (chat, record busy { last_seen = 2 }) ∷ [];
  endpoint_descriptions = [];
  last_seen = 2;
}
