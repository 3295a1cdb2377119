-- ===== src/Forwarder/Tests.antt =====
-- A request that goes through two nodes and comes back.
use nova_airouter.Prelude.{
  pos, ◌≡◌, refl, true, not, ◌&&◌, ◌||◌, if◌then◌else◌, some, is_some, [], ◌∷◌, Text, codes, lookup,
  arith,
}
use nova_airouter.Models.Node.{RemoteNode}
use nova_airouter.Pool.Remote.{RemoteCounters, get_remote_active}
use nova_airouter.Forwarder.{
  contains, header_get, forwarded_by, Incoming, Client, outgoing, loop_detected,
  handle_forwarded_request,
}
use nova_airouter.Forwarder.Loops.{travel, comes_back}
use nova_airouter.Forwarder.Counts.{is_fine, handle_forwarded_request_lem}

abbrev n1 : Text
n1 = codes "n1"

abbrev node : RemoteNode
node = record {
  node_id = codes "n2";
  address = codes "10.0.0.2";
  service_port = pos 15050;
  service_path = [];
  node_path = codes "/chat";
  ep_id = [];
  endpoint_states = [];
  endpoint_descriptions = [];
  last_seen = 1;
}

abbrev request : Incoming
request = record { method = codes "GET"; path = codes "/chat"; raw_query = []; header = [] }

abbrev back : Incoming
back = record request { header = travel (codes "n2" ∷ []) (outgoing n1 node request).header }

abbrev client : Client
client = record {
  accepts = λ out. true;
  answer = λ out. some (record { status = 503; header = [] });
}

abbrev counters : RemoteCounters
counters = record { remote_counters = []; remote_snapshots = [] }

comes_back_example :
    handle_forwarded_request client n1 node back counters
    ≡ record { counters = counters; sent = []; written = some loop_detected; is_error = true }
comes_back_example = comes_back client n1 (codes "n2" ∷ []) node node request back counters refl

handle_forwarded_request_example :
    let out = outgoing n1 node request in
    let loops = contains (header_get forwarded_by request.header) n1 in
    let v = handle_forwarded_request client n1 node request counters in
    (get_remote_active (codes "n2") (codes "/chat") v.counters
      ≡ get_remote_active (codes "n2") (codes "/chat") counters)
    × (v.sent ≡ (if not loops && client.accepts out then out ∷ [] else []))
    × (v.is_error ≡ (loops || not (client.accepts out) || not (is_fine (client.answer out))))
    × (is_some v.written ≡ (loops || (client.accepts out && is_some (client.answer out))))
unfolding get_remote_active lookup
handle_forwarded_request_example =
    handle_forwarded_request_lem client (codes "n2") (codes "/chat") n1 node request counters
      (omega arith) (omega arith)
