-- ===== src/Plugin/Tests.antt =====
-- A plugin with one model on two backends.
use nova_airouter.Prelude.{
  ℕ, zero, suc, second, ◌*◌, pos, negsuc, ◌≡◌, refl, true, false, Option, none, some, List, [], ◌∷◌,
  inl, inr, Text, text_eq, codes, lookup, insert, arith,
}
use nova_airouter.Balancer.{Float64}
use nova_airouter.Plugin.{Backend, Heap, ModelBackend, Plugin, default_config, new_plugin, add_conn}
use nova_airouter.Plugin.Chat.{World, ChatRequest, SessionSync}
use nova_airouter.Plugin.Counted.Sessions.{Counted}
use nova_airouter.Plugin.Counted.Chat.{chats, sweeps, Activity, events}
use nova_airouter.Plugin.Failover.{HasTwo}
use nova_airouter.Plugin.Ports.{split_service_path, cut, atoi, digits, plugin_port, after_last}
use nova_airouter.Plugin.Election.{as_received, session_sync, handle_message, unix}
use nova_airouter.Plugin.Split.{session_received}
use nova_airouter.Plugin.Discover.{
  NodeInfo, Cluster, do_sync, sync_nodes, add_nodes, add_paths, add_path, add_port, add_at,
  add_models, add_backend,
}
use nova_airouter.Plugin.Discover.Carried.{active_at, do_sync_counts}

abbrev backend : Text → Backend
backend address = record {
  address = address;
  port = pos 8000;
  node_path = codes "/chat";
  backend_path = codes "/";
  max_concurrent = pos 4;
  healthy = true;
  active_conn = pos 0;
  avg_latency = pos 0;
  last_success = 0;
}

abbrev a1 : Text
a1 = codes "10.0.0.1"

abbrev a2 : Text
a2 = codes "10.0.0.2"

abbrev heap : Heap
heap p = elim p [ zero ↦ backend a1 | suc n ↦ backend a2 ]

abbrev both : ModelBackend
both = record { model = codes "m"; backends = 0 ∷ 1 ∷ [] }

abbrev idle : Plugin
idle = record (new_plugin heap default_config) {
  is_master = true;
  service_id = codes "p1";
  next_free = 2;
  models = (codes "m", both) ∷ [];
}

-- Natural numbers stand for floats: every backend has the same score.
abbrev floats : Float64 ℕ
floats = record {
  of_int = λ z. 0;
  literal = λ m n. 0;
  add = λ x y. 0;
  sub = λ x y. 0;
  mul = λ x y. 0;
  div = λ x y. 0;
  lt = λ x y. false;
  le = λ x y. true;
  is_zero = λ x. true;
}

abbrev dead : World ℕ
dead = record {
  draws = λ n. record { float = λ i. 0; below = λ m. 0 };
  answer = λ n b. none;
  master_answer = λ t. none;
}

abbrev alive : World ℕ
alive = record dead { answer = λ n b. some (record { latency = pos 20; body = codes "hi" }) }

abbrev chat : Option ChatRequest
chat = some (record { model = codes "m"; session_id = codes "s" })

abbrev some_events : List (Activity ℕ)
some_events = chats 5 alive (codes "POST") chat ∷ sweeps (700 * second) ∷ []

abbrev or_idle : Option Plugin → Plugin
or_idle none = idle
or_idle (some s) = s

after : Plugin
after = or_idle (events floats 5 idle some_events)

-- Floats none of which is at most another, as if every score were NaN.
abbrev nans : Float64 ℕ
nans = record floats { le = λ x y. false }

abbrev three : ModelBackend
three = record { model = codes "m"; backends = 0 ∷ 1 ∷ 2 ∷ [] }

abbrev tripled : Plugin
tripled = record idle { models = (codes "m", three) ∷ [] }

abbrev two_of : HasTwo 0 1 (0 ∷ 1 ∷ 2 ∷ []) heap
two_of = record {
  apart = refl;
  p_listed = inl refl;
  q_listed = inr (inl refl);
  p_healthy = refl;
  q_healthy = refl;
}

abbrev peered : Plugin
peered = record idle { is_master = false; peers = codes "p1" ∷ codes "p2" ∷ [] }

abbrev told : SessionSync
told = record { session_id = codes "s"; backend_addr = a1; backend_port = pos 8000 }

session_received_example :
    (handle_message 0 (as_received (session_sync (pos 9) told)) idle).0.sessions
    ≡ insert
        (codes "s")
        (record {
          session_id = codes "s";
          backend_addr = a1;
          backend_port = pos 0;
          last_activity = unix (pos 0);
        })
        []
session_received_example = session_received 0 (pos 9) told idle

abbrev nodes : List NodeInfo
nodes =
    record {
      node_id = codes "n1";
      healthy = true;
      path_infos =
          record {
            node_path = codes "/chat";
            service_path = codes "8000/v1";
            description = [];
            plugin = false;
            max_concurrent = pos 4;
          }
          ∷ [];
    }
    ∷ []

abbrev cluster : Cluster
cluster = record {
  nodes = some nodes;
  node_address = λ id. some (record { node_id = id; address = a1; service_port = pos 15050 });
  models_of = λ a p. codes "m" ∷ [];
}

-- The plugin with one request in flight, and two sessions, at the first backend.
abbrev busy : Plugin
busy = record idle {
  heap = λ p. elim p [ zero ↦ record (backend a1) { active_conn = pos 3 } | suc n ↦ backend a2 ];
}

abbrev found : ModelBackend
found = record { model = codes "m"; backends = 2 ∷ [] }

finds_one : lookup (codes "m") (do_sync cluster busy).models ≡ some found
unfolding do_sync sync_nodes add_nodes add_paths add_path add_port add_at add_models add_backend
    split_service_path cut atoi digits plugin_port after_last lookup insert text_eq
finds_one = refl

do_sync_counts_example :
    let b = add_conn (negsuc 0) 0 (do_sync cluster busy).heap 2 in
    b.active_conn ≡ active_at (0 ∷ 1 ∷ []) busy.heap b.address b.port
unfolding lookup text_eq
do_sync_counts_example =
    do_sync_counts cluster nodes (codes "m") found 0 2 busy refl (omega arith, (omega arith, tt))
      (omega arith) finds_one (inl refl)
