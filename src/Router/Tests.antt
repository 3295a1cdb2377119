-- ===== src/Router/Tests.antt =====
-- Requests at a node that knows two others.
use nova_airouter.Prelude.{
  inl, inr, ◌≤◌, ℕ, ◌+◌, ◌*◌, ltb, leb, ◌==◌, pos, ◌≡◌, refl, true, false, not, none, [], ◌∷◌,
  codes, text_eq, has_suffix, strip_prefix, lookup,
}
use nova_airouter.Models.Node.{EndpointState, RemoteNode, list_nodes}
use nova_airouter.Models.Endpoint.{get_all}
use nova_airouter.Balancer.{Float64, Draws, select_node}
use nova_airouter.Router.{
  Env, match_node_path, already_seen, get_nodes_for_path, forward_node, longest_local,
  longest_remote, longest_state, add_remote, add_states, add_local, add_longest, plugin_in,
  split_commas,
}
use nova_airouter.Router.Handler.{
  attempts, select_node_with_fallback, choose_from, chosen_in, answer_in, others, routed,
  handle_request,
}
use nova_airouter.Router.Candidates.{Both}
use nova_airouter.Router.Longest.{IsLong, longest_match}
use nova_airouter.Router.Answers.{is_empty, routed_lem}

-- A score is a natural number here, and a limit is 1 above it.
abbrev numbers : Float64 ℕ
numbers = record {
  of_int = λ z. 0;
  literal = λ m n. 1;
  add = λ a b. a + b;
  sub = λ a b. a;
  mul = λ a b. a * b;
  div = λ a b. a;
  lt = ltb;
  le = leb;
  is_zero = λ a. a == 0;
}

abbrev draws : ℕ → Draws ℕ
draws attempt = record { float = λ n. 0; below = λ n. 0 }

abbrev idle_state : EndpointState
idle_state = record {
  active = pos 1;
  queue_len = pos 0;
  healthy = true;
  max_concurrent = pos 4;
  plugin = true;
  response_time = pos 0;
  last_seen = 5;
}

abbrev other : RemoteNode
other = record {
  node_id = codes "n2";
  address = codes "10.0.0.2";
  service_port = pos 80;
  service_path = [];
  node_path = [];
  ep_id = [];
  endpoint_states = (codes "/chat/", idle_state) ∷ [];
  endpoint_descriptions = [];
  last_seen = 5;
}

abbrev env : Env
env = record {
  node_id = codes "n1";
  endpoints = [];
  nodes = (codes "n2", other) ∷ [];
  pool_metrics = λ path ep_id. none;
  counters = record { remote_counters = []; remote_snapshots = [] };
  trim_space = λ s. s;
}

goes_there :
    handle_request numbers draws env (codes "/chat/x") (codes "n3")
    ≡ routed (forward_node env other (codes "/chat/") idle_state) true
unfolding handle_request attempts get_nodes_for_path select_node_with_fallback choose_from chosen_in
    answer_in others add_local add_longest plugin_in add_remote add_states longest_local
    longest_remote longest_state get_all list_nodes already_seen split_commas match_node_path
    has_suffix strip_prefix text_eq select_node lookup
goes_there = refl

routed_lem_example :
    (already_seen env (codes "n3") (codes "n2") ≡ false)
    × (match_node_path (codes "/chat/x") (codes "/chat/") ≡ true)
    × (true
        ≡ not (
            is_empty
              (get_nodes_for_path env
                (codes "/chat/x")
                (already_seen env (codes "n3"))).plugin_nodes))
unfolding forward_node
routed_lem_example =
    routed_lem numbers draws env (codes "/chat/x") (codes "n3")
      (forward_node env other (codes "/chat/") idle_state) true goes_there

abbrev down : EndpointState
down = record idle_state { healthy = false }

abbrev third : RemoteNode
third = record other { node_id = codes "n3"; endpoint_states = (codes "/chat/x", down) ∷ [] }

matches : match_node_path (codes "/chat/x") (codes "/chat/x") ≡ true
unfolding match_node_path has_suffix text_eq
matches = refl

-- The healthy `/chat/` of the first node is hidden by the unhealthy `/chat/x` of the second.
longest_match_example :
    let nodes = other ∷ third ∷ [] in
    let best = longest_remote (codes "/chat/x") 0 nodes in
    (7 ≤ best)
    × Both (IsLong best) (
        add_longest env
          (λ id. false)
          (codes "/chat/x")
          best
          nodes
          (record { plugin_nodes = []; regular_nodes = [] }))
longest_match_example =
    longest_match env (codes "/chat/x") (λ id. false) (other ∷ third ∷ []) third (codes "/chat/x")
      down (inr (inl refl)) (inl refl) matches

hidden :
    add_longest env
      (λ id. false)
      (codes "/chat/x")
      (longest_remote (codes "/chat/x") 0 (other ∷ third ∷ []))
      (other ∷ third ∷ [])
      (record { plugin_nodes = []; regular_nodes = [] })
    ≡ record { plugin_nodes = []; regular_nodes = [] }
unfolding add_longest add_remote add_states longest_remote longest_state match_node_path has_suffix
    strip_prefix text_eq
hidden = refl
