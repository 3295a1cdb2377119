-- ===== src/Balancer/Tests.antt =====
-- The choice of a node on concrete nodes. A score is a natural number here, and a limit is 1 above it.
use nova_airouter.Prelude.{
  ℕ, ◌+◌, ◌*◌, ◌/◌, ltb, leb, ◌==◌, pos, pos_part, ◌≡◌, some, [], ◌∷◌, map, In, All, arith,
}
use nova_airouter.Models.Node.{RemoteNode}
use nova_airouter.Balancer.{Float64, Draws, picked, select_node, score_all, weighted_random_index}
use nova_airouter.Balancer.Weighted.{Hits, weighted_random_index_lem}
use nova_airouter.Balancer.Selected.{IsDraw, IsWithin, select_node_lem}

abbrev numbers : Float64 ℕ
numbers = record {
  of_int = pos_part;
  literal = λ m n. 1;
  add = λ a b. a + b;
  sub = λ a b. a;
  mul = λ a b. a * b;
  div = λ a b. a / b;
  lt = ltb;
  le = leb;
  is_zero = λ a. a == 0;
}

abbrev draws : Draws ℕ
draws = record { float = λ n. 0; below = λ n. 0 }

node : ℕ → RemoteNode
node n = record {
  node_id = n ∷ [];
  address = [];
  service_port = pos 80;
  service_path = [];
  node_path = [];
  ep_id = [];
  endpoint_states = [];
  endpoint_descriptions = [];
  last_seen = 0;
}

first : IsDraw draws.below
first n h = h

weighted_random_index_example :
    (i : ℕ) × (weighted_random_index (λ n. 3) (map pos (2 ∷ 5 ∷ [])) ≡ some i)
    × Hits 3 (2 ∷ 5 ∷ []) i
weighted_random_index_example =
    weighted_random_index_lem (λ n. 3) (2 ∷ 5 ∷ []) (omega arith) (omega arith) (omega arith)

within : All (IsWithin numbers) (score_all numbers draws.float 0 (node 1 ∷ node 2 ∷ []))
unfolding score_all
within = (ground arith, (ground arith, tt))

select_node_example :
    (n : RemoteNode) × (select_node numbers draws (node 1 ∷ node 2 ∷ []) ≡ picked n)
    × In n (node 1 ∷ node 2 ∷ [])
select_node_example = select_node_lem numbers draws (node 1) (node 2 ∷ []) first within
