-- ===== src/Balancer.antt =====
-- internal/business/balancer/balancer.go: the choice among the nodes that can serve a path. Go's
-- `float64` is a parameter, with its literals; so is what `math/rand` draws. A range over a map of
-- states takes its first entry.
pub mod Weighted
pub mod Selected
mod Tests
use nova_airouter.Prelude.{
  ℕ, zero, suc, ◌+◌, ◌-◌, false, ℤ, pos, negsuc, pos_part, ◌+ℤ◌, ◌-ℤ◌, i32, ltb_ℤ, leb_ℤ, Bool,
  if◌then◌else◌, Option, none, some, List, [], ◌∷◌, map, length, select, get_elem?, Dict,
}
use nova_airouter.Models.Node.{EndpointState, RemoteNode}

-- `literal m n` is the number m / 10^n.
pub record Float64 (R : Type 0) : Type 0 where
  pub of_int : ℤ → R
  pub literal : ℕ → ℕ → R
  pub add : R → R → R
  pub sub : R → R → R
  pub mul : R → R → R
  pub div : R → R → R
  pub lt : R → R → Bool
  pub le : R → R → Bool
  pub is_zero : R → Bool

-- `rand.Float64()` for the n-th node, and `rand.Intn` or `rand.Int31n`.
pub record Draws (R : Type 0) : Type 0 where
  pub float : ℕ → R
  pub below : ℕ → ℕ

-- The loop that goes down from the draw, at the index `i`.
unfoldable pub locate : ℕ → ℤ → List ℤ → Option ℕ
locate i r [] = none
locate i r (w ∷ ws) =
    let r' = i32 (r -ℤ w) in
    let rest = locate (suc i) r' ws in if ltb_ℤ r' (pos 0) then some i else rest

-- `total += w` over the weights.
unfoldable pub sum_weights : ℤ → List ℤ → ℤ
sum_weights t [] = t
sum_weights t (w ∷ ws) = sum_weights (i32 (t +ℤ w)) ws

-- `rand.Intn(0)` panics.
intn_in : (ℕ → ℕ) → ℕ → Option ℕ
intn_in below zero = none
intn_in below (suc n) = some (below (suc n))

or_last : ℕ → Option ℕ → ℕ
or_last n none = n - 1
or_last n (some i) = i

-- None if it panics.
unfoldable pub weighted_random_index : (ℕ → ℕ) → List ℤ → Option ℕ
unfolding intn_in or_last
weighted_random_index below ws =
    let total = sum_weights (pos 0) ws in
    if leb_ℤ total (pos 0)
    then intn_in below (length ws)
    else some (or_last (length ws) (locate 0 (pos (below (pos_part total))) ws))

abbrev pub default_max_concurrent : ℤ
default_max_concurrent = pos 10

abbrev pub first_state : Dict EndpointState → Option EndpointState
first_state [] = none
first_state ((_, state) ∷ _) = some state

abbrev pub no_load : EndpointState
no_load = record {
  healthy = false;
  active = pos 0;
  queue_len = pos 0;
  max_concurrent = default_max_concurrent;
  response_time = pos 0;
  last_seen = 0;
  plugin = false;
}

abbrev pub or_no_load : Option EndpointState → EndpointState
or_no_load none = no_load
or_no_load (some state) = state

weight_in : Option EndpointState → ℤ
weight_in none = default_max_concurrent
weight_in (some state) =
    if ltb_ℤ (pos 0) state.max_concurrent then state.max_concurrent else default_max_concurrent

unfoldable pub weight : RemoteNode → ℤ
unfolding weight_in
weight node = weight_in (first_state node.endpoint_states)

pub data Selection : Type 0 where
  nothing : Selection
  picked : RemoteNode → Selection
  panicked : Selection

picked_in : Option RemoteNode → Selection
picked_in none = panicked
picked_in (some node) = picked node

at_index : Option ℕ → List RemoteNode → Selection
unfolding picked_in
at_index none nodes = panicked
at_index (some i) nodes = picked_in (get_elem? nodes i)

-- The weighted choice among the candidates, one of which needs no draw.
unfoldable pub pick : (ℕ → ℕ) → List RemoteNode → Selection
unfolding at_index
pick below [] = at_index (weighted_random_index below []) []
pick below (node ∷ []) = picked node
pick below (a ∷ b ∷ rest) =
    at_index (weighted_random_index below (map weight (a ∷ b ∷ rest))) (a ∷ b ∷ rest)

module _ {R : Type 0} (f : Float64 R) where
  load_ratio : EndpointState → R
  load_ratio state =
      let max_concurrent = f.of_int state.max_concurrent in
      f.div (f.add (f.of_int state.active) (f.of_int state.queue_len))
        (if f.is_zero max_concurrent then f.of_int default_max_concurrent else max_concurrent)

  response_time_factor : EndpointState → R
  response_time_factor state =
      let factor = f.div (f.of_int state.response_time) (f.literal 100 0) in
      if ltb_ℤ (pos 0) state.response_time
      then (if f.lt (f.literal 1 0) factor then f.literal 1 0 else factor)
      else f.literal 0 0

  unfoldable pub score : R → RemoteNode → R
  unfolding load_ratio response_time_factor
  score u node =
      let state = or_no_load (first_state node.endpoint_states) in
      f.mul
        (f.add (f.mul (load_ratio state) (f.literal 6 1))
          (f.mul (response_time_factor state) (f.literal 4 1)))
        (f.add (f.literal 1 0) (f.sub (f.mul u (f.literal 1 1)) (f.literal 5 2)))

  -- The scores of the nodes, of which `n` are done.
  unfoldable pub score_all : (ℕ → R) → ℕ → List RemoteNode → List (RemoteNode × R)
  score_all float n [] = []
  score_all float n (node ∷ nodes) = (node, score (float n) node) ∷ score_all float (suc n) nodes

  unfoldable pub best_score : R → List (RemoteNode × R) → R
  best_score best [] = best
  best_score best ((_, s) ∷ rest) = best_score (if f.lt s best then s else best) rest

  abbrev pub limit : R → R
  limit best = f.add (f.mul best (f.literal 105 2)) (f.literal 1 3)

  first_score : List (RemoteNode × R) → R
  first_score [] = f.literal 0 0
  first_score ((_, s) ∷ _) = s

  abbrev pub nodes_of : List (RemoteNode × R) → List RemoteNode
  nodes_of [] = []
  nodes_of ((node, _) ∷ rest) = node ∷ nodes_of rest

  -- The nodes whose score is within the limit.
  unfoldable pub candidates : List (RemoteNode × R) → List RemoteNode
  unfolding first_score
  candidates scores =
      let best = best_score (first_score scores) scores in
      nodes_of (select (λ s. f.le s.1 (limit best)) scores)

  unfoldable pub select_node : Draws R → List RemoteNode → Selection
  select_node d [] = nothing
  select_node d (node ∷ []) = picked node
  select_node d (a ∷ b ∷ rest) = pick d.below (candidates (score_all d.float 0 (a ∷ b ∷ rest)))
