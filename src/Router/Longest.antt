-- ===== src/Router/Longest.antt =====
-- Which of the remote endpoints that match a path count: those with the longest path.
use nova_airouter.Prelude.{
  ℕ, zero, suc, ltb, ◌==◌, ◌≤◌, ◌≡◌, Bool, true, ◌&&◌, if◌then◌else◌, List, [], ◌∷◌, inl, inr,
  length, In, Text, Dict, arith, subst,
}
use nova_airouter.Models.Node.{EndpointState, RemoteNode}
use nova_airouter.Router.{
  Env, match_node_path, NodesForPath, longest_remote, longest_state, forward_node, add_states,
  add_remote, add_longest,
}
use nova_airouter.Router.Candidates.{Both, add_node-Both, if-Both}

longest_state-ge :
    (path : Text) (best : ℕ) (m : Dict EndpointState) → best ≤ longest_state path best m
unfolding longest_state
longest_state-ge path best [] = omega arith
longest_state-ge path best ((p, state) ∷ rest) =
    ground (arith, longest_state-ge path (length p) rest, longest_state-ge path best rest)

longest_remote-ge :
    (path : Text) (best : ℕ) (nodes : List RemoteNode) → best ≤ longest_remote path best nodes
unfolding longest_remote
longest_remote-ge path best [] = omega arith
longest_remote-ge path best (n ∷ nodes) = omega (
  arith,
  longest_state-ge path best n.endpoint_states,
  longest_remote-ge path (longest_state path best n.endpoint_states) nodes,
)

longest_state-all :
    (path p : Text) (state : EndpointState) (best : ℕ) (m : Dict EndpointState)
    → In (p, state) m
    → match_node_path path p ≡ true
    → length p ≤ longest_state path best m
unfolding longest_state
longest_state-all path p state best [] i h = elim i [ ]
longest_state-all path p state best ((q, t) ∷ rest) (inl e) h =
    ground (arith, e, h, longest_state-ge path (length q) rest, longest_state-ge path best rest)
longest_state-all path p state best ((q, t) ∷ rest) (inr i) h =
    longest_state-all path p state
      (if match_node_path path q && ltb best (length q) then length q else best) rest i h

longest_remote-all :
    (path p : Text) (state : EndpointState) (node : RemoteNode) (best : ℕ) (nodes : List RemoteNode)
    → In node nodes
    → In (p, state) node.endpoint_states
    → match_node_path path p ≡ true
    → length p ≤ longest_remote path best nodes
unfolding longest_remote
longest_remote-all path p state node best [] i m h = elim i [ ]
longest_remote-all path p state node best (n ∷ nodes) (inl e) m h =
    let there = subst (λ x. In (p, state) x.endpoint_states) e m in
    omega (
      arith,
      longest_state-all path p state best n.endpoint_states there h,
      longest_remote-ge path (longest_state path best n.endpoint_states) nodes,
    )
longest_remote-all path p state node best (n ∷ nodes) (inr i) m h =
    longest_remote-all path p state node (longest_state path best n.endpoint_states) nodes i m h

abbrev pub IsLong : ℕ → RemoteNode → Type 0
IsLong best n = length n.node_path ≡ best

module _ (env : Env) (path : Text) (seen : Text → Bool) (best : ℕ) where
  add_states-IsLong :
      (node : RemoteNode) (m : Dict EndpointState) (c : NodesForPath)
      → Both (IsLong best) c
      → Both (IsLong best) (add_states env path best node m c)
  unfolding add_states forward_node
  add_states-IsLong node [] c v = v
  add_states-IsLong node ((p, state) ∷ rest) c v = add_states-IsLong node rest _ (
      if-Both _ (state.healthy && (match_node_path path p && (length p == best))) _ _
        (λ g. add_node-Both _ _ _ c (ground (arith, g)) v) (λ g. v))

  add_remote-IsLong :
      (nodes : List RemoteNode) (c : NodesForPath)
      → Both (IsLong best) c
      → Both (IsLong best) (add_remote env seen path best nodes c)
  unfolding add_remote
  add_remote-IsLong [] c v = v
  add_remote-IsLong (node ∷ nodes) c v = add_remote-IsLong nodes _ (
      if-Both _ (seen node.node_id) _ _ (λ e. v)
        (λ e. add_states-IsLong node node.endpoint_states c v))

add_longest-IsLong :
    (env : Env) (path : Text) (seen : Text → Bool) (best : ℕ) (nodes : List RemoteNode)
    → Both
        (IsLong best)
        (add_longest env seen path best nodes (record { plugin_nodes = []; regular_nodes = [] }))
unfolding add_longest
add_longest-IsLong env path seen zero nodes = (tt, tt)
add_longest-IsLong env path seen (suc n) nodes =
    add_remote-IsLong env path seen (suc n) nodes _ (tt, tt)

-- Only the longest match counts, and it counts whether it is healthy or not: where a remote node
-- has an endpoint whose path matches the request, every remote candidate has a path at least as
-- long. So an unhealthy endpoint hides all healthy ones with a shorter path.
pub longest_match :
    (env : Env) (path : Text) (seen : Text → Bool) (nodes : List RemoteNode) (node : RemoteNode)
    (p : Text) (state : EndpointState)
    → In node nodes
    → In (p, state) node.endpoint_states
    → match_node_path path p ≡ true
    → let best = longest_remote path 0 nodes in
      (length p ≤ best)
      × Both
          (IsLong best)
          (add_longest env seen path best nodes (record { plugin_nodes = []; regular_nodes = [] }))
longest_match env path seen nodes node p state i m h = (
  longest_remote-all path p state node 0 nodes i m h,
  add_longest-IsLong env path seen (longest_remote path 0 nodes) nodes,
)
