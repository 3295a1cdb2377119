-- ===== src/Router/Handler.antt =====
-- internal/business/router/router.go: the choice of a node and the answer to a request.
use nova_airouter.Prelude.{
  ℕ, zero, suc, ltb, Bool, true, false, not, if◌then◌else◌, List, [], ◌∷◌, ◌++◌, length, select,
  Text, text_eq,
}
use nova_airouter.Models.Node.{RemoteNode}
use nova_airouter.Balancer.{Float64, Draws, Selection, nothing, picked, panicked, select_node}
use nova_airouter.Router.{Env, NodesForPath, already_seen, get_nodes_for_path}

pub data Choice : Type 0 where
  no_healthy_node : Choice
  chosen : RemoteNode → Bool → Choice
  crashed : Choice

pub data Answer : Type 0 where
  not_found : Answer  -- 404
  unavailable : Answer  -- 503
  routed : RemoteNode → Bool → Answer  -- the flag sets `X-Plugin-Request`
  aborted : Answer  -- a panic

unfoldable pub chosen_in : RemoteNode → Bool → Selection → Choice
chosen_in first plugin nothing = chosen first plugin
chosen_in first plugin (picked node) = chosen node plugin
chosen_in first plugin panicked = crashed

-- `filtered`, if it is not empty.
or_all : List RemoteNode → List RemoteNode → List RemoteNode
or_all [] nodes = nodes
or_all (n ∷ ns) nodes = n ∷ ns

-- From the second attempt on this node is left out, if there are others.
unfoldable pub others : Text → ℕ → List RemoteNode → List RemoteNode
unfolding or_all
others id zero nodes = nodes
others id (suc attempt) nodes =
    if ltb 1 (length nodes)
    then or_all (select (λ n. not (text_eq n.node_id id)) nodes) nodes
    else nodes

module _ {R : Type 0} (f : Float64 R) (draws : ℕ → Draws R) where
  -- `candidates[0]` is read only where nothing is selected.
  unfoldable pub choose_from : Bool → ℕ → List RemoteNode → Choice
  unfolding chosen_in
  choose_from plugin attempt [] = no_healthy_node
  choose_from plugin attempt (n ∷ ns) = chosen_in n plugin (select_node f (draws attempt) (n ∷ ns))

  unfoldable pub select_node_with_fallback : Env → NodesForPath → ℕ → Choice
  unfolding choose_from
  select_node_with_fallback env c attempt = elim c.plugin_nodes [
    | [] ↦ choose_from false attempt (others env.node_id attempt c.regular_nodes)
    | n ∷ ns ↦ choose_from true attempt (others env.node_id attempt (n ∷ ns))
  ]

  unfoldable pub answer_in : Choice → Answer → Answer
  answer_in no_healthy_node next = next
  answer_in (chosen node plugin) next = routed node plugin
  answer_in crashed next = aborted

  -- `left` attempts, from `attempt` on.
  unfoldable pub attempts : Env → NodesForPath → ℕ → ℕ → Answer
  unfolding answer_in select_node_with_fallback
  attempts env c attempt zero = unavailable
  attempts env c attempt (suc left) =
      answer_in (select_node_with_fallback env c attempt) (attempts env c (suc attempt) left)

  abbrev pub max_retries : ℕ
  max_retries = 2

  unfoldable pub handle_request : Env → Text → Text → Answer
  unfolding attempts
  handle_request env path forwarded_by =
      let c = get_nodes_for_path env path (already_seen env forwarded_by) in
      elim (c.plugin_nodes ++ c.regular_nodes) [
        | [] ↦ not_found
        | n ∷ ns ↦ attempts env c 0 (suc max_retries)
      ]
