-- ===== src/Router/Answers.antt =====
-- The answer to a request: where it goes, and that one attempt decides it.
use nova_airouter.Prelude.{
  ℕ, ◌≡◌, refl, sym, Bool, true, false, not, List, [], ◌∷◌, ◌++◌, inl, inr, In, All, Text, subst,
}
use nova_airouter.Models.Node.{RemoteNode}
use nova_airouter.Balancer.{Float64, Draws, Selection, nothing, picked, panicked}
use nova_airouter.Balancer.Selected.{select_node-picked}
use nova_airouter.Router.{Env, match_node_path, already_seen, NodesForPath, get_nodes_for_path}
use nova_airouter.Router.Handler.{
  Choice, no_healthy_node, chosen, crashed, Answer, not_found, unavailable, routed, aborted,
  chosen_in, others, choose_from, select_node_with_fallback, answer_in, attempts, handle_request,
}
use nova_airouter.Router.Candidates.{IsCandidate, get_nodes_for_path-Both}

All-In :
    (P : RemoteNode → Type 0) (xs : List RemoteNode) (x : RemoteNode) → All P xs → In x xs → P x
All-In P [] x a m = elim m [ ]
All-In P (y ∷ ys) x a (inl e) = subst P (sym e) a.0
All-In P (y ∷ ys) x a (inr m) = All-In P ys x a.1 m

-- The answers that a choice among plugin nodes, or among others, can lead to.
abbrev Allowed : (RemoteNode → Type 0) → Bool → Choice → Type 0
Allowed P plugin no_healthy_node = ⊥
Allowed P plugin (chosen node q) = P node × (q ≡ plugin)
Allowed P plugin crashed = Unit

abbrev pub is_empty : List RemoteNode → Bool
is_empty [] = true
is_empty (n ∷ ns) = false

abbrev pub is_not_found : Answer → Bool
is_not_found not_found = true
is_not_found _ = false

abbrev pub is_routed : Answer → Bool
is_routed (routed node plugin) = true
is_routed _ = false

-- The plugin nodes, or the others where there are none.
abbrev pub preferred : List RemoteNode → List RemoteNode → List RemoteNode
preferred [] regular = regular
preferred (n ∷ ns) regular = n ∷ ns

abbrev Fine : (RemoteNode → Type 0) → List RemoteNode → List RemoteNode → Answer → Type 0
Fine P ps rs not_found = is_empty (ps ++ rs) ≡ true
Fine P ps rs unavailable = ⊥
Fine P ps rs (routed node plugin) =
    (is_empty (ps ++ rs) ≡ false) × P node × (plugin ≡ not (is_empty ps))
Fine P ps rs aborted = is_empty (ps ++ rs) ≡ false

module _ {R : Type 0} (f : Float64 R) (draws : ℕ → Draws R) where
  chosen_in-Allowed :
      (P : RemoteNode → Type 0) (plugin : Bool) (n : RemoteNode) (ns : List RemoteNode)
      (s : Selection)
      → All P (n ∷ ns)
      → ((node : RemoteNode) → s ≡ picked node → In node (n ∷ ns))
      → Allowed P plugin (chosen_in n plugin s)
  unfolding chosen_in
  chosen_in-Allowed P plugin n ns nothing a m = (a.0, refl)
  chosen_in-Allowed P plugin n ns (picked node) a m = (All-In P (n ∷ ns) node a (m node refl), refl)
  chosen_in-Allowed P plugin n ns panicked a m = tt

  choose_from-Allowed :
      (P : RemoteNode → Type 0) (plugin : Bool) (n : RemoteNode) (ns : List RemoteNode)
      → All P (n ∷ ns)
      → Allowed P plugin (choose_from f draws plugin 0 (n ∷ ns))
  unfolding choose_from
  choose_from-Allowed P plugin n ns a =
      chosen_in-Allowed P plugin n ns _ a (λ node e. select_node-picked f (draws 0) (n ∷ ns) node e)

  answer_in-Fine :
      (P : RemoteNode → Type 0) (ps rs : List RemoteNode) (c : Choice) (next : Answer)
      → is_empty (ps ++ rs) ≡ false
      → Allowed P (not (is_empty ps)) c
      → Fine P ps rs (answer_in f draws c next)
  unfolding answer_in
  answer_in-Fine P ps rs no_healthy_node next e a = absurd a
  answer_in-Fine P ps rs (chosen node plugin) next e a = (e, a.0, a.1)
  answer_in-Fine P ps rs crashed next e a = e

  -- What `handle_request` makes of the candidates.
  abbrev answer_of : Env → NodesForPath → Answer
  answer_of env c = elim (c.plugin_nodes ++ c.regular_nodes) [
    | [] ↦ not_found
    | n ∷ ns ↦ attempts f draws env c 0 3
  ]

  answer_of-Fine :
      (P : RemoteNode → Type 0) (env : Env) (ps rs : List RemoteNode)
      → All P ps
      → All P rs
      → Fine P ps rs (answer_of env (record { plugin_nodes = ps; regular_nodes = rs }))
  unfolding attempts select_node_with_fallback others
  answer_of-Fine P env [] [] a b = refl
  answer_of-Fine P env [] (n ∷ ns) a b =
      answer_in-Fine P [] (n ∷ ns) _ _ refl (choose_from-Allowed P false n ns b)
  answer_of-Fine P env (n ∷ ns) rs a b =
      answer_in-Fine P (n ∷ ns) rs _ _ refl (choose_from-Allowed P true n ns a)

  handle_request-Fine :
      (env : Env) (path forwarded_by : Text)
      → let c = get_nodes_for_path env path (already_seen env forwarded_by) in
        Fine
          (IsCandidate path (already_seen env forwarded_by))
          c.plugin_nodes
          c.regular_nodes
          (handle_request f draws env path forwarded_by)
  unfolding handle_request
  handle_request-Fine env path forwarded_by =
      let seen = already_seen env forwarded_by in
      let v = get_nodes_for_path-Both env path seen in
      answer_of-Fine (IsCandidate path seen) env _ _ v.0 v.1

  -- A request goes to a node that `X-Forwarded-By` does not name, and to an endpoint there whose
  -- path matches that of the request; and it is marked for plugins exactly if a plugin node is
  -- among the candidates.
  pub routed_lem :
      (env : Env) (path forwarded_by : Text) (node : RemoteNode) (plugin : Bool)
      → handle_request f draws env path forwarded_by ≡ routed node plugin
      → (already_seen env forwarded_by node.node_id ≡ false)
        × (match_node_path path node.node_path ≡ true)
        × (plugin
            ≡ not (
                is_empty
                  (get_nodes_for_path env path (already_seen env forwarded_by)).plugin_nodes))
  routed_lem env path forwarded_by node plugin e =
      let c = get_nodes_for_path env path (already_seen env forwarded_by) in
      let v =
        subst
          (Fine (IsCandidate path (already_seen env forwarded_by)) c.plugin_nodes c.regular_nodes) e
          (handle_request-Fine env path forwarded_by) in
      (v.1.0, v.1.1, v.2)
