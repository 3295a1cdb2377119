-- ===== src/Models/Node/Invariant.antt =====
-- The maps of a store have distinct keys, and each node is filed under its own id: the invariant of
-- the calls.
use mathlib.Core.Option
use nova_airouter.Prelude.{
  ℤ, Time, ◌≡◌, refl, Option, none, some, List, [], ◌∷◌, inl, inr, Text, text_eq, text_eq_iff, Dict,
  lookup, insert, delete, lookup-insert, lookup-delete, Distinct, insert-Distinct, delete-Distinct,
  map_values-Distinct, keep_if-Distinct, Bool-cases, subst, ltb_ℤ, elapsed,
}
use nova_airouter.Models.Node.{
  EndpointState, EndpointMetadata, RemoteNode, RemoteNodeStore, at_node, at_node_in, upsert,
  upsert_in, touch_last_seen, update_state, update_metadata, put_states, put_described,
  put_descriptions, mark_unhealthy, delete_node, remove_endpoint, clean_endpoints, clean_stale,
  Call, upserts, touches, reports, describes, marks_unhealthy, removes, removes_endpoint, cleans,
  step, run, new_remote_node_store,
}
use nova_airouter.Models.Node.Health.{lookup-at_node}
use nova_airouter.Models.Node.Stale.{IsStore, cleaned, lookup-clean_stale}

-- One node: its id is its key, and its two maps have distinct keys.
pub record IsNode (id : Text) (node : RemoteNode) : Type 0 where
  pub own_id : node.node_id ≡ id
  pub states : Distinct node.endpoint_states
  pub descriptions : Distinct node.endpoint_descriptions

abbrev pub AtKey : Text → Option RemoteNode → Type 0
AtKey id none = Unit
AtKey id (some node) = IsNode id node

pub record Inv (s : RemoteNodeStore) : Type 0 where
  pub ids : Distinct s
  pub nodes : (id : Text) → AtKey id (lookup id s)

put_states-Distinct :
    (now : Time) (sts m : Dict EndpointState) → Distinct m → Distinct (put_states now sts m)
unfolding put_states
put_states-Distinct now [] m d = d
put_states-Distinct now ((k, st) ∷ sts) m d =
    put_states-Distinct now sts _ (insert-Distinct k _ m d)

put_described-Distinct :
    (now : Time) (ds : Dict EndpointMetadata) (m : Dict EndpointState)
    → Distinct m
    → Distinct (put_described now ds m)
unfolding put_described
put_described-Distinct now [] m d = d
put_described-Distinct now ((k, desc) ∷ ds) m d =
    put_described-Distinct now ds _ (insert-Distinct k _ m d)

put_descriptions-Distinct :
    (ds m : Dict EndpointMetadata) → Distinct m → Distinct (put_descriptions ds m)
unfolding put_descriptions
put_descriptions-Distinct [] m d = d
put_descriptions-Distinct ((k, desc) ∷ ds) m d =
    put_descriptions-Distinct ds _ (insert-Distinct k _ m d)

at_node_in-Distinct :
    (o : Option RemoteNode) (id : Text) (f : RemoteNode → RemoteNode) (s : RemoteNodeStore)
    → Distinct s
    → Distinct (at_node_in o id f s)
unfolding at_node_in
at_node_in-Distinct none id f s d = d
at_node_in-Distinct (some node) id f s d = insert-Distinct id (f node) s d

mapped-AtKey :
    (j : Text) (f : RemoteNode → RemoteNode) (o : Option RemoteNode)
    → ((node : RemoteNode) → IsNode j node → IsNode j (f node))
    → AtKey j o
    → AtKey j (Option.map f o)
mapped-AtKey j f none keep v = tt
mapped-AtKey j f (some node) keep v = keep node v

at_node-Inv :
    (id : Text) (f : RemoteNode → RemoteNode) (s : RemoteNodeStore)
    → ((j : Text) (node : RemoteNode) → IsNode j node → IsNode j (f node))
    → Inv s
    → Inv (at_node id f s)
at_node-Inv id f s keep v = record {
  ids = unfold at_node in at_node_in-Distinct (lookup id s) id f s v.ids;
  nodes = λ j. rw (lookup-at_node j id f s) (elim (Bool-cases (text_eq id j)) [
    | inl e ↦ rw e (mapped-AtKey j f (lookup j s) (keep j) (v.nodes j))
    | inr e ↦ rw e (v.nodes j)
  ]);
}

insert-Inv :
    (id : Text) (node : RemoteNode) (s : RemoteNodeStore)
    → IsNode id node
    → Inv s
    → Inv (insert id node s)
insert-Inv id node s n v = record {
  ids = insert-Distinct id node s v.ids;
  nodes = λ j. rw (lookup-insert id j node s) (elim (Bool-cases (text_eq id j)) [
    | inl e ↦ rw (e, ← (text_eq_iff id j).0 e) n
    | inr e ↦ rw e (v.nodes j)
  ]);
}

upsert_in-IsNode :
    (now : Time) (id address : Text) (port : ℤ) (o : Option RemoteNode)
    → AtKey id o
    → IsNode id (upsert_in now id address port o)
unfolding upsert_in
upsert_in-IsNode now id address port none v = record {
  own_id = refl;
  states = tt;
  descriptions = tt;
}
upsert_in-IsNode now id address port (some node) v = record {
  own_id = v.own_id;
  states = v.states;
  descriptions = v.descriptions;
}

cleaned-AtKey :
    (now : Time) (nt et : ℤ) (id : Text) (o : Option RemoteNode)
    → AtKey id o
    → AtKey id (cleaned now nt et o)
unfolding clean_endpoints
cleaned-AtKey now nt et id none v = tt
cleaned-AtKey now nt et id (some node) v =
    elim (Bool-cases (ltb_ℤ nt (elapsed now node.last_seen))) [
      | inl e ↦ rw e tt
      | inr e ↦ rw e (record {
        own_id = v.own_id;
        states = keep_if-Distinct _ node.endpoint_states v.states;
        descriptions = keep_if-Distinct _ node.endpoint_descriptions v.descriptions;
      })
    ]

deleted-AtKey :
    (id j : Text) (s : RemoteNodeStore) → AtKey j (lookup j s) → AtKey j (lookup j (delete id s))
deleted-AtKey id j s v =
    rw (lookup-delete id j s)
      (elim (Bool-cases (text_eq id j)) [ inl e ↦ rw e tt | inr e ↦ rw e v ])

-- Every call keeps the node ids distinct, files each node under its own id, and keeps the keys of
-- a node's endpoint states and descriptions distinct.
pub step-Inv : (s : RemoteNodeStore) (c : Call) → Inv s → Inv (step s c)
unfolding step
step-Inv s (upserts now id address port) v =
    unfold upsert in insert-Inv id _ s (upsert_in-IsNode now id address port _ (v.nodes id)) v
step-Inv s (touches now id) v =
    unfold touch_last_seen in
    at_node-Inv id _ s
      (λ j node n. record { own_id = n.own_id; states = n.states; descriptions = n.descriptions }) v
step-Inv s (reports now id sts) v =
    unfold update_state in
    at_node-Inv id _ s
      (λ j node n. record {
        own_id = n.own_id;
        states = put_states-Distinct now sts node.endpoint_states n.states;
        descriptions = n.descriptions;
      })
      v
step-Inv s (describes now id ds) v =
    unfold update_metadata in
    at_node-Inv id _ s
      (λ j node n. record {
        own_id = n.own_id;
        states = put_described-Distinct now ds node.endpoint_states n.states;
        descriptions = put_descriptions-Distinct ds node.endpoint_descriptions n.descriptions;
      })
      v
step-Inv s (marks_unhealthy id) v =
    unfold mark_unhealthy in
    at_node-Inv id _ s
      (λ j node n. record {
        own_id = n.own_id;
        states = map_values-Distinct _ node.endpoint_states n.states;
        descriptions = n.descriptions;
      })
      v
step-Inv s (removes id) v =
    unfold delete_node in
    record { ids = delete-Distinct id s v.ids; nodes = λ j. deleted-AtKey id j s (v.nodes j) }
step-Inv s (removes_endpoint id path) v =
    unfold remove_endpoint in
    at_node-Inv id _ s
      (λ j node n. record {
        own_id = n.own_id;
        states = delete-Distinct path node.endpoint_states n.states;
        descriptions = delete-Distinct path node.endpoint_descriptions n.descriptions;
      })
      v
step-Inv s (cleans now nt et) v = record {
  ids = unfold clean_stale in map_values-Distinct _ _ (keep_if-Distinct _ s v.ids);
  nodes =
      λ j. rw (lookup-clean_stale now nt et j s v.ids) (cleaned-AtKey now nt et j _ (v.nodes j));
}

run-Inv : (s : RemoteNodeStore) (cs : List Call) → Inv s → Inv (run s cs)
unfolding run
run-Inv s [] v = v
run-Inv s (c ∷ cs) v = run-Inv (step s c) cs (step-Inv s c v)

-- After any calls on a new store, the keys of the store and of each node's two maps are distinct,
-- and every node is filed under its own id.
pub run_store-Inv : (cs : List Call) → Inv (run new_remote_node_store cs)
run_store-Inv cs =
    run-Inv new_remote_node_store cs
      (unfold new_remote_node_store lookup in record { ids = tt; nodes = λ id. tt })

pub Inv-IsStore : (s : RemoteNodeStore) → Inv s → IsStore s
Inv-IsStore s v = record {
  ids = v.ids;
  states = λ id node e. (subst (AtKey id) e (v.nodes id)).states;
  descriptions = λ id node e. (subst (AtKey id) e (v.nodes id)).descriptions;
}
