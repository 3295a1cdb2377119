-- ===== src/Models/Node/Health.antt =====
-- The store's maps stay maps, and what a metadata update does to the health of an endpoint.
use mathlib.Core.Option
use nova_airouter.Prelude.{
  ℤ, ap, text_eq_refl, Time, ◌≡◌, refl, true, if◌then◌else◌, Option, none, some, [], ◌∷◌, ◌⊎◌, inl,
  inr, Text, text_eq, text_eq_iff, Dict, lookup, insert, lookup-insert, arith, Bool-cases, In,
}
use nova_airouter.Models.Node.{
  EndpointState, EndpointMetadata, RemoteNode, RemoteNodeStore, described, put_described, at_node,
  at_node_in, upsert, upsert_in, touch_last_seen,
}

-- The path has a state, and it is healthy.
abbrev pub IsUp : Text → Dict EndpointState → Type 0
IsUp path m = (state : EndpointState) × (lookup path m ≡ some state) × (state.healthy ≡ true)

described-healthy :
    (now : Time) (desc : EndpointMetadata) (o : Option EndpointState)
    → (described now desc o).healthy ≡ true
described-healthy now desc none = refl
described-healthy now desc (some state) = refl

put-IsUp :
    (now : Time) (path key : Text) (desc : EndpointMetadata) (m : Dict EndpointState)
    → (text_eq key path ≡ true) ⊎ IsUp path m
    → IsUp path (insert key (described now desc (lookup key m)) m)
put-IsUp now path key desc m h = elim (Bool-cases (text_eq key path)) [
  | inl e ↦ (
    described now desc (lookup key m),
    rw (lookup-insert, e) refl,
    described-healthy now desc (lookup key m),
  )
  | inr e ↦ elim h [
    | inl e' ↦ absurd (ground arith)
    | inr (state, l, up) ↦ (state, rw (lookup-insert, e) l, up)
  ]
]

put_described-keeps :
    (now : Time) (path : Text) (ds : Dict EndpointMetadata) (m : Dict EndpointState)
    → IsUp path m
    → IsUp path (put_described now ds m)
unfolding put_described
put_described-keeps now path [] m h = h
put_described-keeps now path ((key, desc) ∷ ds) m h =
    put_described-keeps now path ds _ (put-IsUp now path key desc m (inr h))

-- Every path with a description in an update is healthy after it.
pub put_described-IsUp :
    (now : Time) (path : Text) (desc : EndpointMetadata) (ds : Dict EndpointMetadata)
    (m : Dict EndpointState)
    → In (path, desc) ds
    → IsUp path (put_described now ds m)
unfolding put_described
put_described-IsUp now path desc [] m i = elim i [ ]
put_described-IsUp now path desc ((key, d) ∷ ds) m (inl e) =
    put_described-keeps now path ds _
      (put-IsUp now path key d m (inl (ground (arith, text_eq_iff key path))))
put_described-IsUp now path desc ((key, d) ∷ ds) m (inr i) = put_described-IsUp now path desc ds _ i

lookup-at_node_in :
    (o : Option RemoteNode) (j id : Text) (f : RemoteNode → RemoteNode) (s : RemoteNodeStore)
    → lookup id s ≡ o
    → lookup j (at_node_in o id f s)
      ≡ (if text_eq id j then Option.map f (lookup j s) else lookup j s)
unfolding at_node_in
lookup-at_node_in none j id f s e = ground (arith, text_eq_iff id j)
lookup-at_node_in (some node) j id f s e =
    ground (arith, text_eq_iff id j, lookup-insert id j (f node) s)

-- An update of one node maps its entry and leaves the others.
pub lookup-at_node :
    (j id : Text) (f : RemoteNode → RemoteNode) (s : RemoteNodeStore)
    → lookup j (at_node id f s) ≡ (if text_eq id j then Option.map f (lookup j s) else lookup j s)
unfolding at_node
lookup-at_node j id f s = lookup-at_node_in (lookup id s) j id f s refl

-- Knowing of a node again keeps what is known of its endpoints.
abbrev pub IsKept : RemoteNode → Option RemoteNode → Type 0
IsKept node none = ⊥
IsKept node (some node') = node'.endpoint_states ≡ node.endpoint_states

upsert_in-IsKept :
    (now : Time) (id address : Text) (port : ℤ) (o : Option RemoteNode) (node : RemoteNode)
    → o ≡ some node
    → IsKept node (some (upsert_in now id address port o))
unfolding upsert_in
upsert_in-IsKept now id address port none node e = absurd (cc)
upsert_in-IsKept now id address port (some n) node e = ap (λ o. state_map o) e
  where
    state_map : Option RemoteNode → Dict EndpointState
    state_map none = []
    state_map (some n) = n.endpoint_states

pub upsert-IsKept :
    (now : Time) (id address : Text) (port : ℤ) (s : RemoteNodeStore) (node : RemoteNode)
    → lookup id s ≡ some node
    → IsKept node (lookup id (upsert now id address port s))
unfolding upsert
upsert-IsKept now id address port s node e =
    rw (lookup-insert id id (upsert_in now id address port (lookup id s)) s, text_eq_refl id)
      (upsert_in-IsKept now id address port (lookup id s) node e)

pub touch_last_seen-IsKept :
    (now : Time) (id : Text) (s : RemoteNodeStore) (node : RemoteNode)
    → lookup id s ≡ some node
    → IsKept node (lookup id (touch_last_seen now id s))
unfolding touch_last_seen
touch_last_seen-IsKept now id s node e =
    rw (lookup-at_node id id (λ n. record n { last_seen = now }) s, text_eq_refl id, e) refl
