-- ===== src/Models/Endpoint/Keys.antt =====
-- Each endpoint stands under its own path and id, and writes and deletions act at one place.
use nova_airouter.Prelude.{
  ◌≡◌, refl, sym, ◌∙◌, Bool, true, false, not, ◌&&◌, if◌then◌else◌, Option, none, some, [], ◌∷◌,
  inl, inr, Text, text_eq, text_eq_iff, Dict, lookup, insert, delete, keep_if, lookup-insert,
  lookup-delete, lookup-keep_if, Distinct, kept, insert-Distinct, delete-Distinct, arith,
  Bool-cases,
}
use nova_airouter.Models.Endpoint.{
  LocalEndpoint, LocalEndpointStore, new_local_endpoint_store, sub_in, set_endpoint, put_sub,
  delete_by_ep_id, delete_by_ep_id_in, delete_by_service_id, delete_by_service_id_in,
}

-- The endpoint at a path and an id.
unfoldable pub at : Text → Text → LocalEndpointStore → Option LocalEndpoint
at path ep_id s = lookup ep_id (sub_in (lookup path s))

-- The keys are distinct at both levels.
pub record IsStore (s : LocalEndpointStore) : Type 0 where
  pub paths : Distinct s
  pub ids : (path : Text) → Distinct (sub_in (lookup path s))
  pub own_key :
      (path ep_id : Text) (ep : LocalEndpoint)
      → at path ep_id s ≡ some ep
      → (ep.node_path ≡ path) × (ep.ep_id ≡ ep_id)

-- A write at one path and id.
pub at-set_endpoint :
    (path : Text) (ep : LocalEndpoint) (s : LocalEndpointStore) (q j : Text)
    → at q j (set_endpoint path ep s)
      ≡ (if text_eq path q && text_eq ep.ep_id j then some ep else at q j s)
unfolding at set_endpoint
at-set_endpoint path ep s q j = elim (Bool-cases (text_eq path q)) [
  | inl e ↦
      rw
        (
          lookup-insert path q (insert ep.ep_id ep (sub_in (lookup path s))) s,
          e,
          lookup-insert ep.ep_id j ep (sub_in (lookup path s)),
          (text_eq_iff path q).0 e,
        )
        refl
  | inr e ↦ rw (lookup-insert path q (insert ep.ep_id ep (sub_in (lookup path s))) s, e) refl
]

lookup-put_sub :
    (path q : Text) (sub : Dict LocalEndpoint) (s : LocalEndpointStore)
    → sub_in (lookup q (put_sub path sub s)) ≡ (if text_eq path q then sub else sub_in (lookup q s))
lookup-put_sub path q [] s = rw (lookup-delete path q s) (ground arith)
lookup-put_sub path q (e ∷ sub) s = rw (lookup-insert path q (e ∷ sub) s) (ground arith)

abbrev subs : Text → LocalEndpointStore → Dict LocalEndpoint
subs path s = sub_in (lookup path s)

-- An update of the endpoints under one path, written back or dropped with the path.
subs-update :
    (f : Dict LocalEndpoint → Dict LocalEndpoint) (path q : Text) (o : Option (Dict LocalEndpoint))
    (s t : LocalEndpointStore)
    → f [] ≡ []
    → lookup path s ≡ o
    → t ≡ (elim o [ none ↦ s | some sub ↦ put_sub path (f sub) s ])
    → subs q t ≡ (if text_eq path q then f (subs path s) else subs q s)
subs-update f path q none s t z e h = rw h (elim (Bool-cases (text_eq path q)) [
  | inl same ↦ rw (same, ← (text_eq_iff path q).0 same, e) (sym z)
  | inr other ↦ rw other refl
])
subs-update f path q (some sub) s t z e h = rw (h, lookup-put_sub path q (f sub) s, e) refl

delete_by_ep_id_in_lem :
    (o : Option (Dict LocalEndpoint)) (path ep_id : Text) (s : LocalEndpointStore)
    → delete_by_ep_id_in o path ep_id s
      ≡ (elim o [ none ↦ s | some sub ↦ put_sub path (delete ep_id sub) s ])
unfolding delete_by_ep_id_in
delete_by_ep_id_in_lem none path ep_id s = refl
delete_by_ep_id_in_lem (some sub) path ep_id s = refl

abbrev without : Text → Dict LocalEndpoint → Dict LocalEndpoint
without service_id = keep_if (λ _ ep. not (text_eq ep.service_id service_id))

delete_by_service_id_in_lem :
    (o : Option (Dict LocalEndpoint)) (path service_id : Text) (s : LocalEndpointStore)
    → delete_by_service_id_in o path service_id s
      ≡ (elim o [ none ↦ s | some sub ↦ put_sub path (without service_id sub) s ])
unfolding delete_by_service_id_in
delete_by_service_id_in_lem none path service_id s = refl
delete_by_service_id_in_lem (some sub) path service_id s = refl

pub subs-delete_by_ep_id :
    (path ep_id q : Text) (s : LocalEndpointStore)
    → sub_in (lookup q (delete_by_ep_id path ep_id s))
      ≡ (if text_eq path q then delete ep_id (sub_in (lookup path s)) else sub_in (lookup q s))
unfolding delete_by_ep_id
subs-delete_by_ep_id path ep_id q s =
    subs-update (delete ep_id) path q (lookup path s) s _ (unfold delete in refl) refl
      (delete_by_ep_id_in_lem (lookup path s) path ep_id s)

pub subs-delete_by_service_id :
    (path service_id q : Text) (s : LocalEndpointStore)
    → sub_in (lookup q (delete_by_service_id path service_id s)) ≡ (
        if text_eq path q
        then keep_if (λ _ ep. not (text_eq ep.service_id service_id)) (sub_in (lookup path s))
        else sub_in (lookup q s))
unfolding delete_by_service_id
subs-delete_by_service_id path service_id q s =
    subs-update (without service_id) path q (lookup path s) s _ (unfold keep_if in refl) refl
      (delete_by_service_id_in_lem (lookup path s) path service_id s)

-- Deleting one endpoint by its id.
pub at-delete_by_ep_id :
    (path ep_id q j : Text) (s : LocalEndpointStore)
    → at q j (delete_by_ep_id path ep_id s)
      ≡ (if text_eq path q && text_eq ep_id j then none else at q j s)
unfolding at
at-delete_by_ep_id path ep_id q j s =
    rw (subs-delete_by_ep_id path ep_id q s) (elim (Bool-cases (text_eq path q)) [
      | inl e ↦ rw (e, lookup-delete ep_id j (subs path s), (text_eq_iff path q).0 e) refl
      | inr e ↦ rw e refl
    ])

-- Deleting all endpoints of a service under a path.
pub at-delete_by_service_id :
    (path service_id q j : Text) (s : LocalEndpointStore)
    → Distinct (sub_in (lookup path s))
    → at q j (delete_by_service_id path service_id s) ≡ (
        if text_eq path q
        then kept (λ ep. not (text_eq ep.service_id service_id)) (at q j s)
        else at q j s)
unfolding at
at-delete_by_service_id path service_id q j s d =
    rw (subs-delete_by_service_id path service_id q s) (elim (Bool-cases (text_eq path q)) [
      | inl e ↦
          rw
            (
              e,
              lookup-keep_if (λ _ ep. not (text_eq ep.service_id service_id)) j (subs path s) d,
              (text_eq_iff path q).0 e,
            )
            refl
      | inr e ↦ rw e refl
    ])

subs-set_endpoint :
    (path : Text) (ep : LocalEndpoint) (s : LocalEndpointStore) (q : Text)
    → sub_in (lookup q (set_endpoint path ep s)) ≡ (
        if text_eq path q then insert ep.ep_id ep (sub_in (lookup path s)) else sub_in (lookup q s))
unfolding set_endpoint
subs-set_endpoint path ep s q =
    rw (lookup-insert path q (insert ep.ep_id ep (sub_in (lookup path s))) s) (ground arith)

put_sub-Distinct :
    (path : Text) (sub : Dict LocalEndpoint) (s : LocalEndpointStore)
    → Distinct s
    → Distinct (put_sub path sub s)
put_sub-Distinct path [] s d = delete-Distinct path s d
put_sub-Distinct path (e ∷ sub) s d = insert-Distinct path (e ∷ sub) s d

choose-Distinct :
    (b : Bool) (m n : Dict LocalEndpoint) → Distinct m → Distinct n → Distinct (if b then m else n)
choose-Distinct true m n d e = d
choose-Distinct false m n d e = e

pub set_endpoint-IsStore :
    (ep : LocalEndpoint) (s : LocalEndpointStore)
    → IsStore s
    → IsStore (set_endpoint ep.node_path ep s)
set_endpoint-IsStore ep s v = record {
  paths = unfold set_endpoint in insert-Distinct ep.node_path _ s v.paths;
  ids = λ q. rw (subs-set_endpoint ep.node_path ep s q) (
      choose-Distinct (text_eq ep.node_path q) _ _
        (insert-Distinct ep.ep_id ep _ (v.ids ep.node_path)) (v.ids q));
  own_key = λ q j x e. ground (
    arith,
    sym (at-set_endpoint ep.node_path ep s q j) ∙ e,
    v.own_key q j x,
    text_eq_iff ep.node_path q,
    text_eq_iff ep.ep_id j,
  );
}

delete_by_ep_id_in-Distinct :
    (o : Option (Dict LocalEndpoint)) (path ep_id : Text) (s : LocalEndpointStore)
    → Distinct s
    → Distinct (delete_by_ep_id_in o path ep_id s)
unfolding delete_by_ep_id_in
delete_by_ep_id_in-Distinct none path ep_id s d = d
delete_by_ep_id_in-Distinct (some sub) path ep_id s d = put_sub-Distinct path _ s d

pub delete_by_ep_id-IsStore :
    (path ep_id : Text) (s : LocalEndpointStore)
    → IsStore s
    → IsStore (delete_by_ep_id path ep_id s)
delete_by_ep_id-IsStore path ep_id s v = record {
  paths =
      unfold delete_by_ep_id in delete_by_ep_id_in-Distinct (lookup path s) path ep_id s v.paths;
  ids = λ q.
      rw (subs-delete_by_ep_id path ep_id q s)
        (choose-Distinct (text_eq path q) _ _ (delete-Distinct ep_id _ (v.ids path)) (v.ids q));
  own_key =
      λ q j x e. ground (arith, sym (at-delete_by_ep_id path ep_id q j s) ∙ e, v.own_key q j x);
}

pub new_local_endpoint_store-IsStore : IsStore new_local_endpoint_store
unfolding new_local_endpoint_store lookup at
new_local_endpoint_store-IsStore = record {
  paths = tt;
  ids = λ path. tt;
  own_key = λ q j ep e. absurd (cc);
}
