-- ===== src/Registry/Local/Services.antt =====
-- Heartbeats and removals by service id reach exactly the endpoints of that service.
use nova_airouter.Prelude.{
  Time, ◌≡◌, refl, ◌∙◌, ◌≢◌, Bool, true, false, not, ◌&&◌, if◌then◌else◌, Option, none, some, List,
  [], ◌∷◌, inl, inr, exists, In, Text, text_eq, text_eq_iff, lookup, Distinct, kept,
  keep_if-Distinct, arith, Bool-cases, Option-cases,
}
use nova_airouter.Models.Endpoint.{
  LocalEndpoint, LocalEndpointStore, list_endpoints, delete_by_service_id, sub_in,
}
use nova_airouter.Models.Endpoint.Keys.{
  at, IsStore, at-set_endpoint, at-delete_by_service_id, subs-delete_by_service_id,
}
use nova_airouter.Registry.Local.{
  LocalRegistry, sweep, of_service, remove_by_service_id, write, beat, update_heartbeat,
}
use nova_airouter.Registry.Local.Sweep.{Acts, sweep_list, listed_of_at}

-- An endpoint of the service, changed; any other as it was.
abbrev pub where_service :
    Text → (LocalEndpoint → LocalEndpoint) → Option LocalEndpoint → Option LocalEndpoint
where_service id f none = none
where_service id f (some ep) = some (if of_service id ep then f ep else ep)

beat-Acts :
    (now : Time) (id : Text) (healthy : Bool)
    → Acts (of_service id) (write (beat now healthy)) (λ ep. some (beat now healthy ep))
beat-Acts now id healthy ep s q j t = at-set_endpoint ep.node_path (beat now healthy ep) s q j

-- A heartbeat without a service id is refused and changes nothing. With one, it is accepted and
-- sets the health and the time of exactly the endpoints of that service, and leaves every other
-- endpoint as it was.
pub update_heartbeat_lem :
    (now : Time) (id : Text) (healthy : Bool) (r : LocalRegistry) (q j : Text)
    → IsStore r.endpoints
    → id ≢ []
    → (update_heartbeat now [] healthy r ≡ (r, false))
      × ((update_heartbeat now id healthy r).1 ≡ true)
      × (at q j (update_heartbeat now id healthy r).0.endpoints
          ≡ where_service id (beat now healthy) (at q j r.endpoints))
unfolding update_heartbeat
update_heartbeat_lem now [] healthy r q j v h = absurd (h refl)
update_heartbeat_lem now (c ∷ cs) healthy r q j v h = (
  refl,
  refl,
  sweep_list (of_service (c ∷ cs)) (write (beat now healthy)) _ (beat-Acts now (c ∷ cs) healthy) q j
        r.endpoints v
      ∙ ground arith,
)

removes : Text → Text → List LocalEndpoint → Bool
removes id q eps = exists (λ ep. of_service id ep && text_eq ep.node_path q) eps

abbrev foreign : Text → LocalEndpoint → Bool
foreign id ep = not (of_service id ep)

step_ids :
    (b : Bool) (id : Text) (ep : LocalEndpoint) (s : LocalEndpointStore)
    → ((p : Text) → Distinct (sub_in (lookup p s)))
    → (p : Text)
    → Distinct (sub_in (lookup p (if b then delete_by_service_id ep.node_path id s else s)))
step_ids false id ep s d p = d p
step_ids true id ep s d p =
    rw (subs-delete_by_service_id ep.node_path id p s) (elim (Bool-cases (text_eq ep.node_path p)) [
      | inl e ↦ rw e (keep_if-Distinct _ _ (d ep.node_path))
      | inr e ↦ rw e (d p)
    ])

kept_twice : (p : LocalEndpoint → Bool) (o : Option LocalEndpoint) → kept p (kept p o) ≡ kept p o
kept_twice p none = refl
kept_twice p (some ep) = ground arith

remove-at :
    (id q j : Text) (eps : List LocalEndpoint) (s : LocalEndpointStore)
    → ((p : Text) → Distinct (sub_in (lookup p s)))
    → at q j (sweep (of_service id) (λ ep t. delete_by_service_id ep.node_path id t) eps s)
      ≡ (if removes id q eps then kept (foreign id) (at q j s) else at q j s)
unfolding sweep removes
remove-at id q j [] s d = refl
remove-at id q j (ep ∷ eps) s d =
    let s' = if of_service id ep then delete_by_service_id ep.node_path id s else s in
    ground (
      arith,
      remove-at id q j eps s' (step_ids (of_service id ep) id ep s d),
      at-delete_by_service_id ep.node_path id q j s (d ep.node_path),
      kept_twice (foreign id) (at q j s),
    )

removes-hit :
    (id q : Text) (ep : LocalEndpoint) (eps : List LocalEndpoint)
    → In ep eps
    → of_service id ep ≡ true
    → ep.node_path ≡ q
    → removes id q eps ≡ true
unfolding removes
removes-hit id q ep [] i t k = elim i [ ]
removes-hit id q ep (x ∷ eps) (inl e) t k = ground (arith, e, text_eq_iff ep.node_path q)
removes-hit id q ep (x ∷ eps) (inr i) t k = ground (arith, removes-hit id q ep eps i t k)

-- Removing a service removes exactly the endpoints that carry its id, under every path, and leaves
-- every other endpoint as it was.
pub remove_by_service_id_lem :
    (id : Text) (r : LocalRegistry) (q j : Text)
    → IsStore r.endpoints
    → at q j (remove_by_service_id id r).0.endpoints
      ≡ kept (λ ep. not (text_eq ep.service_id id)) (at q j r.endpoints)
unfolding remove_by_service_id
remove_by_service_id_lem id r q j v =
    let s = r.endpoints in
    rw (remove-at id q j (list_endpoints s) s v.ids) (elim (Option-cases (at q j s)) [
      | inl e ↦ rw e (ground arith)
      | inr (ep, e) ↦ elim (Bool-cases (of_service id ep)) [
        | inl t ↦
            rw
              (removes-hit id q ep (list_endpoints s) (listed_of_at q j ep s e) t
                (v.own_key q j ep e).0)
              refl
        | inr f ↦ rw (e, f) (ground arith)
      ]
    ])
