-- ===== src/Registry/Local/Stale.antt =====
-- How a local endpoint without heartbeats is first marked unhealthy and then removed.
use nova_airouter.Prelude.{
  ℕ, ◌+◌, ◌≤◌, ◌<◌, ltb, ℤ, pos, ◌+ℤ◌, i64, max_duration, elapsed_gt, Time, ◌≡◌, refl, ◌∙◌, Bool,
  false, if◌then◌else◌, Option, none, some, List, [], ◌∷◌, inl, inr, Text, arith, Bool-cases,
}
use nova_airouter.Models.Endpoint.{LocalEndpoint, LocalEndpointStore, list_endpoints}
use nova_airouter.Models.Endpoint.Keys.{
  at, IsStore, at-set_endpoint, at-delete_by_ep_id, set_endpoint-IsStore, delete_by_ep_id-IsStore,
}
use nova_airouter.Registry.Local.{LocalRegistry, sweep, is_hit, hit, check_stale_endpoints}
use nova_airouter.Registry.Local.Sweep.{Acts, tested, after, sweep_list}

abbrev pub sick : LocalEndpoint → LocalEndpoint
sick ep = record ep { healthy = false }

-- What a check at `now` with the timeout `t` leaves of an endpoint.
abbrev pub aged : Time → ℕ → Option LocalEndpoint → Option LocalEndpoint
aged now t none = none
aged now t (some ep) =
    if ltb (ep.last_heartbeat + t) now
    then (if ep.healthy
        then some (sick ep)
        else if ltb (ep.last_heartbeat + (t + t)) now
        then none
        else some ep)
    else some ep

abbrev struck : LocalEndpoint → Option LocalEndpoint
struck ep = if ep.healthy then some (sick ep) else none

hit-Acts : (now : Time) (timeout : ℤ) → Acts (is_hit now timeout) hit struck
hit-Acts now timeout ep s q j t = ground (
  arith,
  at-set_endpoint ep.node_path (sick ep) s q j,
  at-delete_by_ep_id ep.node_path ep.ep_id q j s,
)

doubled : (t : ℕ) → t + t < max_duration → i64 (pos t +ℤ pos t) ≡ pos (t + t)
unfolding i64 ◌+ℤ◌
doubled t h = ground arith

aged_lem :
    (now : Time) (t : ℕ) (o : Option LocalEndpoint)
    → t + t < max_duration
    → (if tested (is_hit now (pos t)) o then after struck o else o) ≡ aged now t o
aged_lem now t none h = refl
aged_lem now t (some ep) h =
    rw
      (
        doubled t h,
        elapsed_gt now ep.last_heartbeat t (omega arith),
        elapsed_gt now ep.last_heartbeat (t + t) h,
      )
      (ground arith)

-- A check with the timeout `t` leaves an endpoint alone until `t` after its last heartbeat; after
-- that a healthy one is marked unhealthy, and one that was unhealthy already is removed once twice
-- the timeout has passed. Nothing else changes.
pub check_stale_endpoints_lem :
    (now : Time) (t : ℕ) (r : LocalRegistry) (q j : Text)
    → t + t < max_duration
    → IsStore r.endpoints
    → at q j (check_stale_endpoints now (pos t) r).0.endpoints ≡ aged now t (at q j r.endpoints)
unfolding check_stale_endpoints
check_stale_endpoints_lem now t r q j h v =
    sweep_list (is_hit now (pos t)) hit struck (hit-Acts now (pos t)) q j r.endpoints v
    ∙ aged_lem now t (at q j r.endpoints) h

hit-IsStore : (ep : LocalEndpoint) (s : LocalEndpointStore) → IsStore s → IsStore (hit ep s)
hit-IsStore ep s v = elim (Bool-cases ep.healthy) [
  | inl e ↦ rw e (set_endpoint-IsStore (sick ep) s v)
  | inr e ↦ rw e (delete_by_ep_id-IsStore ep.node_path ep.ep_id s v)
]

sweep-IsStore :
    (test : LocalEndpoint → Bool) (eps : List LocalEndpoint) (s : LocalEndpointStore)
    → IsStore s
    → IsStore (sweep test hit eps s)
unfolding sweep
sweep-IsStore test [] s v = v
sweep-IsStore test (ep ∷ eps) s v = elim (Bool-cases (test ep)) [
  | inl e ↦ rw e (sweep-IsStore test eps _ (hit-IsStore ep s v))
  | inr e ↦ rw e (sweep-IsStore test eps s v)
]

pub check_stale_endpoints-IsStore :
    (now : Time) (timeout : ℤ) (r : LocalRegistry)
    → IsStore r.endpoints
    → IsStore (check_stale_endpoints now timeout r).0.endpoints
unfolding check_stale_endpoints
check_stale_endpoints-IsStore now timeout r v =
    sweep-IsStore (is_hit now timeout) (list_endpoints r.endpoints) r.endpoints v

-- A backend that stays silent is removed: of an endpoint whose last heartbeat is more than twice
-- the timeout ago at a first check, nothing is left after a second check, whatever its health was.
pub silent_endpoint_removed :
    (now later : Time) (t : ℕ) (r : LocalRegistry) (q j : Text) (ep : LocalEndpoint)
    → t + t < max_duration
    → IsStore r.endpoints
    → at q j r.endpoints ≡ some ep
    → ep.last_heartbeat + (t + t) < now
    → now ≤ later
    → let r' = (check_stale_endpoints now (pos t) r).0 in
      at q j (check_stale_endpoints later (pos t) r').0.endpoints ≡ none
silent_endpoint_removed now later t r q j ep h v e old le =
    let r' = (check_stale_endpoints now (pos t) r).0 in
    rw
      (
        check_stale_endpoints_lem later t r' q j h (check_stale_endpoints-IsStore now (pos t) r v),
        check_stale_endpoints_lem now t r q j h v,
        e,
      )
      (ground arith)
