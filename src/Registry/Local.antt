-- ===== src/Registry/Local.antt =====
-- internal/registry/local/local.go: the registry of local endpoints. A method is one step. The ids
-- that `generateServiceID` draws from `crypto/rand` are an argument. A loop over `List()` that
-- writes an endpoint through its pointer writes it at its own path and id.
pub mod Sweep
pub mod Services
pub mod Stale
pub mod Register
mod Tests
use nova_airouter.Prelude.{
  ℕ, suc, ◌+◌, ℤ, pos, ◌+ℤ◌, i64, ltb_ℤ, Time, elapsed, Bool, true, false, ◌&&◌, ◌||◌,
  if◌then◌else◌, Option, none, some, List, [], ◌∷◌, length, exists, select, Text, text_eq, Dict,
  insert, lookup,
}
use nova_airouter.Models.Endpoint.{
  LocalEndpoint, LocalEndpointStore, new_local_endpoint_store, set_endpoint, list_endpoints,
  delete_path, delete_by_ep_id, delete_by_service_id, get_by_ep_id, get_by_service_id,
}

pub record LocalRegistry : Type 0 where
  pub endpoints : LocalEndpointStore
  pub service_map : Dict Text

unfoldable pub new_local_registry : LocalRegistry
new_local_registry = record { endpoints = []; service_map = [] }

pub data Registration : Type 0 where
  registered : Text → Registration
  has_plugin : Text → Registration  -- "node_path … already has a plugin registered"
  panicked : Registration  -- `paths[0]` of no paths

-- Both are plugins of one path.
abbrev pub clashes : LocalEndpoint → LocalEndpoint → Bool
clashes ep existing = text_eq existing.node_path ep.node_path && (ep.plugin && existing.plugin)

-- The first new endpoint that clashes with a registered one.
unfoldable pub find_clash : List LocalEndpoint → List LocalEndpoint → Option Text
find_clash existing [] = none
find_clash existing (ep ∷ eps) =
    let rest = find_clash existing eps in
    if exists (clashes ep) existing then some ep.node_path else rest

-- The loop that gives each endpoint its ids and stores it; `n` ids are drawn so far.
unfoldable pub store_all :
    (ℕ → Text) → ℕ → Text → List LocalEndpoint → LocalEndpointStore → LocalEndpointStore
store_all ids n service_id [] s = s
store_all ids n service_id (ep ∷ eps) s =
    store_all ids (suc n) service_id eps
      (set_endpoint ep.node_path (record ep { service_id = service_id; ep_id = ids n }) s)

register_in :
    Option Text → (ℕ → Text) → List LocalEndpoint → LocalRegistry → LocalRegistry × Registration
register_in (some path) ids eps r = (r, has_plugin path)
register_in none ids [] r = (r, panicked)
register_in none ids (ep ∷ eps) r = (
  record {
    endpoints = store_all ids 1 (ids 0) (ep ∷ eps) r.endpoints;
    service_map = insert (ids 0) ep.node_path r.service_map;
  },
  registered (ids 0),
)

-- `ids 0` is the service id, `ids 1`, `ids 2`, … those of the endpoints.
unfoldable pub register_endpoints :
    (ℕ → Text) → List LocalEndpoint → LocalRegistry → LocalRegistry × Registration
unfolding register_in
register_endpoints ids eps r = register_in (find_clash (list_endpoints r.endpoints) eps) ids eps r

unfoldable pub remove_endpoint : Text → LocalRegistry → LocalRegistry
remove_endpoint path r = record r { endpoints = delete_path path r.endpoints }

-- `for _, ep := range eps { if test(ep) { act(ep) } }`.
pub sweep :
    (LocalEndpoint → Bool)
    → (LocalEndpoint → LocalEndpointStore → LocalEndpointStore)
    → List LocalEndpoint
    → LocalEndpointStore
    → LocalEndpointStore
sweep test act [] s = s
sweep test act (ep ∷ eps) s = sweep test act eps (if test ep then act ep s else s)

abbrev pub of_service : Text → LocalEndpoint → Bool
of_service service_id ep = text_eq ep.service_id service_id

unfoldable pub remove_by_service_id : Text → LocalRegistry → LocalRegistry × ℕ
remove_by_service_id service_id r =
    let eps = list_endpoints r.endpoints in
    (
      record r {
        endpoints =
            sweep (of_service service_id) (λ ep s. delete_by_service_id ep.node_path service_id s)
              eps r.endpoints;
      },
      length (select (of_service service_id) eps),
    )

remove_one_in : Option LocalEndpoint → Text → Text → LocalRegistry → LocalRegistry × ℕ
remove_one_in none service_id node_path r = (r, 0)
remove_one_in (some ep) service_id node_path r =
    if of_service service_id ep
    then (record r { endpoints = delete_by_service_id node_path service_id r.endpoints }, 1)
    else (r, 0)

unfoldable pub remove_by_service_id_and_path : Text → Text → LocalRegistry → LocalRegistry × ℕ
unfolding remove_one_in
remove_by_service_id_and_path service_id node_path r =
    remove_one_in (get_by_service_id node_path service_id r.endpoints) service_id node_path r

unfoldable pub remove_all_endpoints : LocalRegistry → LocalRegistry
remove_all_endpoints r = record r {
  endpoints =
      sweep (λ _. true) (λ ep s. delete_by_ep_id ep.node_path ep.ep_id s)
        (list_endpoints r.endpoints) r.endpoints;
}

-- Writing an endpoint through its pointer.
abbrev pub write :
    (LocalEndpoint → LocalEndpoint) → LocalEndpoint → LocalEndpointStore → LocalEndpointStore
write f ep s = set_endpoint ep.node_path (f ep) s

abbrev pub beat : Time → Bool → LocalEndpoint → LocalEndpoint
beat now healthy ep = record ep { healthy = healthy; last_heartbeat = now }

-- False stands for the error "service_id is required".
unfoldable pub update_heartbeat : Time → Text → Bool → LocalRegistry → LocalRegistry × Bool
update_heartbeat now [] healthy r = (r, false)
update_heartbeat now (c ∷ cs) healthy r = (
  record r {
    endpoints =
        sweep (of_service (c ∷ cs)) (write (beat now healthy)) (list_endpoints r.endpoints)
          r.endpoints;
  },
  true,
)

abbrev pub with_metrics : ℤ → ℤ → LocalEndpoint → LocalEndpoint
with_metrics active queue_len ep = record ep { active = active; queue_len = queue_len }

unfoldable pub update_endpoint_metrics : Text → ℤ → ℤ → LocalRegistry → LocalRegistry
update_endpoint_metrics node_path active queue_len r = record r {
  endpoints =
      sweep (λ ep. text_eq ep.node_path node_path) (write (with_metrics active queue_len))
        (list_endpoints r.endpoints) r.endpoints;
}

update_metrics_in : Option LocalEndpoint → Text → ℤ → ℤ → LocalRegistry → LocalRegistry
update_metrics_in none node_path active queue_len r = r
update_metrics_in (some ep) node_path active queue_len r = record r {
  endpoints = set_endpoint node_path (with_metrics active queue_len ep) r.endpoints;
}

unfoldable pub update_endpoint_metrics_by_ep_id :
    Text → Text → ℤ → ℤ → LocalRegistry → LocalRegistry
unfolding update_metrics_in
update_endpoint_metrics_by_ep_id node_path ep_id active queue_len r =
    update_metrics_in (get_by_ep_id node_path ep_id r.endpoints) node_path active queue_len r

abbrev pub overdue : Time → ℤ → LocalEndpoint → Bool
overdue now timeout ep = ltb_ℤ timeout (elapsed now ep.last_heartbeat)

-- An endpoint that the check changes, and one that it deletes.
abbrev pub is_deleted : Time → ℤ → LocalEndpoint → Bool
is_deleted now timeout ep =
    overdue now timeout ep
    && (if ep.healthy then false else overdue now (i64 (timeout +ℤ timeout)) ep)

abbrev pub is_hit : Time → ℤ → LocalEndpoint → Bool
is_hit now timeout ep =
    overdue now timeout ep && (ep.healthy || overdue now (i64 (timeout +ℤ timeout)) ep)

abbrev pub hit : LocalEndpoint → LocalEndpointStore → LocalEndpointStore
hit ep s =
    if ep.healthy
    then write (λ e. record e { healthy = false }) ep s
    else delete_by_ep_id ep.node_path ep.ep_id s

unfoldable pub check_stale_endpoints : Time → ℤ → LocalRegistry → LocalRegistry × List LocalEndpoint
check_stale_endpoints now timeout r =
    let eps = list_endpoints r.endpoints in
    (
      record r { endpoints = sweep (is_hit now timeout) hit eps r.endpoints },
      select (is_deleted now timeout) eps,
    )
