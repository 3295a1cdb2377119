-- ===== src/Pool/Manager.antt =====
-- The part of `PoolManager` that keeps the pools of the local backends, by path and service. A pool
-- that is taken out is shut down, and returned here.
pub mod Refines
mod Tests
use nova_airouter.Prelude.{
  ℕ, ℤ, i32, Bool, true, false, if◌then◌else◌, Option, none, some, List, [], ◌∷◌, ◌++◌, Text, codes,
  Dict, lookup, insert, delete,
}
use nova_airouter.Pool.Requests.{RequestPool, new_request_pool, PoolMetrics, get_metrics}

pub record ManagedPool : Type 0 where
  pub path : Text
  pub service_id : Text
  pub target_url : Text
  pub requests : RequestPool

pub record PoolManager : Type 0 where
  pub pools : Dict (Dict ManagedPool)
  pub queue_capacity : ℕ

abbrev pub new_manager : ℕ → PoolManager
new_manager capacity = record { pools = []; queue_capacity = capacity }

abbrev pub submap_of : Option (Dict ManagedPool) → Dict ManagedPool
submap_of none = []
submap_of (some sub) = sub

unfoldable pub get_pool : Text → Text → PoolManager → Option ManagedPool
get_pool path service_id m = lookup service_id (submap_of (lookup path m.pools))

-- A pool that is there keeps its workers, whatever its new limit is.
unfoldable pub created : ℕ → Text → Text → Text → ℤ → Option ManagedPool → ManagedPool
created capacity path service_id target_url max none = record {
  path = path;
  service_id = service_id;
  target_url = target_url;
  requests = new_request_pool max capacity;
}
created capacity path service_id target_url max (some p) = record p {
  target_url = target_url;
  requests = record p.requests { max_concur = i32 max };
}

unfoldable pub create_pool : Text → Text → Text → ℤ → PoolManager → PoolManager
create_pool path service_id target_url max m =
    let sub = submap_of (lookup path m.pools) in
    let p = created m.queue_capacity path service_id target_url max (lookup service_id sub) in
    record m { pools = insert path (insert service_id p sub) m.pools }

abbrev pub stopped_pool : ManagedPool → ManagedPool
stopped_pool p = record p { requests = record p.requests { is_closed = true } }

abbrev pub without_service :
    Text → Dict ManagedPool → Dict (Dict ManagedPool) → Dict (Dict ManagedPool)
without_service path [] pools = delete path pools
without_service path (e ∷ sub) pools = insert path (e ∷ sub) pools

unfoldable pub remove_in :
    Text
    → Text
    → Dict ManagedPool
    → Option ManagedPool
    → PoolManager
    → PoolManager × Option ManagedPool
remove_in path service_id sub none m = (m, none)
remove_in path service_id sub (some p) m = (
  record m { pools = without_service path (delete service_id sub) m.pools },
  some (stopped_pool p),
)

unfoldable pub remove_pool : Text → Text → PoolManager → PoolManager × Option ManagedPool
remove_pool path service_id m =
    let sub = submap_of (lookup path m.pools) in
    remove_in path service_id sub (lookup service_id sub) m

abbrev pub values_of : Dict ManagedPool → List ManagedPool
values_of [] = []
values_of ((_, p) ∷ sub) = p ∷ values_of sub

unfoldable pub get_pools_by_path : Text → PoolManager → List ManagedPool
get_pools_by_path path m = values_of (submap_of (lookup path m.pools))

unfoldable pub states_of_path : Text → Dict ManagedPool → Dict PoolMetrics → Dict PoolMetrics
states_of_path path [] states = states
states_of_path path ((service_id, p) ∷ sub) states =
    states_of_path path sub
      (insert (path ++ codes "|" ++ service_id) (get_metrics p.requests) states)

unfoldable pub states_of_pools : Dict (Dict ManagedPool) → Dict PoolMetrics → Dict PoolMetrics
states_of_pools [] states = states
states_of_pools ((path, sub) ∷ pools) states =
    states_of_pools pools (states_of_path path sub states)

unfoldable pub get_all_states : PoolManager → Dict PoolMetrics
get_all_states m = states_of_pools m.pools []

unfoldable pub shutdown_all : PoolManager → PoolManager
shutdown_all m = record m { pools = [] }

-- What the registration of endpoints does to the pools.
pub data PoolCall : Type 0 where
  creates : Text → Text → Text → ℤ → PoolCall
  removes : Text → Text → PoolCall
  shuts_all : PoolCall

abbrev pub pool_step : PoolManager → PoolCall → PoolManager
pool_step m (creates path service_id target_url max) = create_pool path service_id target_url max m
pool_step m (removes path service_id) = (remove_pool path service_id m).0
pool_step m shuts_all = shutdown_all m

abbrev pub pool_run : PoolManager → List PoolCall → PoolManager
pool_run m [] = m
pool_run m (c ∷ cs) = pool_run (pool_step m c) cs
