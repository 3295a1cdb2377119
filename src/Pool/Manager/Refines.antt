-- ===== src/Pool/Manager/Refines.antt =====
-- The nested maps of the manager as one map from path and service to a pool.
use nova_airouter.Prelude.{
  ℕ, Bool, ◌&&◌, if◌then◌else◌, Option, none, some, List, [], ◌∷◌, Text, text_eq,
}
use nova_airouter.Pool.Manager.{ManagedPool, created, PoolCall, creates, removes, shuts_all}

-- The abstract manager: at most one pool for a path and a service.
abbrev pub Pools : Type 0
Pools = Text → Text → Option ManagedPool

abbrev pub at : Text → Text → Text → Text → Bool
at path service_id p s = text_eq path p && text_eq service_id s

abbrev pub abstract_step : ℕ → Pools → PoolCall → Pools
abstract_step capacity f (creates path service_id url max) p s =
    if at path service_id p s
    then some (created capacity path service_id url max (f path service_id))
    else f p s
abstract_step capacity f (removes path service_id) p s =
    if at path service_id p s then none else f p s
abstract_step capacity f shuts_all p s = none

abbrev pub abstract_run : ℕ → Pools → List PoolCall → Pools
abstract_run capacity f [] p s = f p s
abstract_run capacity f (c ∷ cs) p s = abstract_run capacity (abstract_step capacity f c) cs p s
