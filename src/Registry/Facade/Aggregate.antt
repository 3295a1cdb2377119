-- ===== src/Registry/Facade/Aggregate.antt =====
-- The aggregate of a path is the sum over its endpoints.
use nova_airouter.Prelude.{
  ℕ, ℤ, pos, pos_part, ◌+ℤ◌, i32, ◌≡◌, Bool, false, ◌&&◌, ◌||◌, if◌then◌else◌, Option, none, some,
  is_some, List, total, Text, text_eq,
}
use nova_airouter.Models.Endpoint.{LocalEndpoint}
use nova_airouter.Registry.Facade.{AggregatedPathInfo}

-- The endpoints of a path, and the healthy ones.
abbrev pub of_path : Text → LocalEndpoint → Bool
of_path path ep = text_eq ep.node_path path

abbrev pub healthy_of : Text → LocalEndpoint → Bool
healthy_of path ep = text_eq ep.node_path path && ep.healthy

-- A measure, summed over the endpoints that pass a test.
abbrev pub sum_of : (LocalEndpoint → Bool) → (LocalEndpoint → ℤ) → List LocalEndpoint → ℕ
sum_of test count eps = total (λ ep. if test ep then pos_part (count ep) else 0) eps

abbrev pub healthy_in : Option AggregatedPathInfo → Bool
healthy_in none = false
healthy_in (some agg) = agg.healthy

abbrev pub limit_in : Option AggregatedPathInfo → ℤ
limit_in none = pos 0
limit_in (some agg) = agg.max_concurrent

abbrev pub active_in : Option AggregatedPathInfo → ℤ
active_in none = pos 0
active_in (some agg) = agg.active

-- No count is negative.
abbrev pub IsCounted : LocalEndpoint → Type 0
IsCounted ep =
    (ep.active ≡ pos (pos_part ep.active)) × (ep.max_concurrent ≡ pos (pos_part ep.max_concurrent))

-- What one endpoint adds.
record Adds (path : Text) (ep : LocalEndpoint) (old new : Option AggregatedPathInfo) : Type 0 where
  listed : is_some new ≡ (of_path path ep || is_some old)
  health : healthy_in new ≡ (healthy_of path ep || healthy_in old)
  limit :
      limit_in new
      ≡ (if healthy_of path ep then i32 (limit_in old +ℤ ep.max_concurrent) else limit_in old)
  load :
      active_in new ≡ (if of_path path ep then i32 (active_in old +ℤ ep.active) else active_in old)
