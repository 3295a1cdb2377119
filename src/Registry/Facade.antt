-- ===== src/Registry/Facade.antt =====
-- internal/registry/registry.go: what this node tells the others of its own endpoints. The other
-- methods of the facade pass a call on to the local or the remote registry.
pub mod Aggregate
pub mod Keys
mod Tests
use nova_airouter.Prelude.{
  ℤ, pos, ◌+ℤ◌, i32, Bool, true, false, ◌||◌, if◌then◌else◌, Option, none, some, List, [], ◌∷◌,
  Text, Dict, lookup, insert,
}
use nova_airouter.Models.Endpoint.{LocalEndpoint, list_endpoints}
use nova_airouter.Registry.Local.{LocalRegistry}

pub record AggregatedPathInfo : Type 0 where
  pub node_path : Text
  pub active : ℤ  -- int32
  pub queue_len : ℤ  -- int32
  pub healthy : Bool
  pub max_concurrent : ℤ  -- int32
  pub plugin : Bool

or_new : LocalEndpoint → Option AggregatedPathInfo → AggregatedPathInfo
or_new ep (some agg) = agg
or_new ep none = record {
  node_path = ep.node_path;
  active = pos 0;
  queue_len = pos 0;
  healthy = false;
  max_concurrent = pos 0;
  plugin = ep.plugin;
}

abbrev pub add_endpoint : LocalEndpoint → AggregatedPathInfo → AggregatedPathInfo
add_endpoint ep agg = record agg {
  active = i32 (agg.active +ℤ ep.active);
  queue_len = i32 (agg.queue_len +ℤ ep.queue_len);
  healthy = if ep.healthy then true else agg.healthy;
  max_concurrent =
      if ep.healthy then i32 (agg.max_concurrent +ℤ ep.max_concurrent) else agg.max_concurrent;
}

unfoldable pub aggregate_all :
    List LocalEndpoint → Dict AggregatedPathInfo → Dict AggregatedPathInfo
unfolding or_new
aggregate_all [] m = m
aggregate_all (ep ∷ eps) m =
    aggregate_all eps (insert ep.node_path (add_endpoint ep (or_new ep (lookup ep.node_path m))) m)

unfoldable pub aggregate_local_path_infos : LocalRegistry → Dict AggregatedPathInfo
aggregate_local_path_infos r = aggregate_all (list_endpoints r.endpoints) []
