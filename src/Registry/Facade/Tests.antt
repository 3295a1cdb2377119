-- ===== src/Registry/Facade/Tests.antt =====
-- The aggregate of a path with two endpoints, one of them unhealthy.
use nova_airouter.Prelude.{pos, true, false, [], ◌∷◌, codes}
use nova_airouter.Models.Endpoint.{LocalEndpoint}
use nova_airouter.Registry.Local.{LocalRegistry}

abbrev healthy_one : LocalEndpoint
healthy_one = record {
  service_id = codes "s";
  ep_id = codes "a";
  service_path = codes "/";
  node_path = codes "/chat";
  description = [];
  healthy = true;
  last_heartbeat = 9;
  active = pos 2;
  queue_len = pos 0;
  max_concurrent = pos 4;
  local_only = false;
  plugin = false;
}

abbrev sick_one : LocalEndpoint
sick_one = record healthy_one { ep_id = codes "b"; healthy = false; active = pos 1 }

abbrev registry : LocalRegistry
registry = record {
  endpoints = (codes "/chat", (codes "a", healthy_one) ∷ (codes "b", sick_one) ∷ []) ∷ [];
  service_map = [];
}
