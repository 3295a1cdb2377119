-- ===== src/Plugin/Discover.antt =====
-- models_plugin/sync.go: the backends of the cluster, as one `doSync` finds them.
pub mod Steps
pub mod Fresh
pub mod Merge
pub mod Carried
use nova_airouter.Prelude.{
  ℕ, suc, ◌+◌, ◌==◌, Time, ℤ, pos, ltb_ℤ, Bool, true, false, not, ◌&&◌, if◌then◌else◌, Option, none,
  some, List, [], ◌∷◌, ◌++◌, Text, text_eq, codes, Dict, lookup, insert,
}
use nova_airouter.Plugin.{Backend, Heap, ModelBackend, Plugin, write_at, eq_ℤ, is_at}
use nova_airouter.Plugin.Ports.{split_service_path, atoi, plugin_port}

pub record PathInfo : Type 0 where
  pub node_path : Text
  pub service_path : Text
  pub description : Text
  pub plugin : Bool
  pub max_concurrent : ℤ

pub record NodeInfo : Type 0 where
  pub node_id : Text
  pub healthy : Bool
  pub path_infos : List PathInfo

pub record NodeAddress : Type 0 where
  pub node_id : Text
  pub address : Text
  pub service_port : ℤ

-- What the router and the backends answer: none for an error, no models for one.
pub record Cluster : Type 0 where
  pub nodes : Option (List NodeInfo)
  pub node_address : Text → Option NodeAddress
  pub models_of : Text → ℤ → List Text

-- The new backends: those that are allocated, and those of each model.
pub record Found : Type 0 where
  pub heap : Heap
  pub next_free : ℕ
  pub models : Dict ModelBackend

abbrev pub backends_in : Option ModelBackend → List ℕ
backends_in none = []
backends_in (some mb) = mb.backends

unfoldable pub add_backend : Backend → Text → Found → Found
add_backend b model x = record {
  heap = write_at x.next_free b x.heap;
  next_free = suc x.next_free;
  models =
      insert model
        (record {
          model = model;
          backends = backends_in (lookup model x.models) ++ x.next_free ∷ [];
        })
        x.models;
}

unfoldable pub add_models : Backend → List Text → Found → Found
add_models b [] x = x
add_models b (model ∷ models) x = add_models b models (add_backend b model x)

abbrev pub new_backend : Text → ℤ → Text → PathInfo → Backend
new_backend address port path info = record {
  address = address;
  port = port;
  node_path = info.node_path;
  backend_path = path;
  max_concurrent = if ltb_ℤ info.max_concurrent (pos 1) then pos 10 else info.max_concurrent;
  healthy = true;
  active_conn = pos 0;
  avg_latency = pos 0;
  last_success = 0;
}

unfoldable pub add_at : Cluster → ℤ → Text → PathInfo → Option NodeAddress → Found → Found
add_at c port path info none x = x
add_at c port path info (some addr) x =
    add_models (new_backend addr.address port path info) (c.models_of addr.address port) x

unfoldable pub add_port : Cluster → ℤ → Text → Text → PathInfo → Option ℤ → Found → Found
add_port c own_port node_id path info none x = x
add_port c own_port node_id path info (some port) x =
    if info.plugin && eq_ℤ port own_port
    then x
    else add_at c port path info (c.node_address node_id) x

unfoldable pub add_path : Cluster → ℤ → Text → PathInfo → Found → Found
add_path c own_port node_id info x =
    let (port, path) = split_service_path info.service_path in
    if text_eq info.service_path [] then x else add_port c own_port node_id path info (atoi port) x

unfoldable pub add_paths : Cluster → ℤ → Text → List PathInfo → Found → Found
add_paths c own_port node_id [] x = x
add_paths c own_port node_id (info ∷ infos) x =
    add_paths c own_port node_id infos (add_path c own_port node_id info x)

unfoldable pub add_nodes : Cluster → ℤ → List NodeInfo → Found → Found
add_nodes c own_port [] x = x
add_nodes c own_port (node ∷ nodes) x =
    add_nodes c own_port nodes
      (if node.healthy then add_paths c own_port node.node_id node.path_infos x else x)

-- The first of the old backends at the address hands on its count, and its limit.
unfoldable pub carried : List ℕ → Heap → Backend → Backend
carried [] h b = b
carried (o ∷ os) h b =
    let rest = carried os h b in
    if is_at b.address b.port (h o)
    then record b { active_conn = (h o).active_conn; max_concurrent = (h o).max_concurrent }
    else rest

unfoldable pub merge_backends : List ℕ → List ℕ → Heap → Heap
merge_backends old [] h = h
merge_backends old (p ∷ ps) h = merge_backends old ps (write_at p (carried old h (h p)) h)

unfoldable pub merge_models : Dict ModelBackend → Dict ModelBackend → Heap → Heap
merge_models old [] h = h
merge_models old ((model, mb) ∷ models) h =
    merge_models old models (merge_backends (backends_in (lookup model old)) mb.backends h)

unfoldable pub sync_nodes : Cluster → Option (List NodeInfo) → Plugin → Plugin
sync_nodes c none s = s
sync_nodes c (some nodes) s =
    let x =
      add_nodes c (plugin_port s.config.plugin_addr) nodes
        (record { heap = s.heap; next_free = s.next_free; models = [] }) in
    record s {
      heap = merge_models s.models x.models x.heap;
      next_free = x.next_free;
      models = x.models;
    }

unfoldable pub do_sync : Cluster → Plugin → Plugin
do_sync c s = sync_nodes c c.nodes s
