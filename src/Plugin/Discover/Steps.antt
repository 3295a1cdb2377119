-- ===== src/Plugin/Discover/Steps.antt =====
-- What each new backend keeps, a whole `doSync` keeps.
use nova_airouter.Prelude.{
  ℤ, pos, Bool, true, false, ◌&&◌, if◌then◌else◌, Option, none, some, List, [], ◌∷◌, Text, text_eq,
  ◌≡◌, refl,
}
use nova_airouter.Plugin.{Backend, eq_ℤ}
use nova_airouter.Plugin.Ports.{atoi, split_service_path}
use nova_airouter.Plugin.Discover.{
  PathInfo, NodeInfo, NodeAddress, Cluster, Found, add_backend, add_models, new_backend, add_at,
  add_port, add_path, add_paths, add_nodes,
}

module _ (P : Found → Type 0)
    (grows : (b : Backend) (model : Text) (x : Found)
      → b.active_conn ≡ pos 0
      → P x
      → P (add_backend b model x)) where
  models_keep :
      (b : Backend) (models : List Text) (x : Found)
      → b.active_conn ≡ pos 0
      → P x
      → P (add_models b models x)
  unfolding add_models
  models_keep b [] x z h = h
  models_keep b (model ∷ models) x z h = models_keep b models _ z (grows b model x z h)

  at_keeps :
      (c : Cluster) (port : ℤ) (path : Text) (info : PathInfo) (o : Option NodeAddress) (x : Found)
      → P x
      → P (add_at c port path info o x)
  unfolding add_at
  at_keeps c port path info none x h = h
  at_keeps c port path info (some addr) x h =
      models_keep (new_backend addr.address port path info) (c.models_of addr.address port) x refl h

  either : (b : Bool) (x y : Found) → P x → P y → P (if b then x else y)
  either true x y h l = h
  either false x y h l = l

  port_keeps :
      (c : Cluster) (own : ℤ) (id path : Text) (info : PathInfo) (o : Option ℤ) (x : Found)
      → P x
      → P (add_port c own id path info o x)
  unfolding add_port
  port_keeps c own id path info none x h = h
  port_keeps c own id path info (some port) x h =
      either (info.plugin && eq_ℤ port own) x _ h
        (at_keeps c port path info (c.node_address id) x h)

  paths_keep :
      (c : Cluster) (own : ℤ) (id : Text) (infos : List PathInfo) (x : Found)
      → P x
      → P (add_paths c own id infos x)
  unfolding add_paths add_path
  paths_keep c own id [] x h = h
  paths_keep c own id (info ∷ infos) x h =
      let (port, path) = split_service_path info.service_path in
      paths_keep c own id infos _ (
        either (text_eq info.service_path []) x _ h (port_keeps c own id path info (atoi port) x h))

  pub nodes_keep :
      (c : Cluster) (own : ℤ) (nodes : List NodeInfo) (x : Found)
      → P x
      → P (add_nodes c own nodes x)
  unfolding add_nodes
  nodes_keep c own [] x h = h
  nodes_keep c own (node ∷ nodes) x h =
      nodes_keep c own nodes _
        (either node.healthy _ x (paths_keep c own node.node_id node.path_infos x h) h)
