-- ===== src/Models/Endpoint.antt =====
-- internal/models/endpoint.go: `LocalEndpointStore`, the endpoints that backends register with this
-- node, by node path and endpoint id. Every method holds the store's lock, so a call is one step.
-- The callers get pointers into the store; they change an endpoint only by `Set` or under the same
-- lock, so a value stands for a pointer here.
pub mod Keys
use nova_airouter.Prelude.{
  ℤ, Time, Bool, true, false, if◌then◌else◌, Option, none, some, List, [], ◌∷◌, ◌++◌, map, Text,
  text_eq, Dict, lookup, insert, delete, map_values, keep_if, not,
}

pub record LocalEndpoint : Type 0 where
  pub service_id : Text
  pub ep_id : Text
  pub service_path : Text
  pub node_path : Text
  pub description : Text
  pub healthy : Bool
  pub last_heartbeat : Time
  pub active : ℤ  -- int32
  pub queue_len : ℤ  -- int32
  pub max_concurrent : ℤ  -- int32
  pub local_only : Bool
  pub plugin : Bool

-- map[nodePath]map[epID]*LocalEndpoint.
abbrev pub LocalEndpointStore : Type 0
LocalEndpointStore = Dict (Dict LocalEndpoint)

unfoldable pub new_local_endpoint_store : LocalEndpointStore
new_local_endpoint_store = []

-- The entries under a path, none for a path that is not there.
abbrev pub sub_in : Option (Dict LocalEndpoint) → Dict LocalEndpoint
sub_in none = []
sub_in (some sub) = sub

unfoldable pub set_endpoint : Text → LocalEndpoint → LocalEndpointStore → LocalEndpointStore
set_endpoint path ep s = insert path (insert ep.ep_id ep (sub_in (lookup path s))) s

abbrev pub values : Dict LocalEndpoint → List LocalEndpoint
values [] = []
values ((_, ep) ∷ sub) = ep ∷ values sub

-- The first endpoint of a range that passes the test.
abbrev pub first_where : (LocalEndpoint → Bool) → Dict LocalEndpoint → Option LocalEndpoint
first_where test [] = none
first_where test ((_, ep) ∷ sub) = if test ep then some ep else first_where test sub

unfoldable pub get_endpoint : Text → LocalEndpointStore → Option LocalEndpoint
get_endpoint path s = first_where (λ _. true) (sub_in (lookup path s))

unfoldable pub list_by_node_path : Text → LocalEndpointStore → List LocalEndpoint
list_by_node_path path s = values (sub_in (lookup path s))

unfoldable pub get_by_ep_id : Text → Text → LocalEndpointStore → Option LocalEndpoint
get_by_ep_id path ep_id s = first_where (λ ep. text_eq ep.ep_id ep_id) (sub_in (lookup path s))

unfoldable pub get_by_service_id : Text → Text → LocalEndpointStore → Option LocalEndpoint
get_by_service_id path service_id s =
    first_where (λ ep. text_eq ep.service_id service_id) (sub_in (lookup path s))

unfoldable pub delete_path : Text → LocalEndpointStore → LocalEndpointStore
delete_path path s = delete path s

-- `if len(sub) == 0 { delete(s.endpoints, path) }` after a deletion below the path.
abbrev pub put_sub : Text → Dict LocalEndpoint → LocalEndpointStore → LocalEndpointStore
put_sub path [] s = delete path s
put_sub path (e ∷ sub) s = insert path (e ∷ sub) s

delete_by_ep_id_in :
    Option (Dict LocalEndpoint) → Text → Text → LocalEndpointStore → LocalEndpointStore
delete_by_ep_id_in none path ep_id s = s
delete_by_ep_id_in (some sub) path ep_id s = put_sub path (delete ep_id sub) s

unfoldable pub delete_by_ep_id : Text → Text → LocalEndpointStore → LocalEndpointStore
unfolding delete_by_ep_id_in
delete_by_ep_id path ep_id s = delete_by_ep_id_in (lookup path s) path ep_id s

delete_by_service_id_in :
    Option (Dict LocalEndpoint) → Text → Text → LocalEndpointStore → LocalEndpointStore
delete_by_service_id_in none path service_id s = s
delete_by_service_id_in (some sub) path service_id s =
    put_sub path (keep_if (λ _ ep. not (text_eq ep.service_id service_id)) sub) s

unfoldable pub delete_by_service_id : Text → Text → LocalEndpointStore → LocalEndpointStore
unfolding delete_by_service_id_in
delete_by_service_id path service_id s = delete_by_service_id_in (lookup path s) path service_id s

unfoldable pub list_endpoints : LocalEndpointStore → List LocalEndpoint
list_endpoints [] = []
list_endpoints ((_, sub) ∷ s) = values sub ++ list_endpoints s

last_in : Option LocalEndpoint → Dict LocalEndpoint → Option LocalEndpoint
last_in before [] = before
last_in before ((_, ep) ∷ sub) = last_in (some ep) sub

put_last : Text → Option LocalEndpoint → Dict LocalEndpoint → Dict LocalEndpoint
put_last path none m = m
put_last path (some ep) m = insert path ep m

-- One endpoint for each path: the last that the range meets.
unfoldable pub get_all : LocalEndpointStore → Dict LocalEndpoint
unfolding last_in put_last
get_all [] = []
get_all ((path, sub) ∷ s) = put_last path (last_in none sub) (get_all s)

unfoldable pub update_healthy : Bool → LocalEndpointStore → LocalEndpointStore
update_healthy healthy s =
    map_values (λ _ sub. map_values (λ _ ep. record ep { healthy = healthy }) sub) s

unfoldable pub update_heartbeat : Time → LocalEndpointStore → LocalEndpointStore
update_heartbeat now s =
    map_values (λ _ sub. map_values (λ _ ep. record ep { last_heartbeat = now }) sub) s
