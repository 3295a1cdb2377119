-- ===== src/Registry/Local/Tests.antt =====
-- The registry of local endpoints on concrete endpoints.
use nova_airouter.Prelude.{
  ℕ, suc, ◌≤◌, pos, ◌≡◌, refl, ◌≢◌, true, false, not, none, some, [], ◌∷◌, Text, text_eq, kept,
  insert, lookup, arith,
}
use nova_airouter.Models.Endpoint.{
  LocalEndpoint, new_local_endpoint_store, set_endpoint, list_endpoints,
}
use nova_airouter.Models.Endpoint.Keys.{
  at, IsStore, set_endpoint-IsStore, new_local_endpoint_store-IsStore,
}
use nova_airouter.Registry.Local.{
  LocalRegistry, registered, register_endpoints, find_clash, update_heartbeat, beat,
  remove_by_service_id, check_stale_endpoints,
}
use nova_airouter.Registry.Local.Services.{
  where_service, update_heartbeat_lem, remove_by_service_id_lem,
}
use nova_airouter.Registry.Local.Stale.{aged, check_stale_endpoints_lem, silent_endpoint_removed}
use nova_airouter.Registry.Local.Register.{stored, IsFresh, register_endpoints_lem}

abbrev chat : LocalEndpoint
chat = record {
  service_id = 7 ∷ [];
  ep_id = 8 ∷ [];
  service_path = 47 ∷ 99 ∷ [];
  node_path = 47 ∷ 110 ∷ [];
  description = [];
  healthy = true;
  last_heartbeat = 100;
  active = pos 0;
  queue_len = pos 0;
  max_concurrent = pos 4;
  local_only = false;
  plugin = false;
}

abbrev plug : LocalEndpoint
plug = record chat { plugin = true; node_path = 47 ∷ 112 ∷ [] }

abbrev one_endpoint : LocalRegistry
one_endpoint = record { endpoints = set_endpoint chat.node_path chat []; service_map = [] }

one_endpoint-IsStore : IsStore one_endpoint.endpoints
one_endpoint-IsStore =
    set_endpoint-IsStore chat []
      (unfold new_local_endpoint_store in new_local_endpoint_store-IsStore)

-- The n-th id drawn.
abbrev drawn : ℕ → Text
drawn n = suc n ∷ 9 ∷ []

drawn-IsFresh : IsFresh drawn
unfolding text_eq
drawn-IsFresh m n h = ground arith

named : ◌≢◌ {A = Text} (7 ∷ []) []
named e = absurd (cc)

update_heartbeat_example :
    (update_heartbeat 250 [] false one_endpoint ≡ (one_endpoint, false))
    × ((update_heartbeat 250 (7 ∷ []) false one_endpoint).1 ≡ true)
    × (at (47 ∷ 110 ∷ []) (8 ∷ []) (update_heartbeat 250 (7 ∷ []) false one_endpoint).0.endpoints
        ≡ where_service
            (7 ∷ [])
            (beat 250 false)
            (at (47 ∷ 110 ∷ []) (8 ∷ []) one_endpoint.endpoints))
update_heartbeat_example =
    update_heartbeat_lem 250 (7 ∷ []) false one_endpoint (47 ∷ 110 ∷ []) (8 ∷ [])
      one_endpoint-IsStore named

remove_by_service_id_example :
    at (47 ∷ 110 ∷ []) (8 ∷ []) (remove_by_service_id (7 ∷ []) one_endpoint).0.endpoints
    ≡ kept
        (λ ep. not (text_eq ep.service_id (7 ∷ [])))
        (at (47 ∷ 110 ∷ []) (8 ∷ []) one_endpoint.endpoints)
remove_by_service_id_example =
    remove_by_service_id_lem (7 ∷ []) one_endpoint (47 ∷ 110 ∷ []) (8 ∷ []) one_endpoint-IsStore

check_stale_endpoints_example :
    at (47 ∷ 110 ∷ []) (8 ∷ []) (check_stale_endpoints 200 (pos 60) one_endpoint).0.endpoints
    ≡ aged 200 60 (at (47 ∷ 110 ∷ []) (8 ∷ []) one_endpoint.endpoints)
check_stale_endpoints_example =
    check_stale_endpoints_lem 200 60 one_endpoint (47 ∷ 110 ∷ []) (8 ∷ []) (ground arith)
      one_endpoint-IsStore

found : at (47 ∷ 110 ∷ []) (8 ∷ []) one_endpoint.endpoints ≡ some chat
unfolding at set_endpoint lookup insert text_eq
found = refl

silent_endpoint_removed_example :
    let r' = (check_stale_endpoints 300 (pos 60) one_endpoint).0 in
    at (47 ∷ 110 ∷ []) (8 ∷ []) (check_stale_endpoints 310 (pos 60) r').0.endpoints ≡ none
silent_endpoint_removed_example =
    silent_endpoint_removed 300 310 60 one_endpoint (47 ∷ 110 ∷ []) (8 ∷ []) chat (ground arith)
      one_endpoint-IsStore found (omega arith) (omega arith)

clear_one : find_clash (list_endpoints one_endpoint.endpoints) (plug ∷ chat ∷ []) ≡ none
unfolding find_clash list_endpoints set_endpoint text_eq insert lookup
clear_one = refl

drawn_later : (m : ℕ) → 1 ≤ m → text_eq (drawn m) (8 ∷ []) ≡ false
unfolding text_eq
drawn_later m h = ground arith

register_endpoints_example :
    let (r', result) = register_endpoints drawn (plug ∷ chat ∷ []) one_endpoint in
    (result ≡ registered (drawn 0))
    × (at (47 ∷ 110 ∷ []) (drawn 2) r'.endpoints ≡ some (stored drawn 2 chat))
    × (at (47 ∷ 110 ∷ []) (8 ∷ []) r'.endpoints
        ≡ at (47 ∷ 110 ∷ []) (8 ∷ []) one_endpoint.endpoints)
    × IsStore r'.endpoints
register_endpoints_example =
    register_endpoints_lem drawn (plug ∷ chat ∷ []) one_endpoint 1 chat (47 ∷ 110 ∷ []) (8 ∷ [])
      one_endpoint-IsStore drawn-IsFresh clear_one refl drawn_later

clear_two : find_clash (list_endpoints one_endpoint.endpoints) (plug ∷ plug ∷ []) ≡ none
unfolding find_clash list_endpoints set_endpoint text_eq insert lookup
clear_two = refl
