-- ===== src/Access/Tests.antt =====
-- A request from another host.
use nova_airouter.Prelude.{◌≡◌, true, false, some, [], text_eq, codes}
use nova_airouter.Access.{
  Net, Request, AccessConfig, is_local_request, require_inbound_access, require_api_key_or_local,
}
use nova_airouter.Access.Keys.{is_admitted, has_key, access_lem}

abbrev net : Net
net = record { split_host = λ addr. some (codes "10.0.0.9"); is_loopback = λ host. false }

abbrev config : AccessConfig
config = record { share_mode = []; disable_admin_auth = false; api_key = codes "secret" }

abbrev with_key : Request
with_key = record { remote_addr = codes "10.0.0.9:4711"; api_key = codes "secret" }

access_example :
    (is_admitted (require_inbound_access net config with_key) ≡ true)
    × (is_admitted (require_api_key_or_local net config with_key) ≡ true)
    × (has_key (record config { api_key = [] }) with_key ≡ false)
unfolding text_eq is_local_request
access_example = access_lem net config with_key
