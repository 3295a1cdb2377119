-- ===== src/Access.antt =====
-- internal/business/auth.go and internal/admin/auth.go: which requests are let in. The two files
-- define `isLocalRequest` alike. `net.SplitHostPort` and `net.ParseIP` with `IsLoopback` are
-- parameters; a refusal is its status code, the body is not modelled.
pub mod Keys
mod Tests
use nova_airouter.Prelude.{
  ℕ, Bool, true, false, not, ◌||◌, if◌then◌else◌, Option, none, some, [], ◌∷◌, Text, text_eq, codes,
}

pub record Net : Type 0 where
  pub split_host : Text → Option Text  -- none for an error
  pub is_loopback : Text → Bool

pub record Request : Type 0 where
  pub remote_addr : Text
  pub api_key : Text  -- the header X-API-Key, empty if it is missing

pub record AccessConfig : Type 0 where
  pub share_mode : Text
  pub disable_admin_auth : Bool
  pub api_key : Text

pub data Verdict : Type 0 where
  admitted : Verdict
  refused : ℕ → Verdict

abbrev pub or_addr : Text → Option Text → Text
or_addr addr none = addr
or_addr addr (some host) = host

unfoldable pub is_local_request : Net → Request → Bool
is_local_request net r =
    let host = or_addr r.remote_addr (net.split_host r.remote_addr) in
    if text_eq host (codes "127.0.0.1")
      || text_eq host (codes "::1")
      || text_eq host (codes "localhost")
    then true
    else net.is_loopback host

-- `apiKey == "" || apiKey != s.config.APIKey`.
abbrev pub is_bad_key : Text → Text → Bool
is_bad_key api_key configured = text_eq api_key [] || not (text_eq api_key configured)

unfoldable pub check_key : AccessConfig → Request → Verdict
check_key c r = if is_bad_key r.api_key c.api_key then refused 401 else admitted

share_mode_in : Text → Bool → Text
share_mode_in [] true = codes "public"
share_mode_in [] false = codes "account"
share_mode_in (m ∷ mode) disable = m ∷ mode

unfoldable pub require_inbound_access : Net → AccessConfig → Request → Verdict
unfolding share_mode_in
require_inbound_access net c r =
    let mode = share_mode_in c.share_mode c.disable_admin_auth in
    if text_eq mode (codes "public")
    then admitted
    else if text_eq mode (codes "local")
    then (if not (is_local_request net r) then refused 403 else admitted)
    else if is_local_request net r
    then admitted
    else check_key c r

unfoldable pub require_api_key : AccessConfig → Request → Verdict
require_api_key c r = if c.disable_admin_auth then admitted else check_key c r

unfoldable pub require_local_only : Net → Request → Verdict
require_local_only net r = if not (is_local_request net r) then refused 403 else admitted

unfoldable pub require_api_key_or_local : Net → AccessConfig → Request → Verdict
require_api_key_or_local net c r =
    if c.disable_admin_auth
    then admitted
    else if is_local_request net r
    then admitted
    else require_api_key c r
