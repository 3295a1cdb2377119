-- ===== src/Forwarder.antt =====
-- internal/business/forwarder/forwarder.go: a request that goes to another node. The HTTP client and
-- what `NewRequest` accepts are parameters; a reply without a status is one that nothing was written
-- to, which `net/http` sends as 200.
pub mod Loops
pub mod Counts
mod Tests
use nova_airouter.Prelude.{
  ℤ, ℕ, leb, pos, Bool, true, false, not, ◌&&◌, ◌||◌, if◌then◌else◌, Option, none, some, List, [],
  ◌∷◌, ◌++◌, exists, Text, text_eq, codes, Dict, lookup, insert, keep_if, has_prefix, has_suffix,
  trim_prefix, strip_prefix, is_some,
}
use nova_airouter.Models.Node.{RemoteNode}
use nova_airouter.Pool.Remote.{RemoteCounters, inc_remote_active, dec_remote_active}

abbrev pub Header : Type 0
Header = Dict (List Text)

-- `strings.Contains(s, p)`.
unfoldable pub contains : Text → Text → Bool
contains [] p = has_prefix [] p
contains (c ∷ s) p = has_prefix (c ∷ s) p || contains s p

-- `h.Get(key)`: the first value, or nothing.
abbrev pub first_of : Option (List Text) → Text
first_of (some (v ∷ vs)) = v
first_of _ = []

unfoldable pub header_get : Text → Header → Text
header_get key h = first_of (lookup key h)

abbrev pub safe_headers : List Text
safe_headers =
    codes "Content-Type"
    ∷ codes "Content-Length"
    ∷ codes "Accept"
    ∷ codes "Accept-Encoding"
    ∷ codes "Accept-Language"
    ∷ codes "User-Agent"
    ∷ codes "X-Requested-With"
    ∷ codes "Referer"
    ∷ codes "Authorization"
    ∷ []

abbrev pub forwarded_by : Text
forwarded_by = codes "X-Forwarded-By"

abbrev pub is_none_of : List Text → Bool
is_none_of [] = true
is_none_of (v ∷ vs) = false

-- The headers that go on, and those that do not.
unfoldable pub goes_on : Text → List Text → Bool
goes_on key values =
    (exists (λ k. text_eq k key) safe_headers || has_prefix key (codes "X-"))
    && not (text_eq key forwarded_by)
    && not (is_none_of values)

unfoldable pub next_hops : Text → Text → Text
next_hops node_id seen = if text_eq seen [] then node_id else seen ++ codes "," ++ node_id

unfoldable pub outgoing_header : Text → Header → Header
outgoing_header node_id h =
    insert forwarded_by (next_hops node_id (header_get forwarded_by h) ∷ []) (keep_if goes_on h)

-- The path at the backend of the node.
unfoldable pub target_path : RemoteNode → Text → Text
target_path node path =
    let rest = trim_prefix path node.node_path in
    if text_eq node.service_path []
    then path
    else if has_suffix node.node_path (codes "/")
    then rest
    else if text_eq rest []
    then codes "/"
    else rest

pub record Incoming : Type 0 where
  pub method : Text
  pub path : Text
  pub raw_query : Text
  pub header : Header

pub record Outgoing : Type 0 where
  pub method : Text
  pub address : Text
  pub port : ℤ
  pub path : Text  -- with the query
  pub header : Header

pub record Upstream : Type 0 where
  pub status : ℕ
  pub header : Header

pub record Client : Type 0 where
  pub accepts : Outgoing → Bool  -- `http.NewRequest` succeeds
  pub answer : Outgoing → Option Upstream  -- of `httpClient.Do`, none for an error

-- What is written to the caller, and whether an error is returned.
pub record Forwarded : Type 0 where
  pub counters : RemoteCounters
  pub sent : List Outgoing
  pub written : Option Upstream
  pub is_error : Bool

unfoldable pub outgoing : Text → RemoteNode → Incoming → Outgoing
outgoing node_id node r = record {
  method = r.method;
  address = node.address;
  port = node.service_port;
  path =
      let path = node.service_path ++ target_path node r.path in
      if text_eq r.raw_query [] then path else path ++ codes "?" ++ r.raw_query;
  header = outgoing_header node_id r.header;
}

answered_in : Outgoing → Option Upstream → RemoteCounters → Forwarded
answered_in out none m = record { counters = m; sent = out ∷ []; written = none; is_error = true }
answered_in out (some a) m = record {
  counters = m;
  sent = out ∷ [];
  written = some a;
  is_error = leb 500 a.status;
}

abbrev pub loop_detected : Upstream
loop_detected = record { status = 502; header = [] }

-- `HandleForwardedRequestWithError`, with the deferred decrement at its end.
unfoldable pub handle_forwarded_request :
    Client → Text → RemoteNode → Incoming → RemoteCounters → Forwarded
unfolding answered_in
handle_forwarded_request c node_id node r m =
    let counting = inc_remote_active node.node_id node.node_path m in
    let done = dec_remote_active node.node_id node.node_path counting in
    let out = outgoing node_id node r in
    if contains (header_get forwarded_by r.header) node_id
    then record { counters = m; sent = []; written = some loop_detected; is_error = true }
    else if not (c.accepts out)
    then record { counters = done; sent = []; written = none; is_error = true }
    else answered_in out (c.answer out) done
