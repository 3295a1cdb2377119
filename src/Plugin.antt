-- ===== src/Plugin.antt =====
-- models_plugin/{types,session,backend,config}.go: the router of models, a process beside the
-- gateway. Backends are shared through pointers, so they stand in a heap; a pointer is its address.
-- A request that runs is one step at a time: its two halves around the backend's answer are apart.
pub mod Select
pub mod Chat
pub mod Counted
pub mod Failover
pub mod Election
pub mod Split
pub mod Ports
pub mod Discover
mod Tests
use nova_airouter.Prelude.{
  ℕ, suc, ◌+◌, ◌*◌, ◌/◌, ◌==◌, Time, second, ℤ, pos, negsuc, ◌+ℤ◌, ◌-ℤ◌, i32, i64, ltb_ℤ, elapsed,
  Bool, true, false, not, ◌&&◌, ◌||◌, if◌then◌else◌, Option, none, some, List, [], ◌∷◌, Text,
  text_eq, codes, Dict, lookup, insert, delete,
}

pub record Backend : Type 0 where
  pub address : Text
  pub port : ℤ
  pub node_path : Text
  pub backend_path : Text
  pub max_concurrent : ℤ
  pub healthy : Bool
  pub active_conn : ℤ
  pub avg_latency : ℤ
  pub last_success : Time

abbrev pub Heap : Type 0
Heap = ℕ → Backend

pub record ModelBackend : Type 0 where
  pub model : Text
  pub backends : List ℕ

pub record SessionInfo : Type 0 where
  pub session_id : Text
  pub backend_addr : Text
  pub backend_port : ℤ
  pub last_activity : Time

pub record Config : Type 0 where
  pub router_addr : Text
  pub plugin_addr : Text
  pub service_id : Text
  pub lb_algorithm : Text
  pub session_timeout : ℤ
  pub health_check_interval : ℤ
  pub election_timeout : ℤ
  pub heartbeat_interval : ℤ
  pub sync_interval : ℤ
  pub heartbeat_to_router : ℤ

-- `heap` and `next_free` are the pointers that are allocated.
pub record Plugin : Type 0 where
  pub config : Config
  pub is_master : Bool
  pub master_id : Text
  pub master_addr : Text
  pub term : ℤ
  pub is_candidate : Bool
  pub peers : List Text
  pub service_id : Text
  pub heap : Heap
  pub next_free : ℕ
  pub models : Dict ModelBackend
  pub sessions : Dict SessionInfo
  pub last_heartbeat : Time
  pub election_attempts : ℤ
  pub healthy : Bool

-- A setting in seconds, or its default in place of 0.
abbrev pub seconds_or : ℕ → ℤ → ℤ
seconds_or default (pos n) = if n == 0 then pos (default * second) else i64 (pos (n * second))
seconds_or default (negsuc n) = i64 (negsuc (n * second + 999999999))

abbrev pub session_timeout_of : Config → ℤ
session_timeout_of c = seconds_or 600 c.session_timeout

abbrev pub election_timeout_of : Config → ℤ
election_timeout_of c = seconds_or 3 c.election_timeout

abbrev pub default_config : Config
default_config = record {
  router_addr = codes "localhost:15049";
  plugin_addr = codes ":18011";
  service_id = [];
  lb_algorithm = codes "least_conn";
  session_timeout = pos 600;
  health_check_interval = pos 10;
  election_timeout = pos 3;
  heartbeat_interval = pos 1;
  sync_interval = pos 30;
  heartbeat_to_router = pos 5;
}

-- Whether `Validate` finds no error.
unfoldable pub is_valid : Config → Bool
is_valid c =
    not (text_eq c.router_addr [])
    && not (text_eq c.plugin_addr [])
    && (text_eq c.lb_algorithm (codes "round_robin")
        || text_eq c.lb_algorithm (codes "least_conn")
        || text_eq c.lb_algorithm (codes "fastest"))

abbrev pub new_plugin : Heap → Config → Plugin
new_plugin heap c = record {
  config = c;
  is_master = false;
  master_id = [];
  master_addr = [];
  term = pos 0;
  is_candidate = false;
  peers = [];
  service_id = [];
  heap = heap;
  next_free = 0;
  models = [];
  sessions = [];
  last_heartbeat = 62135596800 * second;  -- 1970
  election_attempts = pos 0;
  healthy = true;
}

-- A write_at through the pointer `p`.
abbrev pub write_at : ℕ → Backend → Heap → Heap
write_at p b h q = if q == p then b else h q

-- `atomic.AddInt32(&b.ActiveConn, d)`.
unfoldable pub add_conn : ℤ → ℕ → Heap → Heap
add_conn d p h = write_at p (record (h p) { active_conn = i32 ((h p).active_conn +ℤ d) }) h

abbrev pub eq_ℤ : ℤ → ℤ → Bool
eq_ℤ (pos m) (pos n) = m == n
eq_ℤ (negsuc m) (negsuc n) = m == n
eq_ℤ _ _ = false

abbrev pub is_at : Text → ℤ → Backend → Bool
is_at addr port b = text_eq b.address addr && eq_ℤ b.port port

unfoldable pub bind_session : Time → Text → ℕ → Plugin → Plugin
bind_session now session_id p s = record s {
  heap = add_conn (pos 1) p s.heap;
  sessions =
      insert session_id
        (record {
          session_id = session_id;
          backend_addr = (s.heap p).address;
          backend_port = (s.heap p).port;
          last_activity = now;
        })
        s.sessions;
}

-- The first of the backends at the address has one connection less.
unfoldable pub release_in : Text → ℤ → List ℕ → Heap → Heap
release_in addr port [] h = h
release_in addr port (p ∷ ps) h =
    let rest = release_in addr port ps h in
    if is_at addr port (h p) then add_conn (negsuc 0) p h else rest

unfoldable pub release : Text → ℤ → Dict ModelBackend → Heap → Heap
release addr port [] h = h
release addr port ((_, mb) ∷ models) h =
    release addr port models (release_in addr port mb.backends h)

unfoldable pub release_of : Option SessionInfo → Plugin → Heap
release_of none s = s.heap
release_of (some session) s = release session.backend_addr session.backend_port s.models s.heap

unfoldable pub unbind_session : Text → Plugin → Plugin
unfolding release_of
unbind_session session_id s = record s {
  heap = release_of (lookup session_id s.sessions) s;
  sessions = delete session_id s.sessions;
}

unfoldable pub touched : Time → Text → Option SessionInfo → Dict SessionInfo → Dict SessionInfo
touched now session_id none sessions = sessions
touched now session_id (some session) sessions =
    insert session_id (record session { last_activity = now }) sessions

unfoldable pub update_session_activity : Time → Text → Plugin → Plugin
unfolding touched
update_session_activity now session_id s = record s {
  sessions = touched now session_id (lookup session_id s.sessions) s.sessions;
}

-- `cleanupExpiredSessions`, one tick: the sessions of the range, each of which may go.
unfoldable pub cleanup_sessions : Time → Dict SessionInfo → Plugin → Plugin
cleanup_sessions now [] s = s
cleanup_sessions now ((id, session) ∷ rest) s = cleanup_sessions now rest (
    if ltb_ℤ (session_timeout_of s.config) (elapsed now session.last_activity)
    then record s {
      heap = release session.backend_addr session.backend_port s.models s.heap;
      sessions = delete id s.sessions;
    }
    else s)

unfoldable pub cleanup_expired_sessions : Time → Plugin → Plugin
cleanup_expired_sessions now s = cleanup_sessions now s.sessions s

-- Go's division by 2, which rounds towards 0.
abbrev pub half : ℤ → ℤ
half (pos n) = pos (n / 2)
half (negsuc n) = pos 0 -ℤ pos (suc n / 2)

-- `updateBackendLatency`, given the number that `Sscanf` reads of the header, 0 without one.
unfoldable pub update_backend_latency : ℤ → ℕ → Heap → Heap
update_backend_latency latency p h =
    let b = h p in
    write_at p
      (record b {
        avg_latency =
            if eq_ℤ b.avg_latency (pos 0) then latency else half (i64 (b.avg_latency +ℤ latency));
      })
      h
