-- ===== src/HealthCheck.antt =====
-- internal/business/healthcheck/healthcheck.go: the passive health checker, which marks a path
-- unhealthy after failures in a row. Each method runs under its mutex; `time.Now()` is an argument.
pub mod Streaks
mod Tests
use nova_airouter.Prelude.{
  ℕ, ◌*◌, ℤ, pos, ◌+ℤ◌, i64, leb_ℤ, Time, elapsed, second, Bool, true, false, ◌||◌, is_some,
  if◌then◌else◌, Option, none, some, List, [], ◌∷◌, Text, Dict, lookup, insert,
}

abbrev pub failure_threshold : ℕ
failure_threshold = 3

abbrev pub recovery_interval : ℕ
recovery_interval = 30 * second

pub record EndpointHealth : Type 0 where
  pub consecutive_failures : ℤ  -- int
  pub last_failure_time : Time
  pub last_success_time : Time
  pub is_healthy : Bool

-- `&EndpointHealth{IsHealthy: true}`.
abbrev pub fresh : EndpointHealth
fresh = record {
  consecutive_failures = pos 0;
  last_failure_time = 0;
  last_success_time = 0;
  is_healthy = true;
}

pub record PassiveHealthChecker : Type 0 where
  pub states : Dict EndpointHealth

unfoldable pub new : PassiveHealthChecker
new = record { states = [] }

-- `if _, exists := h.states[path]; !exists { … }; state := h.states[path]`.
abbrev pub or_fresh : Option EndpointHealth → EndpointHealth
or_fresh none = fresh
or_fresh (some s) = s

unfoldable pub record_success : Time → Text → PassiveHealthChecker → PassiveHealthChecker
record_success now path h =
    let s = or_fresh (lookup path h.states) in
    record h {
      states =
          insert path
            (record s { consecutive_failures = pos 0; last_success_time = now; is_healthy = true })
            h.states;
    }

-- The update of one path's state in `RecordFailure`.
unfoldable pub fail_once : Time → EndpointHealth → EndpointHealth
fail_once now s =
    let failures = i64 (s.consecutive_failures +ℤ pos 1) in
    let s' = record s { consecutive_failures = failures; last_failure_time = now } in
    if leb_ℤ (pos failure_threshold) failures then record s' { is_healthy = false } else s'

unfoldable pub record_failure : Time → Text → PassiveHealthChecker → PassiveHealthChecker
record_failure now path h = record h {
  states = insert path (fail_once now (or_fresh (lookup path h.states))) h.states;
}

is_healthy_in : Option EndpointHealth → Bool
is_healthy_in none = true
is_healthy_in (some s) = s.is_healthy

unfoldable pub is_healthy : Text → PassiveHealthChecker → Bool
unfolding is_healthy_in
is_healthy path h = is_healthy_in (lookup path h.states)

should_allow_probe_in : Time → Option EndpointHealth → Bool
should_allow_probe_in now none = true
should_allow_probe_in now (some s) =
    if s.is_healthy then true else leb_ℤ (pos recovery_interval) (elapsed now s.last_failure_time)

unfoldable pub should_allow_probe : Time → Text → PassiveHealthChecker → Bool
unfolding should_allow_probe_in
should_allow_probe now path h = should_allow_probe_in now (lookup path h.states)

pub data Call : Type 0 where
  succeeds : Time → Text → Call
  fails : Time → Text → Call

unfoldable pub step : PassiveHealthChecker → Call → PassiveHealthChecker
step h (succeeds now path) = record_success now path h
step h (fails now path) = record_failure now path h

unfoldable pub run : PassiveHealthChecker → List Call → PassiveHealthChecker
run h [] = h
run h (c ∷ cs) = run (step h c) cs
