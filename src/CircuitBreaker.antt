-- ===== src/CircuitBreaker.antt =====
-- internal/business/circuitbreaker/circuitbreaker.go: the circuit breaker of one backend. Each
-- method runs under the breaker's mutex, so a call is one step; `time.Now()` is an argument.
pub mod Counters
pub mod Machine
mod Tests
use nova_airouter.Prelude.{
  ℕ, ◌*◌, ℤ, pos, negsuc, ◌+ℤ◌, i32, i64, ltb_ℤ, leb_ℤ, Time, elapsed, second, Bool, true, false,
  if◌then◌else◌, List, [], ◌∷◌,
}

pub data State : Type 0 where
  closed open_ half_open : State

abbrev pub default_failure_threshold : ℕ
default_failure_threshold = 5

abbrev pub default_success_threshold : ℕ
default_success_threshold = 2

abbrev pub default_timeout : ℕ
default_timeout = 30 * second

abbrev pub default_half_open_max_reqs : ℕ
default_half_open_max_reqs = 1

pub record CircuitBreaker : Type 0 where
  pub state : State
  pub failure_count : ℤ  -- int
  pub success_count : ℤ  -- int
  pub failure_threshold : ℤ  -- int
  pub success_threshold : ℤ  -- int
  pub timeout : ℤ  -- time.Duration
  pub last_failure_time : Time
  pub half_open_max_reqs : ℤ  -- int
  pub active_half_open : ℤ  -- int32

unfoldable pub new : CircuitBreaker
new = record {
  state = closed;
  failure_count = pos 0;
  success_count = pos 0;
  failure_threshold = pos default_failure_threshold;
  success_threshold = pos default_success_threshold;
  timeout = pos default_timeout;
  last_failure_time = 0;
  half_open_max_reqs = pos default_half_open_max_reqs;
  active_half_open = pos 0;
}

-- `atomic.LoadInt32(&cb.activeHalfOpen) < int32(cb.halfOpenMaxReqs)`.
has_probe_slot : CircuitBreaker → Bool
has_probe_slot cb = ltb_ℤ cb.active_half_open (i32 cb.half_open_max_reqs)

allow_in : State → Time → CircuitBreaker → CircuitBreaker × Bool
unfolding has_probe_slot
allow_in closed now cb = (cb, true)
allow_in open_ now cb =
    if leb_ℤ cb.timeout (elapsed now cb.last_failure_time)
    then (
      record cb { state = half_open; success_count = pos 0; failure_count = pos 0 },
      has_probe_slot cb,
    )
    else (cb, false)
allow_in half_open now cb = (cb, has_probe_slot cb)

unfoldable pub allow : Time → CircuitBreaker → CircuitBreaker × Bool
unfolding allow_in
allow now cb = allow_in cb.state now cb

record_success_in : State → CircuitBreaker → CircuitBreaker
record_success_in half_open cb =
    let successes = i64 (cb.success_count +ℤ pos 1) in
    let cb' = record cb {
      active_half_open = i32 (cb.active_half_open +ℤ negsuc 0);
      success_count = successes;
    } in
    if leb_ℤ cb.success_threshold successes
    then record cb' { state = closed; failure_count = pos 0 }
    else cb'
record_success_in closed cb = record cb { failure_count = pos 0 }
record_success_in open_ cb = cb

unfoldable pub record_success : CircuitBreaker → CircuitBreaker
unfolding record_success_in
record_success cb = record_success_in cb.state cb

-- The part of `RecordFailure` behind the `HalfOpen` branch.
count_failure : CircuitBreaker → CircuitBreaker
count_failure cb =
    let failures = i64 (cb.failure_count +ℤ pos 1) in
    let cb' = record cb { failure_count = failures } in
    if leb_ℤ cb.failure_threshold failures then record cb' { state = open_ } else cb'

record_failure_in : State → CircuitBreaker → CircuitBreaker
unfolding count_failure
record_failure_in half_open cb = record cb {
  active_half_open = i32 (cb.active_half_open +ℤ negsuc 0);
  state = open_;
}
record_failure_in closed cb = count_failure cb
record_failure_in open_ cb = count_failure cb

unfoldable pub record_failure : Time → CircuitBreaker → CircuitBreaker
unfolding record_failure_in
record_failure now cb = record_failure_in cb.state (record cb { last_failure_time = now })

unfoldable pub reset : CircuitBreaker → CircuitBreaker
reset cb = record cb {
  state = closed;
  failure_count = pos 0;
  success_count = pos 0;
  active_half_open = pos 0;
}

-- The calls that a client makes, with the time of each.
pub data Call : Type 0 where
  allows : Time → Call
  succeeds : Call
  fails : Time → Call
  resets : Call

unfoldable pub step : CircuitBreaker → Call → CircuitBreaker
unfolding allow record_success record_failure reset
step cb (allows now) = (allow now cb).0
step cb succeeds = record_success cb
step cb (fails now) = record_failure now cb
step cb resets = reset cb

unfoldable pub run : CircuitBreaker → List Call → CircuitBreaker
run cb [] = cb
run cb (c ∷ cs) = run (step cb c) cs
