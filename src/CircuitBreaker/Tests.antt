-- ===== src/CircuitBreaker/Tests.antt =====
-- Runs of the circuit breaker.
use nova_airouter.Prelude.{
  ◌+◌, ◌*◌, true, false, ◌≡◌, refl, List, [], ◌∷◌, leb, if◌then◌else◌, second, Time, elapsed, i32,
  i64, ◌+ℤ◌, arith,
}
use nova_airouter.CircuitBreaker.{
  open_, half_open, Call, allows, fails, new, allow, step, run, default_timeout,
}
use nova_airouter.CircuitBreaker.Machine.{
  opens_at_fifth_failure, allow_open, probes_unlimited, probing,
}

abbrev four_failures : List Call
four_failures = fails 1 ∷ fails 2 ∷ fails 3 ∷ fails 4 ∷ []

abbrev five_failures : List Call
five_failures = fails 1 ∷ fails 2 ∷ fails 3 ∷ fails 4 ∷ fails 5 ∷ []

abbrev late : Time
late = 40 * second

abbrev probing_twice : List Call
probing_twice = fails 1 ∷ fails 2 ∷ fails 3 ∷ fails 4 ∷ fails 5 ∷ allows late ∷ allows late ∷ []

opens_at_fifth_failure_example :
    (allow 9 (run new four_failures) ≡ (run new four_failures, true))
    × ((step (run new four_failures) (fails 9)).state ≡ open_)
    × ((step (run new four_failures) (fails 9)).last_failure_time ≡ 9)
opens_at_fifth_failure_example = opens_at_fifth_failure four_failures 9 (omega arith)

open_after_five : (run new five_failures).state ≡ open_
unfolding run step new i32 i64 ◌+ℤ◌ elapsed
open_after_five = refl

half_open_after_probe : (run new probing_twice).state ≡ half_open
unfolding run step new i32 i64 ◌+ℤ◌ elapsed
half_open_after_probe = refl

allow_open_example :
    let cb = run new five_failures in
    allow late cb ≡ (
      if leb (cb.last_failure_time + default_timeout) late then (probing cb, true) else (cb, false))
allow_open_example = allow_open five_failures late (omega arith) open_after_five

probes_unlimited_example : allow late (run new probing_twice) ≡ (run new probing_twice, true)
probes_unlimited_example = probes_unlimited probing_twice late (omega arith) half_open_after_probe
