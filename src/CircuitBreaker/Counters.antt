-- ===== src/CircuitBreaker/Counters.antt =====
-- What the breaker's counters hold after any calls.
use native.Mathlib.Nat.{add-zero, add-suc, suc-add, zero-add}
use nova_airouter.Prelude.{
  List, [], ◌∷◌, length, ◌+◌, ℕ, suc, ◌≤◌, ◌<◌, pos, pos_part, neg_part, i64-suc, i32-pred, Time,
  ◌≡◌, arith,
}
use nova_airouter.CircuitBreaker.{
  CircuitBreaker, closed, half_open, default_timeout, Call, allows, succeeds, fails, resets, new,
  allow, record_success, record_failure, step, run,
}

-- What holds after `n` calls: the thresholds are the defaults, the counters are in range, a closed
-- breaker is below its failure threshold, a probing one below its success threshold, and the
-- number of probes in flight is at most 0.
pub record Inv (n : ℕ) (cb : CircuitBreaker) : Type 0 where
  pub failure_limit : cb.failure_threshold ≡ pos 5
  pub success_limit : cb.success_threshold ≡ pos 2
  pub probe_limit : cb.half_open_max_reqs ≡ pos 1
  pub cooldown : cb.timeout ≡ pos default_timeout
  pub failures_pos : neg_part cb.failure_count ≡ 0
  pub failures_le : pos_part cb.failure_count ≤ n
  pub successes_pos : neg_part cb.success_count ≡ 0
  pub successes_le : pos_part cb.success_count ≤ n
  pub closed_below : cb.state ≡ closed → pos_part cb.failure_count < 5
  pub probing_below : cb.state ≡ half_open → pos_part cb.success_count < 2
  pub probes_nonpos : pos_part cb.active_half_open ≡ 0
  pub probes_ge : neg_part cb.active_half_open ≤ n

new-Inv : Inv 0 new
unfolding new
new-Inv = ground arith

allow-Inv : (n : ℕ) (now : Time) (cb : CircuitBreaker) → Inv n cb → Inv (suc n) (allow now cb).0
unfolding allow
allow-Inv n now cb v = ground arith

success-Inv :
    (n : ℕ) (cb : CircuitBreaker) → n < 2147483647 → Inv n cb → Inv (suc n) (record_success cb)
unfolding record_success
success-Inv n cb h v = ground (arith, i64-suc cb.success_count, i32-pred cb.active_half_open)

failure-Inv :
    (n : ℕ) (now : Time) (cb : CircuitBreaker)
    → n < 2147483647
    → Inv n cb
    → Inv (suc n) (record_failure now cb)
unfolding record_failure
failure-Inv n now cb h v = ground (arith, i64-suc cb.failure_count, i32-pred cb.active_half_open)

step-Inv :
    (n : ℕ) (cb : CircuitBreaker) (c : Call) → n < 2147483647 → Inv n cb → Inv (suc n) (step cb c)
unfolding step
step-Inv n cb (allows now) h v = ground (arith, allow-Inv n now cb v)
step-Inv n cb succeeds h v = success-Inv n cb h v
step-Inv n cb (fails now) h v = failure-Inv n now cb h v
step-Inv n cb resets h v = ground arith

run-Inv :
    (n : ℕ) (cb : CircuitBreaker) (cs : List Call)
    → n + length cs ≤ 2147483647
    → Inv n cb
    → Inv (n + length cs) (run cb cs)
unfolding run
run-Inv n cb [] h v = rw add-zero v
run-Inv n cb (c ∷ cs) h v =
    rw (add-suc, ← suc-add)
      (run-Inv (suc n) (step cb c) cs (omega arith) (step-Inv n cb c (omega arith) v))

-- After any sequence of fewer than 2^31 calls on a new breaker the counters are in range: a closed
-- breaker has counted fewer than 5 failures, a half-open one fewer than 2 successes, and the
-- number of half-open probes in flight is at most 0.
pub run-new-Inv : (cs : List Call) → length cs ≤ 2147483647 → Inv (length cs) (run new cs)
run-new-Inv cs h = rw zero-add at (run-Inv 0 new cs (omega arith) new-Inv)
