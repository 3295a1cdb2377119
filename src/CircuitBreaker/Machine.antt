-- ===== src/CircuitBreaker/Machine.antt =====
-- When the breaker opens, how long it refuses, and how it recovers.
use nova_airouter.Prelude.{
  i32, ℕ, suc, ◌+◌, ◌≤◌, ◌<◌, pos, Time, elapsed_ge, i64-suc, ◌≡◌, true, false, leb, List, [], ◌∷◌,
  length, arith, if◌then◌else◌, ◌==◌,
}
use nova_airouter.CircuitBreaker.{
  CircuitBreaker, closed, open_, half_open, default_timeout, Call, allows, succeeds, fails, resets,
  new, allow, record_success, record_failure, step, run,
}
use nova_airouter.CircuitBreaker.Counters.{Inv, run-new-Inv}

-- The failures in a row after `cs`, if there were `k` before it.
abbrev pub streak : ℕ → List Call → ℕ
streak k [] = k
streak k (allows _ ∷ cs) = streak k cs
streak k (succeeds ∷ cs) = streak 0 cs
streak k (fails _ ∷ cs) = streak (suc k) cs
streak k (resets ∷ cs) = streak 0 cs

-- No five failures stand in a row.
abbrev pub Calm : ℕ → List Call → Type 0
Calm k [] = Unit
Calm k (allows _ ∷ cs) = Calm k cs
Calm k (succeeds ∷ cs) = Calm 0 cs
Calm k (fails _ ∷ cs) = (suc k < 5) × Calm (suc k) cs
Calm k (resets ∷ cs) = Calm 0 cs

record Counts (k : ℕ) (cb : CircuitBreaker) : Type 0 where
  is_closed : cb.state ≡ closed
  limit : cb.failure_threshold ≡ pos 5
  counted : cb.failure_count ≡ pos k

run-Counts :
    (k : ℕ) (cb : CircuitBreaker) (cs : List Call)
    → Calm k cs
    → k < 5
    → Counts k cb
    → Counts (streak k cs) (run cb cs)
unfolding run
run-Counts k cb [] q h v = v
run-Counts k cb (allows t ∷ cs) q h v = run-Counts k _ cs q h (unfold step allow in ground arith)
run-Counts k cb (succeeds ∷ cs) q h v =
    run-Counts 0 _ cs q (omega arith) (unfold step record_success in ground arith)
run-Counts k cb (fails t ∷ cs) q h v =
    run-Counts (suc k) _ cs q.1 (omega arith)
      (unfold step record_failure in ground (arith, i64-suc cb.failure_count))
run-Counts k cb (resets ∷ cs) q h v =
    run-Counts 0 _ cs q (omega arith) (unfold step in ground arith)

new-Counts : (cs : List Call) → Calm 0 cs → Counts (streak 0 cs) (run new cs)
new-Counts cs q = run-Counts 0 new cs q (omega arith) (unfold new in ground arith)

streak-lt : (k : ℕ) (cs : List Call) → Calm k cs → k < 5 → streak k cs < 5
streak-lt k [] q h = h
streak-lt k (allows _ ∷ cs) q h = streak-lt k cs q h
streak-lt k (succeeds ∷ cs) q h = streak-lt 0 cs q (omega arith)
streak-lt k (fails _ ∷ cs) q h = streak-lt (suc k) cs q.1 q.0
streak-lt k (resets ∷ cs) q h = streak-lt 0 cs q (omega arith)

-- A new breaker on which no five failures have come in a row is closed and lets requests through,
-- and one more failure opens it exactly if it is the fifth in a row, and dates the opening.
pub opens_at_fifth_failure :
    (cs : List Call) (now : Time)
    → Calm 0 cs
    → (allow now (run new cs) ≡ (run new cs, true))
      × ((step (run new cs) (fails now)).state ≡ (if streak 0 cs == 4 then open_ else closed))
      × ((step (run new cs) (fails now)).last_failure_time ≡ now)
unfolding allow step record_failure
opens_at_fifth_failure cs now q =
    let v = new-Counts cs q in
    ground (
      arith,
      v.counted,
      v.limit,
      v.is_closed,
      i64-suc (run new cs).failure_count,
      streak-lt 0 cs q (omega arith),
    )

abbrev pub probing : CircuitBreaker → CircuitBreaker
probing cb = record cb { state = half_open; success_count = pos 0; failure_count = pos 0 }

Inv-allow_open :
    (n : ℕ) (cb : CircuitBreaker) (now : Time)
    → Inv n cb
    → cb.state ≡ open_
    → allow now cb ≡ (
        if leb (cb.last_failure_time + default_timeout) now
        then (probing cb, true)
        else (cb, false))
unfolding allow i32
Inv-allow_open n cb now v o =
    ground (arith, elapsed_ge now cb.last_failure_time default_timeout (omega arith) (omega arith))

-- An open breaker, whatever calls led to it, refuses a request without any change until 30
-- seconds after the last failure; from then on it becomes half-open and lets the request through.
pub allow_open :
    (cs : List Call) (now : Time)
    → length cs ≤ 2147483647
    → (run new cs).state ≡ open_
    → let cb = run new cs in
      allow now cb ≡ (
        if leb (cb.last_failure_time + default_timeout) now
        then (probing cb, true)
        else (cb, false))
allow_open cs now h o = Inv-allow_open (length cs) (run new cs) now (run-new-Inv cs h) o

Inv-allow_probing :
    (n : ℕ) (cb : CircuitBreaker) (now : Time)
    → Inv n cb
    → cb.state ≡ half_open
    → allow now cb ≡ (cb, true)
unfolding allow i32
Inv-allow_probing n cb now v o = ground arith

-- The limit of one request in the half-open state is never enforced: after any sequence of fewer
-- than 2^31 calls that leaves the breaker half-open, every further request is let through.
pub probes_unlimited :
    (cs : List Call) (now : Time)
    → length cs ≤ 2147483647
    → (run new cs).state ≡ half_open
    → allow now (run new cs) ≡ (run new cs, true)
probes_unlimited cs now h o = Inv-allow_probing (length cs) (run new cs) now (run-new-Inv cs h) o
