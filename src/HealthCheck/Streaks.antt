-- ===== src/HealthCheck/Streaks.antt =====
-- The checker against the history of its calls: what counts of a path is the number of failures
-- since its last success, and the time of the last failure.
use nova_airouter.Prelude.{
  ℕ, suc, ◌+◌, ◌<◌, pos, i64-suc, Time, elapsed_ge, leb, ltb, ◌≡◌, refl, ◌∙◌, true, ◌||◌,
  if◌then◌else◌, List, [], ◌∷◌, arith, Text, text_eq, text_eq_iff, lookup, lookup-insert,
  Bool-cases, inl, inr,
}
use nova_airouter.HealthCheck.{
  failure_threshold, recovery_interval, EndpointHealth, PassiveHealthChecker, new, or_fresh,
  record_success, fail_once, record_failure, is_healthy, should_allow_probe, Call, succeeds, fails,
  step, run,
}

-- A path's history: failures since the last success, and the time of the last failure.
pub record History : Type 0 where
  pub failures : ℕ
  pub last_failure : Time

abbrev pub blank : History
blank = record { failures = 0; last_failure = 0 }

abbrev pub note : Text → Call → History → History
note path (succeeds now p) x = if text_eq p path then record x { failures = 0 } else x
note path (fails now p) x =
    if text_eq p path then record { failures = suc x.failures; last_failure = now } else x

abbrev pub history : Text → History → List Call → History
history path x [] = x
history path x (c ∷ cs) = history path (note path c x) cs

-- The state of a path agrees with its history. The counter wraps after 2^63 failures in a row; by
-- then the path has long been unhealthy, so only its value below the threshold matters.
record Agrees (x : History) (s : EndpointHealth) : Type 0 where
  healthy : s.is_healthy ≡ ltb x.failures failure_threshold
  counter : x.failures < failure_threshold → s.consecutive_failures ≡ pos x.failures
  dated : s.last_failure_time ≡ x.last_failure

fail_once-Agrees :
    (now : Time) (x : History) (s : EndpointHealth)
    → Agrees x s
    → Agrees (record { failures = suc x.failures; last_failure = now }) (fail_once now s)
unfolding fail_once
fail_once-Agrees now x s v = ground (arith, i64-suc s.consecutive_failures)

abbrev Sim : Text → History → PassiveHealthChecker → Type 0
Sim path x h = Agrees x (or_fresh (lookup path h.states))

success-Sim :
    (path p : Text) (now : Time) (x : History) (h : PassiveHealthChecker)
    → Sim path x h
    → Sim path (note path (succeeds now p) x) (record_success now p h)
unfolding record_success
success-Sim path p now x h v = elim (Bool-cases (text_eq p path)) [
  | inl e ↦ ground (
    arith,
    lookup-insert p path
        (record (or_fresh (lookup p h.states)) {
          consecutive_failures = pos 0;
          last_success_time = now;
          is_healthy = true;
        })
        h.states,
    text_eq_iff p path,
    e,
  )
  | inr e ↦ rw (lookup-insert, e) v
]

failure-Sim :
    (path p : Text) (now : Time) (x : History) (h : PassiveHealthChecker)
    → Sim path x h
    → Sim path (note path (fails now p) x) (record_failure now p h)
unfolding record_failure
failure-Sim path p now x h v = elim (Bool-cases (text_eq p path)) [
  | inl e ↦
      let same = (text_eq_iff p path).0 e in
      rw (lookup-insert, e, same) (fail_once-Agrees now x (or_fresh (lookup path h.states)) v)
  | inr e ↦ rw (lookup-insert, e) v
]

step-Sim :
    (path : Text) (x : History) (h : PassiveHealthChecker) (c : Call)
    → Sim path x h
    → Sim path (note path c x) (step h c)
unfolding step
step-Sim path x h (succeeds now p) v = success-Sim path p now x h v
step-Sim path x h (fails now p) v = failure-Sim path p now x h v

run-Sim :
    (path : Text) (x : History) (h : PassiveHealthChecker) (cs : List Call)
    → Sim path x h
    → Sim path (history path x cs) (run h cs)
unfolding run
run-Sim path x h [] v = v
run-Sim path x h (c ∷ cs) v = run-Sim path (note path c x) (step h c) cs (step-Sim path x h c v)

new-Sim : (path : Text) → Sim path blank new
unfolding new lookup
new-Sim path = record { healthy = refl; counter = λ h. refl; dated = refl }

is_healthy_lem :
    (path : Text) (h : PassiveHealthChecker)
    → is_healthy path h ≡ (or_fresh (lookup path h.states)).is_healthy
unfolding is_healthy
is_healthy_lem path h = ground arith

should_allow_probe_lem :
    (now : Time) (path : Text) (h : PassiveHealthChecker)
    → let s = or_fresh (lookup path h.states) in
      should_allow_probe now path h
      ≡ (s.is_healthy || leb (s.last_failure_time + recovery_interval) now)
unfolding should_allow_probe
should_allow_probe_lem now path h = ground (
  arith,
  elapsed_ge now (or_fresh (lookup path h.states)).last_failure_time recovery_interval (omega arith)
      (omega arith),
)

-- Whatever calls came before, a path is healthy exactly if fewer than 3 failures were recorded for
-- it since its last success; calls for other paths do not matter.
pub is_healthy-run :
    (path : Text) (cs : List Call)
    → is_healthy path (run new cs) ≡ ltb (history path blank cs).failures failure_threshold
is_healthy-run path cs =
    is_healthy_lem path (run new cs) ∙ (run-Sim path blank new cs (new-Sim path)).healthy

-- Whatever calls came before, a probe is allowed exactly if fewer than 3 failures were recorded
-- for the path since its last success, or 30 seconds have passed since its last failure.
pub should_allow_probe-run :
    (now : Time) (path : Text) (cs : List Call)
    → should_allow_probe now path (run new cs) ≡ (
        ltb (history path blank cs).failures failure_threshold
        || leb ((history path blank cs).last_failure + recovery_interval) now)
should_allow_probe-run now path cs =
    let v = run-Sim path blank new cs (new-Sim path) in
    should_allow_probe_lem now path (run new cs) ∙ rw (v.healthy, v.dated) refl
