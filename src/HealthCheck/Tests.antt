-- ===== src/HealthCheck/Tests.antt =====
-- Runs of the health checker.
use nova_airouter.Prelude.{
  Text, codes, List, [], ◌∷◌, ◌≡◌, refl, true, false, second, i64, ◌+ℤ◌, text_eq, lookup, insert,
}
use nova_airouter.HealthCheck.{
  Call, succeeds, fails, new, run, step, record_failure, record_success, fail_once, is_healthy,
  should_allow_probe,
}
use nova_airouter.HealthCheck.Streaks.{should_allow_probe-run}

abbrev chat : Text
chat = codes "/v1/chat"

abbrev models : Text
models = codes "/v1/models"

abbrev calls : List Call
calls =
    fails 1 chat
    ∷ fails 2 models
    ∷ succeeds 3 chat
    ∷ fails 4 chat
    ∷ fails 5 chat
    ∷ fails 6 chat
    ∷ []

should_allow_probe-run_example : should_allow_probe second chat (run new calls) ≡ false
unfolding text_eq
should_allow_probe-run_example = should_allow_probe-run second chat calls

models_stay_healthy : is_healthy models (run new calls) ≡ true
unfolding is_healthy run new step record_failure record_success fail_once i64 ◌+ℤ◌ text_eq lookup
    insert
models_stay_healthy = refl
