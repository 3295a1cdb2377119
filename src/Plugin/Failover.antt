-- ===== src/Plugin/Failover.antt =====
-- models_plugin/failover.go: `tryFailover` where nothing answers.
use nova_airouter.Prelude.{ℕ, ◌==◌, true, false, List, In, ◌≡◌}
use nova_airouter.Plugin.{Heap, Plugin}

-- Two healthy backends of the model.
pub record HasTwo (p q : ℕ) (ps : List ℕ) (h : Heap) : Type 0 where
  pub apart : (p == q) ≡ false
  pub p_listed : In p ps
  pub q_listed : In q ps
  pub p_healthy : (h p).healthy ≡ true
  pub q_healthy : (h q).healthy ≡ true
