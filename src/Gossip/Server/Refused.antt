-- ===== src/Gossip/Server/Refused.antt =====
-- A refused request does nothing.
use nova_airouter.Prelude.{ℕ, ◌==◌, ◌≡◌, Bool, true, not, List, [], ◌∷◌, Text, codes, ◌⊎◌}
use nova_airouter.Gossip.Sync.{Sync}
use nova_airouter.Gossip.Server.{Reply, refused, Served, refuse}

abbrev pub status : Reply → ℕ
status (refused code) = code
status _ = 200

-- The paths behind authorization.
abbrev pub gossip_paths : List Text
gossip_paths =
    codes "/v1/gossip/join"
    ∷ codes "/v1/gossip/sync"
    ∷ codes "/v1/gossip/peer"
    ∷ codes "/v1/gossip/state"
    ∷ codes "/v1/gossip/nodes"
    ∷ codes "/v1/gossip/config"
    ∷ []

-- Nothing is done where the status is an error, and the status is 401 exactly without authorization.
record Guarded (authorized : Bool) (s : Sync) (v : Served) : Type 0 where
  idle : (status v.reply == 200 ≡ true) ⊎ ((v.sync ≡ s) × (v.posts ≡ []))
  denied : (status v.reply == 401) ≡ not authorized

abbrev bad_method : Sync → Served
bad_method s = refuse 405 s
