-- ===== src/Plugin/Counted/Returns.antt =====
-- Requests that come to their end.
use nova_airouter.Prelude.{true, is_some, List, [], ◌∷◌, ◌≡◌}
use nova_airouter.Plugin.{Backend, Plugin}
use nova_airouter.Plugin.Chat.{World}
use nova_airouter.Plugin.Counted.Chat.{Activity, chats, sweeps}

-- Every backend answers the first post of a request.
abbrev pub IsUp : {R : Type 0} → World R → Type 0
IsUp w = (b : Backend) → is_some (w.answer 0 b) ≡ true

abbrev pub AreUp : {R : Type 0} → List (Activity R) → Type 0
AreUp [] = Unit
AreUp (chats now w method body ∷ es) = IsUp w × AreUp es
AreUp (sweeps now ∷ es) = AreUp es
