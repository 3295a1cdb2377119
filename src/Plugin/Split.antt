-- ===== src/Plugin/Split.antt =====
-- models_plugin/election.go: what an election comes to.
use nova_airouter.Prelude.{
  ℕ, suc, ◌≤◌, ◌<◌, Time, ℤ, pos, pos_part, neg_part, if◌then◌else◌, List, [], ◌∷◌, length, Text,
  text_eq, lookup, insert, ◌≡◌, refl, arith,
}
use nova_airouter.Plugin.{Plugin}
use nova_airouter.Plugin.Chat.{SessionSync}
use nova_airouter.Plugin.Election.{
  Message, as_received, Sent, session_sync, handle_session_sync, handle_message, unix,
}

-- A plugin that has had an election is left as it was.
IsSettled : Plugin → Type 0
IsSettled s = (neg_part s.term ≡ 0) × (0 < pos_part s.term)

abbrev pub Keeps : Plugin → Plugin → Type 0
Keeps s t = (t.is_master ≡ s.is_master) × (t.term ≡ s.term)

record Stays (s : Plugin) (x : Plugin × List Sent) : Type 0 where
  keeps : Keeps s x.0

-- The messages that arrive, with their instants.
abbrev pub deliver : List (Time × Message) → Plugin → Plugin
deliver [] s = s
deliver ((now, m) ∷ ms) s = deliver ms (handle_message now (as_received m) s).0

-- The peers other than the plugin itself.
abbrev pub others_of : Text → List Text → ℕ
others_of self [] = 0
others_of self (peer ∷ peers) =
    if text_eq peer self then others_of self peers else suc (others_of self peers)

others_le : (self : Text) (peers : List Text) → others_of self peers ≤ length peers
others_le self [] = omega arith
others_le self (p ∷ ps) = ground (arith, others_le self ps)

-- A session that a master sends to the others_of arrives with its id and its address, but with port 0
-- and as last active in 1970, whenever and with whatever port it was sent.
pub session_received :
    (now : Time) (unix_now : ℤ) (x : SessionSync) (s : Plugin)
    → (handle_message now (as_received (session_sync unix_now x)) s).0.sessions
      ≡ insert x.session_id
          (record {
            session_id = x.session_id;
            backend_addr = x.backend_addr;
            backend_port = pos 0;
            last_activity = unix (pos 0);
          })
          s.sessions
unfolding handle_message handle_session_sync as_received lookup text_eq
session_received now unix_now x s = refl
