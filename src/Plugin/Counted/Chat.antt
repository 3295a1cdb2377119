-- ===== src/Plugin/Counted/Chat.antt =====
-- The count of a backend through a whole request and through any requests and sweeps.
use nova_airouter.Prelude.{
  ℕ, zero, suc, Time, Bool, not, if◌then◌else◌, Option, none, some, List, [], ◌∷◌, inl, inr, Text,
  text_eq, codes, lookup, ◌≡◌, ◌≢◌, ◌⊎◌, refl, sym, ap, ◌∙◌, Bool-cases, Option-cases,
}
use nova_airouter.Balancer.{Float64}
use nova_airouter.Plugin.{ModelBackend, Plugin, update_session_activity, cleanup_expired_sessions}
use nova_airouter.Plugin.Select.{
  BackendChoice, no_backend, chosen, crashed, Selected, model_not_found, none_healthy, selected,
  select_crashed, select_backend_by_score,
}
use nova_airouter.Plugin.Chat.{
  Response, Reply, ChatRequest, Handled, World, Failover, other_healthy, rebind, fail_over,
  failover_in, try_failover, finished, after_failover, after_answer, done, after_select, chat_in,
  forward_to_master, handle_chat,
}
use nova_airouter.Plugin.Counted.Sessions.{
  Counted, touch-Counted, latency-Counted, flights, start-Counted, finish-Counted,
}
use nova_airouter.Plugin.Counted.Chosen.{select-In, select_backend_by_score-In}
use nova_airouter.Plugin.Counted.Run.{rebind-Counted, select-Counted}

pub first : {a b : Plugin × Failover} → some a ≡ some b → a ≡ b
first e = cc

handled : {a b : Handled} → some a ≡ some b → a ≡ b
handled e = cc

none-some : {a : Handled} → none ≢ some a
none-some e = absurd (cc)

pub BackendChoice-cases :
    (ch : BackendChoice) → (ch ≡ no_backend) ⊎ ((ch ≡ crashed) ⊎ ((p : ℕ) × (ch ≡ chosen p)))
BackendChoice-cases no_backend = inl refl
BackendChoice-cases crashed = inr (inl refl)
BackendChoice-cases (chosen p) = inr (inr (p, refl))

module _ {R : Type 0} (f : Float64 R) (w : World R) (now : Time) where
  fail_over-Counted :
      (fuel m n q : ℕ) (id model : Text) (gone : ℕ) (mb : ModelBackend) (s : Plugin)
      (r : Plugin × Failover)
      → Counted n q s
      → lookup model s.models ≡ some mb
      → fail_over f w fuel m now id gone mb.backends s ≡ some r
      → Counted n q r.0
  unfolding fail_over
  fail_over-Counted zero m n q id model gone mb s r c l e = absurd (cc)
  fail_over-Counted (suc fuel) m n q id model gone mb s r c l e =
      elim (BackendChoice-cases
        (select_backend_by_score f (w.draws m) s.heap (other_healthy gone s.heap mb.backends))) [
          | inl h ↦ rw (← ap (λ x. x.0) (first (rw (fail_over, h) at e))) c
          | inr (inl h) ↦ rw (← ap (λ x. x.0) (first (rw (fail_over, h) at e))) c
          | inr (inr (p, h)) ↦
              let i = (select_backend_by_score-In f (w.draws m) s.heap _ p h).0 in
              let (c', l') =
                rebind-Counted n q now id model mb p s c l (select-In _ p mb.backends i).0 in
              elim (Option-cases (w.answer m (s.heap p))) [
                | inl a ↦
                    fail_over-Counted fuel (suc m) n q id model p mb (rebind now id p s) r c' l'
                      (rw (fail_over, h, a) at e)
                | inr (resp, a) ↦
                    rw (← ap (λ x. x.0) (first (rw (fail_over, h, a) at e)))
                      (latency-Counted n q resp.latency p (rebind now id p s) c')
              ]
        ]

  try_failover-Counted :
      (fuel m n q : ℕ) (id model : Text) (gone : ℕ) (s : Plugin) (r : Plugin × Failover)
      → Counted n q s
      → try_failover f w fuel m now model id gone s ≡ some r
      → Counted n q r.0
  unfolding try_failover failover_in
  try_failover-Counted fuel m n q id model gone s r c e =
      elim (Option-cases (lookup model s.models)) [
        | inl l ↦ rw (← ap (λ x. x.0) (first (rw l at e))) c
        | inr (mb, l) ↦ fail_over-Counted fuel m n q id model gone mb s r c l (rw l at e)
      ]

  touched-Counted :
      (n q : ℕ) (id : Text) (s : Plugin)
      → Counted n q s
      → Counted n q (if text_eq id [] then s else update_session_activity now id s)
  touched-Counted n q id s c = elim (Bool-cases (text_eq id [])) [
    | inl t ↦ rw t c
    | inr t ↦ rw t (touch-Counted n q now id s c)
  ]

  after_answer-Counted :
      (fuel n q : ℕ) (req : ChatRequest) (p : ℕ) (o : Option Response) (s : Plugin) (r : Handled)
      → Counted (flights q p n) q s
      → after_answer f w fuel now req p o s ≡ some r
      → Counted n q r.plugin
  unfolding after_answer after_failover finished
  after_answer-Counted fuel n q req p none s r c e =
      elim (Option-cases (try_failover f w fuel 1 now req.model req.session_id p s)) [
        | inl t ↦ absurd (none-some (rw t at e))
        | inr ((s', o), t) ↦ rw (← ap (λ x. x.plugin) (handled (rw t at e))) (
            finish-Counted n q p s'
              (try_failover-Counted fuel 1 _ q req.session_id req.model p s (s', o) c t))
      ]
  after_answer-Counted fuel n q req p (some resp) s r c e = rw (← ap (λ x. x.plugin) (handled e)) (
      finish-Counted n q p _
        (latency-Counted _ q resp.latency p _ (touched-Counted _ q req.session_id s c)))

  after_select-Counted :
      (fuel n q : ℕ) (req : ChatRequest) (sel : Plugin × Selected) (r : Handled)
      → Counted n q sel.0
      → after_select f w fuel now req sel ≡ some r
      → Counted n q r.plugin
  unfolding after_select done
  after_select-Counted fuel n q req (s, model_not_found) r c e =
      rw (← ap (λ x. x.plugin) (handled e)) c
  after_select-Counted fuel n q req (s, none_healthy) r c e =
      rw (← ap (λ x. x.plugin) (handled e)) c
  after_select-Counted fuel n q req (s, select_crashed) r c e =
      rw (← ap (λ x. x.plugin) (handled e)) c
  after_select-Counted fuel n q req (s, selected p) r c e =
      after_answer-Counted fuel n q req p (w.answer 0 (s.heap p)) _ r (start-Counted n q p s c) e

  done-Counted :
      (n q : ℕ) (s : Plugin) (reply : Reply) (r : Handled)
      → Counted n q s
      → done f w s reply ≡ some r
      → Counted n q r.plugin
  unfolding done
  done-Counted n q s reply r c e = rw (← ap (λ x. x.plugin) (handled e)) c

  branch :
      {b : Bool} (fuel : ℕ) (body : Option ChatRequest) (s : Plugin)
      → s.is_master ≡ b
      → (if not b then done f w s (forward_to_master f w s) else chat_in f w fuel now body s) ≡ (
          if not s.is_master
          then done f w s (forward_to_master f w s)
          else chat_in f w fuel now body s)
  branch fuel body s h =
      ap (λ z. if not z then done f w s (forward_to_master f w s) else chat_in f w fuel now body s)
        (sym h)

  chat_body-Counted :
      (fuel n q : ℕ) (body : Option ChatRequest) (s : Plugin) (r : Handled)
      → Counted n q s
      → chat_in f w fuel now body s ≡ some r
      → Counted n q r.plugin
  unfolding chat_in done
  chat_body-Counted fuel n q none s r c e = rw (← ap (λ x. x.plugin) (handled e)) c
  chat_body-Counted fuel n q (some req) s r c e =
      after_select-Counted fuel n q req _ r
        (select-Counted f n q (w.draws 0) now req.model req.session_id s c) e

  pub handle_chat-Counted :
      (fuel n q : ℕ) (method : Text) (body : Option ChatRequest) (s : Plugin) (r : Handled)
      → Counted n q s
      → handle_chat f w fuel now method body s ≡ some r
      → Counted n q r.plugin
  unfolding handle_chat
  handle_chat-Counted fuel n q method body s r c e =
      elim (Bool-cases (text_eq method (codes "POST"))) [
        | inr t ↦ done-Counted n q s _ r c (rw t at e)
        | inl t ↦ elim (Bool-cases s.is_master) [
          | inr b ↦ done-Counted n q s _ r c (branch fuel body s b ∙ (rw t at e))
          | inl b ↦ chat_body-Counted fuel n q body s r c (branch fuel body s b ∙ (rw t at e))
        ]
      ]

-- What the plugin does of itself and for its callers, one after the other.
pub data Activity (R : Type 0) : Type 0 where
  chats : Time → World R → Text → Option ChatRequest → Activity R
  sweeps : Time → Activity R

abbrev pub plugin_after : Option Handled → Option Plugin
plugin_after none = none
plugin_after (some r) = some r.plugin

abbrev pub from : Option Plugin → (Plugin → Option Plugin) → Option Plugin
from none k = none
from (some s) k = k s

abbrev pub event : {R : Type 0} → Float64 R → ℕ → Plugin → Activity R → Option Plugin
event f fuel s (chats now w method body) = plugin_after (handle_chat f w fuel now method body s)
event f fuel s (sweeps now) = some (cleanup_expired_sessions now s)

abbrev pub events : {R : Type 0} → Float64 R → ℕ → Plugin → List (Activity R) → Option Plugin
events f fuel s [] = some s
events f fuel s (e ∷ es) = from (event f fuel s e) (λ s'. events f fuel s' es)
