-- ===== src/Plugin/Chat.antt =====
-- models_plugin/{router,failover}.go: a request to a model. The n-th post to a backend answers what
-- `answer n` says, none for an error; the n-th choice draws from `draws n`. The URL of a backend is
-- taken from its address. `try_failover` calls itself again and again: it runs on fuel, and none
-- is a run that has not come to its end.
use nova_airouter.Prelude.{
  ℕ, zero, suc, ◌==◌, Time, ℤ, pos, negsuc, not, ◌&&◌, ◌||◌, if◌then◌else◌, Option, none, some,
  List, [], ◌∷◌, select, Text, text_eq, codes, lookup,
}
use nova_airouter.Balancer.{Float64, Draws}
use nova_airouter.Plugin.{
  Backend, ModelBackend, Plugin, Heap, add_conn, bind_session, unbind_session,
  update_session_activity, update_backend_latency,
}
use nova_airouter.Plugin.Select.{
  no_backend, chosen, crashed, Selected, model_not_found, none_healthy, selected, select_crashed,
  select_backend_by_score, select_backend,
}

pub record Response : Type 0 where
  pub latency : ℤ  -- what `Sscanf` reads of the header X-Latency, 0 without one
  pub body : Text

pub data Reply : Type 0 where
  refused : ℕ → Reply  -- an error status
  answered : Text → Reply
  panicked : Reply

-- A session that the master tells the others_of of.
pub record SessionSync : Type 0 where
  pub session_id : Text
  pub backend_addr : Text
  pub backend_port : ℤ

pub record ChatRequest : Type 0 where
  pub model : Text
  pub session_id : Text

pub record Handled : Type 0 where
  pub plugin : Plugin
  pub reply : Reply
  pub syncs : List SessionSync

pub record World (R : Type 0) : Type 0 where
  pub draws : ℕ → Draws R
  pub answer : ℕ → Backend → Option Response
  pub master_answer : Text → Option Text  -- of the master at an address

abbrev pub other_healthy : ℕ → Heap → List ℕ → List ℕ
other_healthy failed h ps = select (λ p. not (p == failed) && (h p).healthy) ps

abbrev pub with_heap : (Heap → Heap) → Plugin → Plugin
with_heap f s = record s { heap = f s.heap }

-- What the failover answers: none if it gives up.
pub data Failover : Type 0 where
  gave_up : Failover
  took_over : Text → Failover
  failover_crashed : Failover

abbrev pub rebind : Time → Text → ℕ → Plugin → Plugin
rebind now session_id p s =
    if text_eq session_id [] then s else bind_session now session_id p (unbind_session session_id s)

module _ {R : Type 0} (f : Float64 R) (w : World R) where
  -- `tryFailover` over the backends of a model.
  unfoldable pub fail_over : ℕ → ℕ → Time → Text → ℕ → List ℕ → Plugin → Option (Plugin × Failover)
  fail_over zero n now session_id failed ps s = none
  fail_over (suc fuel) n now session_id failed ps s =
      elim (select_backend_by_score f (w.draws n) s.heap (other_healthy failed s.heap ps)) [
        | no_backend ↦ some (s, gave_up)
        | crashed ↦ some (s, failover_crashed)
        | chosen p ↦
            let s' = rebind now session_id p s in
            elim (w.answer n (s.heap p)) [
              | none ↦ fail_over fuel (suc n) now session_id p ps s'
              | some r ↦ some (with_heap (update_backend_latency r.latency p) s', took_over r.body)
            ]
      ]

  unfoldable pub failover_in :
      ℕ → ℕ → Time → Text → ℕ → Option ModelBackend → Plugin → Option (Plugin × Failover)
  failover_in fuel n now session_id failed none s = some (s, gave_up)
  failover_in fuel n now session_id failed (some mb) s =
      fail_over fuel n now session_id failed mb.backends s

  unfoldable pub try_failover : ℕ → ℕ → Time → Text → Text → ℕ → Plugin → Option (Plugin × Failover)
  try_failover fuel n now model session_id failed s =
      failover_in fuel n now session_id failed (lookup model s.models) s

  reply_of : Failover → Reply
  reply_of gave_up = refused 502
  reply_of (took_over body) = answered body
  reply_of failover_crashed = panicked

  -- The deferred decrement runs last, on the backend that was chosen first.
  unfoldable pub finished : ℕ → Reply → List SessionSync → Plugin → Handled
  finished p reply syncs s = record {
    plugin = with_heap (add_conn (negsuc 0) p) s;
    reply = reply;
    syncs = syncs;
  }

  unfoldable pub after_failover : ℕ → Option (Plugin × Failover) → Option Handled
  unfolding reply_of
  after_failover p none = none
  after_failover p (some (s, o)) = some (finished p (reply_of o) [] s)

  sync_of : Text → Backend → List SessionSync
  sync_of session_id b =
      record { session_id = session_id; backend_addr = b.address; backend_port = b.port } ∷ []

  -- The rest of the request, when the backend `p` has answered.
  unfoldable pub after_answer :
      ℕ → Time → ChatRequest → ℕ → Option Response → Plugin → Option Handled
  unfolding sync_of
  after_answer fuel now req p none s =
      after_failover p (try_failover fuel 1 now req.model req.session_id p s)
  after_answer fuel now req p (some r) s =
      let s' =
        if text_eq req.session_id [] then s else update_session_activity now req.session_id s in
      some (
        finished p (answered r.body)
          (if text_eq req.session_id [] || not s.is_master
            then []
            else sync_of req.session_id (s.heap p))
          (with_heap (update_backend_latency r.latency p) s'))

  unfoldable pub done : Plugin → Reply → Option Handled
  done s reply = some (record { plugin = s; reply = reply; syncs = [] })

  unfoldable pub after_select : ℕ → Time → ChatRequest → Plugin × Selected → Option Handled
  after_select fuel now req (s, model_not_found) = done s (refused 503)
  after_select fuel now req (s, none_healthy) = done s (refused 503)
  after_select fuel now req (s, select_crashed) = done s panicked
  after_select fuel now req (s, selected p) =
      after_answer fuel now req p (w.answer 0 (s.heap p)) (with_heap (add_conn (pos 1) p) s)

  master_reply : Option Text → Reply
  master_reply none = refused 502
  master_reply (some body) = answered body

  unfoldable pub forward_to_master : Plugin → Reply
  unfolding master_reply
  forward_to_master s =
      if text_eq s.master_id [] || text_eq s.master_addr []
      then refused 503
      else master_reply (w.master_answer s.master_addr)

  unfoldable pub chat_in : ℕ → Time → Option ChatRequest → Plugin → Option Handled
  chat_in fuel now none s = done s (refused 400)
  chat_in fuel now (some req) s =
      after_select fuel now req (select_backend f (w.draws 0) now req.model req.session_id s)

  -- The body is none where it cannot be read or parsed.
  unfoldable pub handle_chat : ℕ → Time → Text → Option ChatRequest → Plugin → Option Handled
  handle_chat fuel now method body s =
      if not (text_eq method (codes "POST"))
      then done s (refused 405)
      else if not s.is_master
      then done s (forward_to_master s)
      else chat_in fuel now body s
