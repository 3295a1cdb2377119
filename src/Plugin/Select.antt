-- ===== src/Plugin/Select.antt =====
-- models_plugin/backend.go: the choice of a backend for a model and a session. Its
-- `weightedRandomIndex` is the same function as the balancer's.
use nova_airouter.Prelude.{
  ℕ, suc, Time, ℤ, pos, ◌+ℤ◌, ltb_ℤ, if◌then◌else◌, Option, none, some, List, [], ◌∷◌, map, select,
  get_elem?, Text, text_eq, lookup,
}
use nova_airouter.Balancer.{Float64, Draws, default_max_concurrent, limit, weighted_random_index}
use nova_airouter.Plugin.{
  Backend, Heap, ModelBackend, SessionInfo, Plugin, session_timeout_of, is_at, bind_session,
  unbind_session,
}

pub data BackendChoice : Type 0 where
  no_backend : BackendChoice
  chosen : ℕ → BackendChoice
  crashed : BackendChoice

pub data Selected : Type 0 where
  model_not_found : Selected
  none_healthy : Selected
  selected : ℕ → Selected
  select_crashed : Selected

backend_weight : Heap → ℕ → ℤ
backend_weight h p =
    let max = (h p).max_concurrent in if ltb_ℤ max (pos 1) then default_max_concurrent else max

unfoldable pub choice_at : Option ℕ → BackendChoice
choice_at none = crashed
choice_at (some p) = chosen p

unfoldable pub candidate_at : Option ℕ → List ℕ → BackendChoice
unfolding choice_at
candidate_at none ps = crashed
candidate_at (some i) ps = choice_at (get_elem? ps i)

unfoldable pub pick_backend : (ℕ → ℕ) → Heap → List ℕ → BackendChoice
unfolding candidate_at backend_weight
pick_backend below h [] = candidate_at (weighted_random_index below []) []
pick_backend below h (p ∷ []) = chosen p
pick_backend below h (p ∷ q ∷ rest) =
    candidate_at (weighted_random_index below (map (backend_weight h) (p ∷ q ∷ rest)))
      (p ∷ q ∷ rest)

module _ {R : Type 0} (f : Float64 R) where
  latency_factor : Backend → R
  latency_factor b =
      let factor = f.div (f.of_int b.avg_latency) (f.literal 100 0) in
      if ltb_ℤ (pos 0) b.avg_latency
      then (if f.lt (f.literal 1 0) factor then f.literal 1 0 else factor)
      else f.literal 0 0

  conn_ratio : Backend → R
  conn_ratio b =
      let max = f.of_int b.max_concurrent in
      f.div (f.of_int b.active_conn)
        (if f.lt max (f.literal 1 0) then f.of_int default_max_concurrent else max)

  unfoldable pub backend_score : R → Backend → R
  unfolding latency_factor conn_ratio
  backend_score u b =
      f.mul
        (f.add (f.mul (conn_ratio b) (f.literal 6 1)) (f.mul (latency_factor b) (f.literal 4 1)))
        (f.add (f.literal 1 0) (f.sub (f.mul u (f.literal 1 1)) (f.literal 5 2)))

  -- The scores of the backends, of which `n` are done.
  unfoldable pub score_backends : (ℕ → R) → Heap → ℕ → List ℕ → List (ℕ × R)
  score_backends float h n [] = []
  score_backends float h n (p ∷ ps) =
      (p, backend_score (float n) (h p)) ∷ score_backends float h (suc n) ps

  unfoldable pub best_backend_score : R → List (ℕ × R) → R
  best_backend_score best [] = best
  best_backend_score best ((_, s) ∷ rest) =
      best_backend_score (if f.lt s best then s else best) rest

  unfoldable pub within_limit : R → List (ℕ × R) → List ℕ
  within_limit best [] = []
  within_limit best ((p, s) ∷ rest) =
      let others_of = within_limit best rest in
      if f.le s (limit f best) then p ∷ others_of else others_of

  unfoldable pub backend_candidates : List (ℕ × R) → List ℕ
  unfolding within_limit
  backend_candidates [] = []
  backend_candidates ((p, s) ∷ rest) = within_limit (best_backend_score s rest) ((p, s) ∷ rest)

  unfoldable pub choose_healthy : Draws R → Heap → List ℕ → BackendChoice
  choose_healthy d h [] = no_backend
  choose_healthy d h (p ∷ []) = chosen p
  choose_healthy d h (p ∷ q ∷ rest) =
      pick_backend d.below h (backend_candidates (score_backends d.float h 0 (p ∷ q ∷ rest)))

  unfoldable pub select_backend_by_score : Draws R → Heap → List ℕ → BackendChoice
  select_backend_by_score d h ps = choose_healthy d h (select (λ p. (h p).healthy) ps)

  unfoldable pub find_backend : Text → ℤ → Heap → List ℕ → Option ℕ
  find_backend addr port h [] = none
  find_backend addr port h (p ∷ ps) =
      let rest = find_backend addr port h ps in if is_at addr port (h p) then some p else rest

  -- The backend that a session keeps, if it is there and healthy.
  unfoldable pub still_healthy : Heap → Option ℕ → Option ℕ
  still_healthy h none = none
  still_healthy h (some p) = if (h p).healthy then some p else none

  unfoldable pub kept_backend : Time → List ℕ → Option SessionInfo → Plugin → Option ℕ
  unfolding still_healthy
  kept_backend now ps none s = none
  kept_backend now ps (some session) s =
      if ltb_ℤ (pos now) (pos session.last_activity +ℤ session_timeout_of s.config)
      then still_healthy s.heap (find_backend session.backend_addr session.backend_port s.heap ps)
      else none

  unfoldable pub fresh_in : Time → Text → BackendChoice → Plugin → Plugin × Selected
  fresh_in now session_id no_backend s = (s, none_healthy)
  fresh_in now session_id crashed s = (s, select_crashed)
  fresh_in now session_id (chosen p) s =
      (if text_eq session_id [] then s else bind_session now session_id p s, selected p)

  unfoldable pub session_of : Text → Plugin → Option SessionInfo
  session_of session_id s = if text_eq session_id [] then none else lookup session_id s.sessions

  unfoldable pub unbound_in : Text → Option SessionInfo → Plugin → Plugin
  unbound_in session_id none s = s
  unbound_in session_id (some session) s = unbind_session session_id s

  -- No session keeps a backend: a bound one is unbound first.
  unfoldable pub select_fresh : Draws R → Time → Text → List ℕ → Plugin → Plugin × Selected
  unfolding fresh_in session_of unbound_in
  select_fresh d now session_id ps s =
      let s' = unbound_in session_id (session_of session_id s) s in
      fresh_in now session_id (select_backend_by_score d s'.heap ps) s'

  unfoldable pub select_kept :
      Draws R → Time → Text → List ℕ → Option ℕ → Plugin → Plugin × Selected
  select_kept d now session_id ps none s = select_fresh d now session_id ps s
  select_kept d now session_id ps (some p) s = (s, selected p)

  unfoldable pub select_in :
      Draws R → Time → Text → Option ModelBackend → Plugin → Plugin × Selected
  unfolding select_kept
  select_in d now session_id none s = (s, model_not_found)
  select_in d now session_id (some mb) s =
      select_kept d now session_id mb.backends
        (kept_backend now mb.backends (session_of session_id s) s) s

  unfoldable pub select_backend : Draws R → Time → Text → Text → Plugin → Plugin × Selected
  unfolding select_in
  select_backend d now model session_id s = select_in d now session_id (lookup model s.models) s
