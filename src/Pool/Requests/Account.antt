-- ===== src/Pool/Requests/Account.antt =====
-- The two counters agree with what the clients and the workers are doing.
use native.Mathlib.Nat.{add-zero, add-suc, suc-add}
use nova_airouter.Prelude.{
  ℕ, suc, ◌+◌, ◌-◌, ◌≤◌, ◌<◌, ℤ, pos, negsuc, pos_part, ◌+ℤ◌, i32, i32_id, ◌≡◌, refl, ap, Bool,
  true, Option, some, List, [], ◌∷◌, length, length-append, get_elem?, set, length-set, total,
  total-set, total-replicate, total_le, length-replicate, arith,
}
use nova_airouter.Pool.Requests.{
  Phase, idle, taken, counted, serving, stopped, RequestPool, at_least_one, new_request_pool, Event,
  arrive, offer, back_off, take, count, uncount, finish, stop, shut_down, step, next, run, offer_in,
  back_off_in, take_in, count_in, uncount_in, finish_in, stop_in, get_metrics,
}

-- A worker's request still counts as waiting.
abbrev pub waits : Phase → ℕ
waits (taken _) = 1
waits (counted _) = 1
waits _ = 0

-- A worker's request counts as active.
abbrev pub acts : Phase → ℕ
acts (counted _) = 1
acts (serving _) = 1
acts _ = 0

abbrev pub waiters : RequestPool → ℕ
waiters p = length p.entering + length p.refused + length p.queue + total waits p.workers

pub record Inv (n size cap : ℕ) (p : RequestPool) : Type 0 where
  pub waiting_exact : p.waiting_count ≡ pos (waiters p)
  pub waiting_le : waiters p ≤ n
  pub active_exact : p.active_count ≡ pos (total acts p.workers)
  pub size_exact : length p.workers ≡ size
  pub capacity_kept : p.queue_capacity ≡ cap
  pub queue_le : length p.queue ≤ cap

acts_le : (x : Phase) → acts x ≤ 1
acts_le idle = omega arith
acts_le _ = omega arith

i32-inc : (k : ℕ) → k < 2147483647 → i32 (pos k +ℤ pos 1) ≡ pos (suc k)
unfolding i32 ◌+ℤ◌
i32-inc k h = ground arith

i32-dec : (k : ℕ) → k < 2147483647 → i32 (pos (suc k) +ℤ negsuc 0) ≡ pos k
unfolding i32 ◌+ℤ◌
i32-dec k h = ground arith

module _ (n size cap : ℕ) (p : RequestPool) (small : n < 2147483647) (fits : size < 2147483647)
    (v : Inv n size cap p) where
  arrive-Inv : (r : ℕ) → Inv (suc n) size cap (next (step p (arrive r)) p)
  unfolding step
  arrive-Inv r = ground (arith, i32-inc (waiters p), length-append p.entering (r ∷ []))

  offer-Inv : (es : List ℕ) → p.entering ≡ es → Inv (suc n) size cap (next (offer_in es p) p)
  unfolding offer_in
  offer-Inv [] e = ground arith
  offer-Inv (r ∷ rest) e = ground (arith, ap length e, length-append p.queue (r ∷ []))

  back_off-Inv : (es : List ℕ) → p.refused ≡ es → Inv (suc n) size cap (next (back_off_in es p) p)
  unfolding back_off_in
  back_off-Inv [] e = ground arith
  back_off-Inv (r ∷ rest) e = ground (
    arith,
    ap length e,
    i32-dec (length p.entering + length rest + length p.queue + total waits p.workers),
  )

  -- What a worker's step from phase `x` to `y` does to the sums.
  abbrev Swapped : ℕ → Phase → Phase → Type 0
  Swapped i x y =
      (total waits (set p.workers i y) + waits x ≡ total waits p.workers + waits y)
      × (total acts (set p.workers i y) + acts x ≡ total acts p.workers + acts y)
      × (length (set p.workers i y) ≡ length p.workers)

  swapped : (i : ℕ) (x y : Phase) → get_elem? p.workers i ≡ some x → Swapped i x y
  swapped i x y e = (
    total-set waits p.workers i y x e,
    total-set acts p.workers i y x e,
    length-set p.workers i y,
  )

  acts_small : total acts p.workers ≤ size
  acts_small = omega (arith, total_le acts p.workers acts_le, v.size_exact)

  take-Inv :
      (i : ℕ) (x : Option Phase) (rs : List ℕ)
      → get_elem? p.workers i ≡ x
      → p.queue ≡ rs
      → Inv (suc n) size cap (next (take_in x rs i p) p)
  unfolding take_in
  take-Inv i (some idle) (r ∷ rest) e q = ground (arith, ap length q, swapped i idle (taken r) e)
  take-Inv i _ _ e q = ground arith

  count-Inv :
      (i : ℕ) (x : Option Phase)
      → get_elem? p.workers i ≡ x
      → Inv (suc n) size cap (next (count_in x i p) p)
  unfolding count_in
  count-Inv i (some (taken r)) e =
      ground (arith, swapped i (taken r) (counted r) e, i32-inc (total acts p.workers), acts_small)
  count-Inv i _ e = ground arith

  uncount-Inv :
      (i : ℕ) (x : Option Phase)
      → get_elem? p.workers i ≡ x
      → Inv (suc n) size cap (next (uncount_in x i p) p)
  unfolding uncount_in
  uncount-Inv i (some (counted r)) e =
      ground (arith, swapped i (counted r) (serving r) e, i32-dec (waiters p - 1))
  uncount-Inv i _ e = ground arith

  finish-Inv :
      (i : ℕ) (x : Option Phase)
      → get_elem? p.workers i ≡ x
      → Inv (suc n) size cap (next (finish_in x i p) p)
  unfolding finish_in
  finish-Inv i (some (serving r)) e =
      ground (arith, swapped i (serving r) idle e, i32-dec (total acts p.workers - 1), acts_small)
  finish-Inv i _ e = ground arith

  stop-Inv :
      (i : ℕ) (x : Option Phase) (b : Bool)
      → get_elem? p.workers i ≡ x
      → Inv (suc n) size cap (next (stop_in x b i p) p)
  unfolding stop_in
  stop-Inv i (some idle) true e = ground (arith, swapped i idle stopped e)
  stop-Inv i _ _ e = ground arith

  step-Inv : (e : Event) → Inv (suc n) size cap (next (step p e) p)
  unfolding step
  step-Inv (arrive r) = arrive-Inv r
  step-Inv offer = offer-Inv p.entering refl
  step-Inv back_off = back_off-Inv p.refused refl
  step-Inv (take i) = take-Inv i _ p.queue refl refl
  step-Inv (count i) = count-Inv i _ refl
  step-Inv (uncount i) = uncount-Inv i _ refl
  step-Inv (finish i) = finish-Inv i _ refl
  step-Inv (stop i) = stop-Inv i _ p.is_closed refl
  step-Inv shut_down = ground arith

run-Inv :
    (n size cap : ℕ) (p : RequestPool) (es : List Event)
    → n + length es ≤ 2147483647
    → size < 2147483647
    → Inv n size cap p
    → Inv (n + length es) size cap (run p es)
unfolding run
run-Inv n size cap p [] h fits v = rw add-zero v
run-Inv n size cap p (e ∷ es) h fits v =
    rw (add-suc, ← suc-add)
      (run-Inv (suc n) size cap (next (step p e) p) es (omega arith) fits
        (step-Inv n size cap p (omega arith) fits v e))

new-Inv :
    (max_concur : ℤ) (capacity : ℕ)
    → Inv 0 (pos_part (at_least_one max_concur)) capacity (new_request_pool max_concur capacity)
unfolding new_request_pool
new-Inv max_concur capacity =
    let k = pos_part (at_least_one max_concur) in
    ground (
      arith,
      total-replicate waits k idle refl,
      total-replicate acts k idle refl,
      length-replicate k idle,
    )

-- In every interleaving of fewer than 2^31 events of clients, workers and a shutdown, the metrics
-- of a new pool are right. `Active` is the number of workers that have counted a request and not
-- finished it, and at most the number of workers, which stays at the configured one (at least 1).
-- `Waiting` is the number of requests whose client is entering or being turned away, that stand in
-- the queue, or that a worker has received and not yet uncounted. `QueueLen` is within the capacity.
pub get_metrics-run :
    (max_concur : ℤ) (capacity : ℕ) (es : List Event)
    → pos_part max_concur < 2147483647
    → capacity < 2147483648
    → length es ≤ 2147483647
    → let p = run (new_request_pool max_concur capacity) es in
      ((get_metrics p).active ≡ pos (total acts p.workers))
      × (total acts p.workers ≤ pos_part (at_least_one max_concur))
      × (length p.workers ≡ pos_part (at_least_one max_concur))
      × ((get_metrics p).waiting ≡ pos (waiters p))
      × ((get_metrics p).queue_len ≡ pos (length p.queue))
      × (length p.queue ≤ capacity)
unfolding get_metrics
get_metrics-run max_concur capacity es m c h =
    let size = pos_part (at_least_one max_concur) in
    let p = run (new_request_pool max_concur capacity) es in
    let v =
      run-Inv 0 size capacity (new_request_pool max_concur capacity) es (omega arith) (ground arith)
        (new-Inv max_concur capacity) in
    (
      v.active_exact,
      omega (arith, total_le acts p.workers acts_le, v.size_exact),
      v.size_exact,
      v.waiting_exact,
      i32_id (pos (length p.queue)) (omega arith) (omega (arith, v.queue_le)),
      v.queue_le,
    )
