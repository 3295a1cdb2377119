-- ===== src/Pool/Requests.antt =====
-- `RequestPool`: a bounded queue, its workers, and the two counters that `GetMetrics` reports. The
-- clients and the workers run concurrently; between two events lies at most one atomic operation on
-- the shared state, so a list of events is an interleaving. A request is a number. The queue's
-- capacity is at least 1 (a channel of capacity 0 would hand requests over without a queue).
pub mod Account
pub mod Order
mod Tests
use nova_airouter.Prelude.{
  ℕ, suc, ◌-◌, ◌+◌, ltb, leb, ◌==◌, ℤ, pos, negsuc, pos_part, ◌+ℤ◌, i32, ltb_ℤ, Bool, true, false,
  if◌then◌else◌, Option, none, some, List, [], ◌∷◌, ◌++◌, length, get_elem?, set, replicate,
}

-- Where a worker stands in the loop of `run`.
pub data Phase : Type 0 where
  idle : Phase  -- in the `select`
  taken : ℕ → Phase  -- before `activeCount` is raised
  counted : ℕ → Phase  -- before `waitingCount` is lowered
  serving : ℕ → Phase  -- in `processRequest`, or before `activeCount` is lowered
  stopped : Phase

pub record RequestPool : Type 0 where
  pub max_concur : ℤ  -- int32
  pub queue : List ℕ  -- a channel, its oldest request first
  pub queue_capacity : ℕ
  pub active_count : ℤ  -- int32
  pub waiting_count : ℤ  -- int32
  pub workers : List Phase
  pub entering : List ℕ  -- clients in `ServeWithHeaders` before the first `select`
  pub refused : List ℕ  -- clients in its `default` branch, before `waitingCount` is lowered
  pub is_closed : Bool  -- `Shutdown` has cancelled the context and closed the queue

-- `if maxConcur < 1 { maxConcur = 1 }`.
abbrev pub at_least_one : ℤ → ℤ
at_least_one n = if ltb_ℤ n (pos 1) then pos 1 else n

unfoldable pub new_request_pool : ℤ → ℕ → RequestPool
new_request_pool max_concur capacity = record {
  max_concur = i32 (at_least_one max_concur);
  queue = [];
  queue_capacity = capacity;
  active_count = pos 0;
  waiting_count = pos 0;
  workers = replicate (pos_part (at_least_one max_concur)) idle;
  entering = [];
  refused = [];
  is_closed = false;
}

pub data Event : Type 0 where
  arrive : ℕ → Event  -- `waitingCount` is raised
  offer : Event  -- the oldest entering client tries to send
  back_off : Event  -- a refused client lowers `waitingCount`
  take : ℕ → Event  -- a worker receives from the queue
  count : ℕ → Event  -- it raises `activeCount`
  uncount : ℕ → Event  -- it lowers `waitingCount`
  finish : ℕ → Event  -- it has served, and lowers `activeCount`
  stop : ℕ → Event  -- it sees the shutdown and returns
  shut_down : Event

pub data Outcome : Type 0 where
  moved : RequestPool → Outcome
  disabled : Outcome  -- nobody stands at that operation
  panicked : Outcome  -- a send on a closed channel

-- `select { case p.queue <- req: default: … }` of the client that serves the request `r`.
offer_in : List ℕ → RequestPool → Outcome
offer_in [] p = disabled
offer_in (r ∷ rest) p =
    if p.is_closed
    then panicked
    else if ltb (length p.queue) p.queue_capacity
    then moved (record p { entering = rest; queue = p.queue ++ r ∷ [] })
    else moved (record p { entering = rest; refused = r ∷ p.refused })

back_off_in : List ℕ → RequestPool → Outcome
back_off_in [] p = disabled
back_off_in (r ∷ rest) p =
    moved (record p { refused = rest; waiting_count = i32 (p.waiting_count +ℤ negsuc 0) })

take_in : Option Phase → List ℕ → ℕ → RequestPool → Outcome
take_in (some idle) (r ∷ rest) i p =
    moved (record p { queue = rest; workers = set p.workers i (taken r) })
take_in _ _ i p = disabled

count_in : Option Phase → ℕ → RequestPool → Outcome
count_in (some (taken r)) i p = moved (record p {
  active_count = i32 (p.active_count +ℤ pos 1);
  workers = set p.workers i (counted r);
})
count_in _ i p = disabled

uncount_in : Option Phase → ℕ → RequestPool → Outcome
uncount_in (some (counted r)) i p = moved (record p {
  waiting_count = i32 (p.waiting_count +ℤ negsuc 0);
  workers = set p.workers i (serving r);
})
uncount_in _ i p = disabled

finish_in : Option Phase → ℕ → RequestPool → Outcome
finish_in (some (serving r)) i p =
    moved
      (record p { active_count = i32 (p.active_count +ℤ negsuc 0); workers = set p.workers i idle })
finish_in _ i p = disabled

stop_in : Option Phase → Bool → ℕ → RequestPool → Outcome
stop_in (some idle) true i p = moved (record p { workers = set p.workers i stopped })
stop_in _ _ i p = disabled

pub step : RequestPool → Event → Outcome
step p (arrive r) =
    moved
      (record p { waiting_count = i32 (p.waiting_count +ℤ pos 1); entering = p.entering ++ r ∷ [] })
step p offer = offer_in p.entering p
step p back_off = back_off_in p.refused p
step p (take i) = take_in (get_elem? p.workers i) p.queue i p
step p (count i) = count_in (get_elem? p.workers i) i p
step p (uncount i) = uncount_in (get_elem? p.workers i) i p
step p (finish i) = finish_in (get_elem? p.workers i) i p
step p (stop i) = stop_in (get_elem? p.workers i) p.is_closed i p
step p shut_down = moved (record p { is_closed = true })

abbrev pub next : Outcome → RequestPool → RequestPool
next (moved q) p = q
next disabled p = p
next panicked p = p

-- Events that are not enabled are passed over.
pub run : RequestPool → List Event → RequestPool
run p [] = p
run p (e ∷ es) = run (next (step p e) p) es

pub record PoolMetrics : Type 0 where
  pub active : ℤ
  pub queue_len : ℤ
  pub waiting : ℤ
  pub healthy : Bool
  pub max_concurrent : ℤ

unfoldable pub get_metrics : RequestPool → PoolMetrics
get_metrics p = record {
  active = p.active_count;
  queue_len = i32 (pos (length p.queue));
  waiting = p.waiting_count;
  healthy = true;
  max_concurrent = p.max_concur;
}
