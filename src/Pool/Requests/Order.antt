-- ===== src/Pool/Requests/Order.antt =====
-- The queue hands requests to the workers in the order in which they were accepted.
use mathlib.Core.List.{append-nil, append_assoc}
use nova_airouter.Prelude.{
  ℕ, ltb, ◌≡◌, refl, sym, ap, ◌∙◌, Option, some, List, [], ◌∷◌, ◌++◌, length, get_elem?, arith,
  if◌then◌else◌, ℤ,
}
use nova_airouter.Pool.Requests.{
  Phase, idle, RequestPool, new_request_pool, Event, arrive, offer, back_off, take, count, uncount,
  finish, stop, shut_down, Outcome, step, next, run, offer_in, back_off_in, take_in, count_in,
  uncount_in, finish_in, stop_in,
}

accepted_in : List ℕ → RequestPool → List ℕ
accepted_in [] p = []
accepted_in (r ∷ _) p =
    if p.is_closed then [] else if ltb (length p.queue) p.queue_capacity then r ∷ [] else []

received_in : Option Phase → List ℕ → List ℕ
received_in (some idle) (r ∷ _) = r ∷ []
received_in _ _ = []

-- The request that an event puts into the queue, if any.
pub accepted : RequestPool → Event → List ℕ
unfolding accepted_in
accepted p offer = accepted_in p.entering p
accepted p _ = []

-- The request that an event gives to a worker, if any.
pub received : RequestPool → Event → List ℕ
unfolding received_in
received p (take i) = received_in (get_elem? p.workers i) p.queue
received p _ = []

-- The requests put in and handed out along a run, oldest first.
pub all_accepted : RequestPool → List Event → List ℕ
all_accepted p [] = []
all_accepted p (e ∷ es) = accepted p e ++ all_accepted (next (step p e) p) es

pub all_received : RequestPool → List Event → List ℕ
all_received p [] = []
all_received p (e ∷ es) = received p e ++ all_received (next (step p e) p) es

abbrev IsBalanced : RequestPool → List ℕ → List ℕ → RequestPool → Type 0
IsBalanced p ins outs q = p.queue ++ ins ≡ outs ++ q.queue

offer-IsBalanced :
    (p : RequestPool) (es : List ℕ) → IsBalanced p (accepted_in es p) [] (next (offer_in es p) p)
unfolding offer_in accepted_in
offer-IsBalanced p [] = append-nil p.queue
offer-IsBalanced p (r ∷ rest) = ground (arith, append-nil p.queue)

take-IsBalanced :
    (p : RequestPool) (i : ℕ) (x : Option Phase) (rs : List ℕ)
    → p.queue ≡ rs
    → IsBalanced p [] (received_in x rs) (next (take_in x rs i p) p)
unfolding take_in received_in
take-IsBalanced p i (some idle) (r ∷ rest) e = append-nil p.queue ∙ e
take-IsBalanced p i _ _ e = append-nil p.queue

quiet : (p : RequestPool) (o : Outcome) → (next o p).queue ≡ p.queue → IsBalanced p [] [] (next o p)
quiet p o h = append-nil p.queue ∙ sym h

step-IsBalanced :
    (p : RequestPool) (e : Event) → IsBalanced p (accepted p e) (received p e) (next (step p e) p)
unfolding step accepted received
step-IsBalanced p (arrive r) = append-nil p.queue
step-IsBalanced p offer = offer-IsBalanced p p.entering
step-IsBalanced p back_off = quiet p (step p back_off) (unfold back_off_in in ground arith)
step-IsBalanced p (take i) = take-IsBalanced p i (get_elem? p.workers i) p.queue refl
step-IsBalanced p (count i) = quiet p (step p (count i)) (unfold count_in in ground arith)
step-IsBalanced p (uncount i) = quiet p (step p (uncount i)) (unfold uncount_in in ground arith)
step-IsBalanced p (finish i) = quiet p (step p (finish i)) (unfold finish_in in ground arith)
step-IsBalanced p (stop i) = quiet p (step p (stop i)) (unfold stop_in in ground arith)
step-IsBalanced p shut_down = append-nil p.queue

run-IsBalanced :
    (p : RequestPool) (es : List Event)
    → IsBalanced p (all_accepted p es) (all_received p es) (run p es)
unfolding run all_accepted all_received
run-IsBalanced p [] = append-nil p.queue
run-IsBalanced p (e ∷ es) =
    let q = next (step p e) p in
    sym (append_assoc p.queue (accepted p e) (all_accepted q es))
    ∙ ap (λ l. l ++ all_accepted q es) (step-IsBalanced p e)
    ∙ append_assoc (received p e) q.queue (all_accepted q es)
    ∙ ap (◌++◌ (received p e)) (run-IsBalanced q es)
    ∙ sym (append_assoc (received p e) (all_received q es) (run q es).queue)

-- First in, first out, in every interleaving: the requests that a new pool has accepted are those
-- that workers have received, in the same order, followed by those that still stand in the queue.
-- No accepted request is lost, repeated or overtaken, also across a shutdown.
pub all_accepted-run :
    (max_concur : ℤ) (capacity : ℕ) (es : List Event)
    → let p = new_request_pool max_concur capacity in
      all_accepted p es ≡ all_received p es ++ (run p es).queue
all_accepted-run max_concur capacity es =
    unfold new_request_pool in run-IsBalanced (new_request_pool max_concur capacity) es
