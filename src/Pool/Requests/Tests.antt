-- ===== src/Pool/Requests/Tests.antt =====
-- Runs of a request pool.
use nova_airouter.Prelude.{◌≡◌, refl, ◌++◌, ◌≤◌, pos, List, [], ◌∷◌, arith, length, total, pos_part}
use nova_airouter.Pool.Requests.{
  Event, arrive, offer, back_off, take, count, uncount, shut_down, panicked, new_request_pool, run,
  step, offer_in, get_metrics, at_least_one,
}
use nova_airouter.Pool.Requests.Account.{acts, waiters, get_metrics-run}
use nova_airouter.Pool.Requests.Order.{all_accepted, all_received, all_accepted-run}

-- Two clients race for a queue of one place; the second is turned away.
abbrev race : List Event
race = arrive 7 ∷ arrive 8 ∷ offer ∷ offer ∷ back_off ∷ take 0 ∷ count 0 ∷ uncount 0 ∷ []

get_metrics-run_example :
    let p = run (new_request_pool (pos 0) 1) race in
    ((get_metrics p).active ≡ pos (total acts p.workers))
    × (total acts p.workers ≤ pos_part (at_least_one (pos 0)))
    × (length p.workers ≡ pos_part (at_least_one (pos 0)))
    × ((get_metrics p).waiting ≡ pos (waiters p))
    × ((get_metrics p).queue_len ≡ pos (length p.queue))
    × (length p.queue ≤ 1)
get_metrics-run_example = get_metrics-run (pos 0) 1 race (omega arith) (omega arith) (omega arith)

all_accepted-run_example :
    let p = new_request_pool (pos 2) 4 in
    all_accepted p race ≡ all_received p race ++ (run p race).queue
all_accepted-run_example = all_accepted-run (pos 2) 4 race

-- A client that has entered before a shutdown and sends after it panics.
send_after_shut_down :
    step (run (new_request_pool (pos 1) 1) (arrive 7 ∷ shut_down ∷ [])) offer ≡ panicked
unfolding step run new_request_pool offer_in
send_after_shut_down = refl
