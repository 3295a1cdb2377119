-- ===== src/Pool/Remote.antt =====
-- The part of `PoolManager` that counts the requests in flight to each remote endpoint. A counter
-- is an `int32` behind a pointer that is never deleted, so each call is one step.
pub mod Balance
mod Tests
use nova_airouter.Prelude.{
  ℤ, pos, negsuc, ◌+ℤ◌, i32, Option, none, some, List, [], ◌∷◌, ◌++◌, Text, codes, Dict, lookup,
  insert,
}

pub record RemoteCounters : Type 0 where
  pub remote_counters : Dict ℤ  -- map[string]*int32
  pub remote_snapshots : Dict ℤ  -- map[string]int32

unfoldable pub new : RemoteCounters
new = record { remote_counters = []; remote_snapshots = [] }

unfoldable pub remote_key : Text → Text → Text
remote_key node_id node_path = node_id ++ codes "|" ++ node_path

-- The value behind an `int32` entry, 0 where there is none.
abbrev pub or_zero : Option ℤ → ℤ
or_zero none = pos 0
or_zero (some z) = z

unfoldable pub inc_remote_active : Text → Text → RemoteCounters → RemoteCounters
inc_remote_active node_id node_path m =
    let key = remote_key node_id node_path in
    record m {
      remote_counters =
          insert key (i32 (or_zero (lookup key m.remote_counters) +ℤ pos 1)) m.remote_counters;
    }

dec_in : Text → Option ℤ → RemoteCounters → RemoteCounters
dec_in key none m = m
dec_in key (some z) m = record m {
  remote_counters = insert key (i32 (z +ℤ negsuc 0)) m.remote_counters;
}

unfoldable pub dec_remote_active : Text → Text → RemoteCounters → RemoteCounters
unfolding dec_in
dec_remote_active node_id node_path m =
    let key = remote_key node_id node_path in dec_in key (lookup key m.remote_counters) m

unfoldable pub get_remote_active : Text → Text → RemoteCounters → ℤ
get_remote_active node_id node_path m =
    or_zero (lookup (remote_key node_id node_path) m.remote_counters)

unfoldable pub snapshot_remote_actives : RemoteCounters → RemoteCounters
snapshot_remote_actives m = record m { remote_snapshots = m.remote_counters }

unfoldable pub get_remote_active_snapshot : Text → Text → RemoteCounters → ℤ
get_remote_active_snapshot node_id node_path m =
    or_zero (lookup (remote_key node_id node_path) m.remote_snapshots)

-- What the forwarder and the gossip timer do to the counters.
pub data Call : Type 0 where
  starts : Text → Text → Call
  ends : Text → Text → Call
  snapshots : Call

unfoldable pub step : RemoteCounters → Call → RemoteCounters
step m (starts node_id node_path) = inc_remote_active node_id node_path m
step m (ends node_id node_path) = dec_remote_active node_id node_path m
step m snapshots = snapshot_remote_actives m

unfoldable pub run : RemoteCounters → List Call → RemoteCounters
run m [] = m
run m (c ∷ cs) = run (step m c) cs
