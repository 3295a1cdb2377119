-- ===== src/Pool/Remote/Tests.antt =====
-- Runs of the counters of requests in flight, and a clash of two keys.
use nova_airouter.Prelude.{Text, codes, List, [], ◌∷◌, ◌≡◌, refl, pos, arith, text_eq}
use nova_airouter.Pool.Remote.{
  Call, starts, ends, snapshots, new, run, get_remote_active, remote_key,
}
use nova_airouter.Pool.Remote.Balance.{get_remote_active-run}

abbrev node : Text
node = codes "n1"

abbrev chat : Text
chat = codes "/c"

abbrev other : Text
other = codes "/d"

abbrev calls : List Call
calls = starts node chat ∷ starts node other ∷ starts node chat ∷ snapshots ∷ ends node chat ∷ []

get_remote_active-run_example : get_remote_active node chat (run new calls) ≡ pos 1
unfolding text_eq
get_remote_active-run_example =
    get_remote_active-run node chat calls (omega arith) (ground arith) (omega arith)

-- A bar in a node id lets two endpoints share a counter.
keys_clash : remote_key (codes "a|b") (codes "c") ≡ remote_key (codes "a") (codes "b|c")
unfolding remote_key
keys_clash = refl
