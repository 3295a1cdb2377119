-- ===== src/Pool/Manager/Tests.antt =====
-- A pool that is created twice, beside one that is removed.
use nova_airouter.Prelude.{pos, List, [], ◌∷◌, codes}
use nova_airouter.Pool.Manager.{PoolCall, creates, removes}

abbrev calls : List PoolCall
calls =
    creates (codes "/chat") (codes "a") (codes "http://a") (pos 2)
    ∷ creates (codes "/chat") (codes "b") (codes "http://b") (pos 2)
    ∷ creates (codes "/chat") (codes "a") (codes "http://c") (pos 0)
    ∷ removes (codes "/chat") (codes "b")
    ∷ []
