-- ===== src/Plugin/Discover/Fresh.antt =====
-- models_plugin/sync.go: a `doSync` lists backends of its own.
use nova_airouter.Prelude.{
  ℕ, ◌≤◌, ◌<◌, ◌==◌, negsuc, false, some, List, [], ◌∷◌, ◌++◌, All, In, inl, inr, Text, text_eq,
  Dict, lookup, insert, ◌≡◌, arith, Bool-cases, subst,
}
use nova_airouter.Plugin.{Backend, ModelBackend, Plugin, add_conn}
use nova_airouter.Plugin.Ports.{plugin_port}
use nova_airouter.Plugin.Counted.Release.{add_conn-there}
use nova_airouter.Plugin.Discover.Steps.{nodes_keep}
use nova_airouter.Plugin.Discover.{
  NodeInfo, Cluster, Found, backends_in, add_backend, sync_nodes, do_sync,
}

-- The backends of every model are at `k` or after.
abbrev pub AreFrom : ℕ → Dict ModelBackend → Type 0
AreFrom k [] = Unit
AreFrom k ((_, mb) ∷ models) = All (λ p. k ≤ p) mb.backends × AreFrom k models

record IsFresh (k : ℕ) (x : Found) : Type 0 where
  from : AreFrom k x.models
  later : k ≤ x.next_free

backends_in-AreFrom :
    (k : ℕ) (model : Text) (models : Dict ModelBackend)
    → AreFrom k models
    → All (λ p. k ≤ p) (backends_in (lookup model models))
unfolding lookup
backends_in-AreFrom k model [] h = tt
backends_in-AreFrom k model ((j, mb) ∷ models) h = elim (Bool-cases (text_eq j model)) [
  | inl e ↦ rw e h.0
  | inr e ↦ rw e (backends_in-AreFrom k model models h.1)
]

All-append : (k p : ℕ) (ps : List ℕ) → All (λ q. k ≤ q) ps → k ≤ p → All (λ q. k ≤ q) (ps ++ p ∷ [])
All-append k p [] h l = (l, tt)
All-append k p (q ∷ ps) h l = (h.0, All-append k p ps h.1 l)

insert-AreFrom :
    (k : ℕ) (model : Text) (mb : ModelBackend) (models : Dict ModelBackend)
    → All (λ p. k ≤ p) mb.backends
    → AreFrom k models
    → AreFrom k (insert model mb models)
unfolding insert
insert-AreFrom k model mb [] h m = (h, tt)
insert-AreFrom k model mb ((j, x) ∷ models) h m = elim (Bool-cases (text_eq j model)) [
  | inl e ↦ rw e (h, m.1)
  | inr e ↦ rw e (m.0, insert-AreFrom k model mb models h m.1)
]

add_backend-IsFresh :
    (k : ℕ) (b : Backend) (model : Text) (x : Found)
    → IsFresh k x
    → IsFresh k (add_backend b model x)
unfolding add_backend
add_backend-IsFresh k b model x h = record {
  from =
      insert-AreFrom k model _ x.models
        (All-append k x.next_free _ (backends_in-AreFrom k model x.models h.from) h.later) h.from;
  later = omega (arith, h.later);
}

In-AreFrom : (k q : ℕ) (ps : List ℕ) → All (λ p. k ≤ p) ps → In q ps → k ≤ q
In-AreFrom k q [] h i = elim i [ ]
In-AreFrom k q (p ∷ ps) h (inl e) = rw e h.0
In-AreFrom k q (p ∷ ps) h (inr i) = In-AreFrom k q ps h.1 i

listed_fresh :
    (c : Cluster) (nodes : List NodeInfo) (model : Text) (q : ℕ) (s : Plugin)
    → In q (backends_in (lookup model (sync_nodes c (some nodes) s).models))
    → s.next_free ≤ q
unfolding sync_nodes
listed_fresh c nodes model q s i =
    let fresh =
      nodes_keep (IsFresh s.next_free)
        (λ b model x z h. add_backend-IsFresh s.next_free b model x h) c
        (plugin_port s.config.plugin_addr) nodes
        (record { heap = s.heap; next_free = s.next_free; models = [] })
        (record { from = tt; later = omega arith }) in
    In-AreFrom s.next_free q _ (backends_in-AreFrom s.next_free model _ fresh.from) i

apart : (p q k : ℕ) → p < k → k ≤ q → (q == p) ≡ false
apart p q k l m = ground arith

-- A request that runs on a backend while `doSync` lists new ones gives its connection back to the
-- old backend alone: no backend that is listed now changes when it ends.
pub unchanged_listed :
    (c : Cluster) (nodes : List NodeInfo) (model : Text) (p q : ℕ) (s : Plugin)
    → c.nodes ≡ some nodes
    → p < s.next_free
    → In q (backends_in (lookup model (do_sync c s).models))
    → add_conn (negsuc 0) p (do_sync c s).heap q ≡ (do_sync c s).heap q
unfolding do_sync
unchanged_listed c nodes model p q s e l i = add_conn-there (negsuc 0) p q (do_sync c s).heap (
    apart p q s.next_free l (
      listed_fresh c nodes model q s
        (subst (λ o. In q (backends_in (lookup model (sync_nodes c o s).models))) e i)))
