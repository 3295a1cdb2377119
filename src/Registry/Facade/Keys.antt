-- ===== src/Registry/Facade/Keys.antt =====
-- The aggregates of a node stand under their own paths, each path once.
use nova_airouter.Prelude.{
  ◌≡◌, refl, some, List, [], ◌∷◌, inl, inr, Text, text_eq, text_eq_iff, Dict, lookup, insert,
  Distinct, insert-Distinct, arith, Bool-cases, Option-cases,
}
use nova_airouter.Models.Endpoint.{LocalEndpoint, list_endpoints}
use nova_airouter.Registry.Local.{LocalRegistry}
use nova_airouter.Registry.Facade.{
  AggregatedPathInfo, or_new, aggregate_all, aggregate_local_path_infos,
}

abbrev pub IsKeyed : Dict AggregatedPathInfo → Type 0
IsKeyed [] = Unit
IsKeyed ((k, agg) ∷ m) = (agg.node_path ≡ k) × IsKeyed m

insert-IsKeyed :
    (k : Text) (agg : AggregatedPathInfo) (m : Dict AggregatedPathInfo)
    → agg.node_path ≡ k
    → IsKeyed m
    → IsKeyed (insert k agg m)
unfolding insert
insert-IsKeyed k agg [] e h = (e, tt)
insert-IsKeyed k agg ((j, a) ∷ m) e h = elim (Bool-cases (text_eq j k)) [
  | inl t ↦ rw t (e, h.1)
  | inr t ↦ rw t (h.0, insert-IsKeyed k agg m e h.1)
]

lookup-IsKeyed :
    (k : Text) (agg : AggregatedPathInfo) (m : Dict AggregatedPathInfo)
    → IsKeyed m
    → lookup k m ≡ some agg
    → agg.node_path ≡ k
unfolding lookup
lookup-IsKeyed k agg [] h e = absurd (cc)
lookup-IsKeyed k agg ((j, a) ∷ m) h e = elim (Bool-cases (text_eq j k)) [
  | inl t ↦ ground (arith, t, e, h.0, text_eq_iff j k)
  | inr t ↦ lookup-IsKeyed k agg m h.1 (rw t at e)
]

or_new-path :
    (ep : LocalEndpoint) (m : Dict AggregatedPathInfo)
    → IsKeyed m
    → (or_new ep (lookup ep.node_path m)).node_path ≡ ep.node_path
unfolding or_new
or_new-path ep m h = elim (Option-cases (lookup ep.node_path m)) [
  | inl e ↦ rw e refl
  | inr (agg, e) ↦ rw e (lookup-IsKeyed ep.node_path agg m h e)
]

aggregate_all-keys :
    (eps : List LocalEndpoint) (m : Dict AggregatedPathInfo)
    → Distinct m
    → IsKeyed m
    → Distinct (aggregate_all eps m) × IsKeyed (aggregate_all eps m)
unfolding aggregate_all
aggregate_all-keys [] m d h = (d, h)
aggregate_all-keys (ep ∷ eps) m d h =
    aggregate_all-keys eps _ (insert-Distinct ep.node_path _ m d)
      (insert-IsKeyed ep.node_path _ m (or_new-path ep m h) h)

pub aggregate_local_path_infos-keys :
    (r : LocalRegistry)
    → Distinct (aggregate_local_path_infos r) × IsKeyed (aggregate_local_path_infos r)
unfolding aggregate_local_path_infos
aggregate_local_path_infos-keys r = aggregate_all-keys (list_endpoints r.endpoints) [] tt tt
