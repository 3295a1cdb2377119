-- ===== src/Plugin/Discover/Carried.antt =====
-- models_plugin/sync.go: the counts after a `doSync`.
use nova_airouter.Prelude.{
  ℕ, suc, ◌≤◌, ◌<◌, ◌==◌, ==_iff, ℤ, negsuc, pos, false, if◌then◌else◌, some, List, [], ◌∷◌, ◌++◌,
  All, In, inl, inr, Text, text_eq, text_eq_iff, Dict, lookup, insert, Distinct, insert-Distinct,
  ◌≡◌, refl, sym, ap, ◌∙◌, arith, Bool-cases, subst,
}
use nova_airouter.Plugin.{Backend, Heap, ModelBackend, Plugin, add_conn, is_at, write_at}
use nova_airouter.Plugin.Ports.{plugin_port}
use nova_airouter.Plugin.Discover.{
  NodeInfo, Cluster, Found, backends_in, carried, add_backend, add_nodes, sync_nodes, do_sync,
}
use nova_airouter.Plugin.Discover.Fresh.{unchanged_listed}
use nova_airouter.Plugin.Discover.Steps.{nodes_keep}
use nova_airouter.Plugin.Discover.Merge.{
  AreOld, SameBelow, IsOwned, AreOwned, carried-address, carried_skips, carried-SameBelow,
  merge_models_listed,
}

-- The backends that are listed so far are allocated, and count nothing.
abbrev IsNew : ℕ → Heap → List ℕ → Type 0
IsNew n h ps = All (λ p. (p < n) × ((h p).active_conn ≡ pos 0)) ps

abbrev AreNew : ℕ → Heap → Dict ModelBackend → Type 0
AreNew n h [] = Unit
AreNew n h ((_, mb) ∷ models) = IsNew n h mb.backends × AreNew n h models

record IsBuilt (k : ℕ) (h : Heap) (x : Found) : Type 0 where
  own : ℕ → Text
  owned : AreOwned own k x.models
  new : AreNew x.next_free x.heap x.models
  distinct : Distinct x.models
  kept : SameBelow k h x.heap
  later : k ≤ x.next_free

abbrev given : ℕ → Text → (ℕ → Text) → ℕ → Text
given n model own p = if p == n then model else own p

write_at-apart : (n p : ℕ) (b : Backend) (h : Heap) → p < n → write_at n b h p ≡ h p
write_at-apart n p b h l = ground (arith, ==_iff p n)

given-apart : (n p : ℕ) (model : Text) (own : ℕ → Text) → p < n → given n model own p ≡ own p
given-apart n p model own l = ground (arith, ==_iff p n)

given-here : (n : ℕ) (model : Text) (own : ℕ → Text) → given n model own n ≡ model
given-here n model own = ground (arith, ==_iff n n)

write_at-own : (n : ℕ) (b : Backend) (h : Heap) → write_at n b h n ≡ b
write_at-own n b h = ground (arith, ==_iff n n)

module _ (k n : ℕ) (b : Backend) (model : Text) (own : ℕ → Text) (h : Heap) where
  given-IsOwned :
      (m : Text) (ps : List ℕ)
      → IsOwned own k m ps
      → IsNew n h ps
      → IsOwned (given n model own) k m ps
  given-IsOwned m [] o w = tt
  given-IsOwned m (p ∷ ps) o w =
      ((given-apart n p model own w.0.0 ∙ o.0.0, o.0.1), given-IsOwned m ps o.1 w.1)

  given-AreOwned :
      (ms : Dict ModelBackend)
      → AreOwned own k ms
      → AreNew n h ms
      → AreOwned (given n model own) k ms
  given-AreOwned [] o w = tt
  given-AreOwned ((m, mb) ∷ ms) o w =
      (given-IsOwned m mb.backends o.0 w.0, given-AreOwned ms o.1 w.1)

  grown-IsNew : (ps : List ℕ) → IsNew n h ps → IsNew (suc n) (write_at n b h) ps
  grown-IsNew [] w = tt
  grown-IsNew (p ∷ ps) w = (
    (omega (arith, w.0.0), ap (λ x. x.active_conn) (write_at-apart n p b h w.0.0) ∙ w.0.1),
    grown-IsNew ps w.1,
  )

  grown-AreNew : (ms : Dict ModelBackend) → AreNew n h ms → AreNew (suc n) (write_at n b h) ms
  grown-AreNew [] w = tt
  grown-AreNew ((m, mb) ∷ ms) w = (grown-IsNew mb.backends w.0, grown-AreNew ms w.1)

All-add : (P : ℕ → Type 0) (ps : List ℕ) (p : ℕ) → All P ps → P p → All P (ps ++ p ∷ [])
All-add P [] p a x = (x, tt)
All-add P (q ∷ ps) p a x = (a.0, All-add P ps p a.1 x)

IsOwned-listed :
    (own : ℕ → Text) (k : ℕ) (model : Text) (ms : Dict ModelBackend)
    → AreOwned own k ms
    → IsOwned own k model (backends_in (lookup model ms))
unfolding lookup
IsOwned-listed own k model [] o = tt
IsOwned-listed own k model ((m, mb) ∷ ms) o = elim (Bool-cases (text_eq m model)) [
  | inl e ↦ rw e (subst (λ y. IsOwned own k y mb.backends) ((text_eq_iff m model).0 e) o.0)
  | inr e ↦ rw e (IsOwned-listed own k model ms o.1)
]

IsNew-listed :
    (n : ℕ) (h : Heap) (model : Text) (ms : Dict ModelBackend)
    → AreNew n h ms
    → IsNew n h (backends_in (lookup model ms))
unfolding lookup
IsNew-listed n h model [] o = tt
IsNew-listed n h model ((m, mb) ∷ ms) o = elim (Bool-cases (text_eq m model)) [
  | inl e ↦ rw e o.0
  | inr e ↦ rw e (IsNew-listed n h model ms o.1)
]

insert-AreOwned :
    (own : ℕ → Text) (k : ℕ) (model : Text) (mb : ModelBackend) (ms : Dict ModelBackend)
    → IsOwned own k model mb.backends
    → AreOwned own k ms
    → AreOwned own k (insert model mb ms)
unfolding insert
insert-AreOwned own k model mb [] i o = (i, tt)
insert-AreOwned own k model mb ((m, x) ∷ ms) i o = elim (Bool-cases (text_eq m model)) [
  | inl e ↦ rw e (i, o.1)
  | inr e ↦ rw e (o.0, insert-AreOwned own k model mb ms i o.1)
]

insert-AreNew :
    (n : ℕ) (h : Heap) (model : Text) (mb : ModelBackend) (ms : Dict ModelBackend)
    → IsNew n h mb.backends
    → AreNew n h ms
    → AreNew n h (insert model mb ms)
unfolding insert
insert-AreNew n h model mb [] i o = (i, tt)
insert-AreNew n h model mb ((m, x) ∷ ms) i o = elim (Bool-cases (text_eq m model)) [
  | inl e ↦ rw e (i, o.1)
  | inr e ↦ rw e (o.0, insert-AreNew n h model mb ms i o.1)
]

add_backend-IsBuilt :
    (k : ℕ) (h : Heap) (b : Backend) (model : Text) (x : Found)
    → b.active_conn ≡ pos 0
    → IsBuilt k h x
    → IsBuilt k h (add_backend b model x)
unfolding add_backend
add_backend-IsBuilt k h b model x z v =
    let n = x.next_free in
    let own = given n model v.own in
    let owned = given-AreOwned k n b model v.own x.heap x.models v.owned v.new in
    let new = grown-AreNew k n b model v.own x.heap x.models v.new in
    record {
      own = own;
      owned =
          insert-AreOwned own k model _ x.models
            (All-add (λ p. (own p ≡ model) × (k ≤ p)) _ n
              (IsOwned-listed own k model x.models owned) (given-here n model v.own, v.later))
            owned;
      new =
          insert-AreNew (suc n) (write_at n b x.heap) model _ x.models
            (All-add (λ p. (p < suc n) × ((write_at n b x.heap p).active_conn ≡ pos 0)) _ n
              (IsNew-listed (suc n) (write_at n b x.heap) model x.models new)
              (omega arith, ap (λ y. y.active_conn) (write_at-own n b x.heap) ∙ z))
            new;
      distinct = insert-Distinct model _ x.models v.distinct;
      kept = λ p l. write_at-apart n p b x.heap (omega (arith, l, v.later)) ∙ v.kept p l;
      later = omega (arith, v.later);
    }

-- The count of the first of the backends at an address, 0 without one.
abbrev pub active_at : List ℕ → Heap → Text → ℤ → ℤ
active_at [] h addr port = pos 0
active_at (o ∷ os) h addr port =
    if is_at addr port (h o) then (h o).active_conn else active_at os h addr port

kept_address :
    (os : List ℕ) (h : Heap) (b : Backend) (o : ℕ)
    → is_at b.address b.port (h o) ≡ false
    → is_at (carried os h b).address (carried os h b).port (h o) ≡ false
kept_address os h b o e =
    let (a, p) = carried-address os h b in
    ap (λ x. is_at x (carried os h b).port (h o)) a ∙ ap (λ x. is_at b.address x (h o)) p ∙ e

skipped :
    (o : ℕ) (os : List ℕ) (h : Heap) (addr : Text) (port : ℤ)
    → is_at addr port (h o) ≡ false
    → active_at (o ∷ os) h addr port ≡ active_at os h addr port
skipped o os h addr port e = rw e refl

carried-active_at :
    (os : List ℕ) (h : Heap) (b : Backend)
    → b.active_conn ≡ pos 0
    → (carried os h b).active_conn ≡ active_at os h (carried os h b).address (carried os h b).port
unfolding carried
carried-active_at [] h b z = z
carried-active_at (o ∷ os) h b z = elim (Bool-cases (is_at b.address b.port (h o))) [
  | inl e ↦ rw (e, e) refl
  | inr e ↦
      subst (λ c. c.active_conn ≡ active_at (o ∷ os) h c.address c.port)
        (sym (carried_skips o os h b e))
        (carried-active_at os h b z ∙ sym (skipped o os h _ _ (kept_address os h b o e)))
]

new_of : (n q : ℕ) (h : Heap) (ps : List ℕ) → IsNew n h ps → In q ps → (h q).active_conn ≡ pos 0
new_of n q h [] w i = elim i [ ]
new_of n q h (p ∷ ps) w (inl e) = rw e w.0.1
new_of n q h (p ∷ ps) w (inr i) = new_of n q h ps w.1 i

owner_of :
    (own : ℕ → Text) (k q : ℕ) (model : Text) (ps : List ℕ)
    → IsOwned own k model ps
    → In q ps
    → own q ≡ model
owner_of own k q model [] o i = elim i [ ]
owner_of own k q model (p ∷ ps) o (inl e) = rw e o.0.0
owner_of own k q model (p ∷ ps) o (inr i) = owner_of own k q model ps o.1 i

owner_and_count :
    (n q : ℕ) (own : ℕ → Text) (k : ℕ) (h : Heap) (model : Text) (mb : ModelBackend)
    (ms : Dict ModelBackend)
    → AreOwned own k ms
    → AreNew n h ms
    → lookup model ms ≡ some mb
    → In q mb.backends
    → (own q ≡ model) × ((h q).active_conn ≡ pos 0)
owner_and_count n q own k h model mb ms o w l i =
    let owned =
      subst (λ y. IsOwned own k model (backends_in y)) l (IsOwned-listed own k model ms o) in
    let new = subst (λ y. IsNew n h (backends_in y)) l (IsNew-listed n h model ms w) in
    (owner_of own k q model mb.backends owned i, new_of n q h mb.backends new i)

listed_count :
    (c : Cluster) (nodes : List NodeInfo) (model : Text) (mb : ModelBackend) (q : ℕ) (s : Plugin)
    → AreOld s.next_free (backends_in (lookup model s.models))
    → lookup model (sync_nodes c (some nodes) s).models ≡ some mb
    → In q mb.backends
    → let b = (sync_nodes c (some nodes) s).heap q in
      b.active_conn ≡ active_at (backends_in (lookup model s.models)) s.heap b.address b.port
unfolding sync_nodes
listed_count c nodes model mb q s old l i =
    let os = backends_in (lookup model s.models) in
    let start : Found = record { heap = s.heap; next_free = s.next_free; models = [] } in
    let x = add_nodes c (plugin_port s.config.plugin_addr) nodes start in
    let v =
      nodes_keep (IsBuilt s.next_free s.heap)
        (λ b m y z h. add_backend-IsBuilt s.next_free s.heap b m y z h) c
        (plugin_port s.config.plugin_addr) nodes start
        (record {
          own = λ p. [];
          owned = tt;
          new = tt;
          distinct = tt;
          kept = λ p m. refl;
          later = omega arith;
        }) in
    let (owner, zero) =
      owner_and_count x.next_free q v.own s.next_free x.heap model mb x.models v.owned v.new l i in
    let merged =
      merge_models_listed v.own s.next_free q model mb s.models x.models x.heap v.distinct v.owned l
        i owner old
      ∙ carried-SameBelow s.next_free os s.heap x.heap (x.heap q) v.kept old in
    subst (λ b. b.active_conn ≡ active_at os s.heap b.address b.port) (sym merged)
      (carried-active_at os s.heap (x.heap q) zero)

synced :
    (c : Cluster) (nodes : List NodeInfo) (model : Text) (mb : ModelBackend) (q : ℕ) (s : Plugin)
    → c.nodes ≡ some nodes
    → AreOld s.next_free (backends_in (lookup model s.models))
    → lookup model (do_sync c s).models ≡ some mb
    → In q mb.backends
    → let b = (do_sync c s).heap q in
      b.active_conn ≡ active_at (backends_in (lookup model s.models)) s.heap b.address b.port
unfolding do_sync
synced c nodes model mb q s e old l i =
    subst
      (λ o.
        let b = (sync_nodes c o s).heap q in
        b.active_conn ≡ active_at (backends_in (lookup model s.models)) s.heap b.address b.port)
      (sym e)
      (listed_count c nodes model mb q s old
        (subst (λ o. lookup model (sync_nodes c o s).models ≡ some mb) e l) i)

-- After a `doSync`, a listed backend counts what the first old backend of the model at its address
-- counted, 0 where there was none. The requests in flight are in that count and stay in it: when
-- one that ran on an old backend ends, the listed ones count as before.
pub do_sync_counts :
    (c : Cluster) (nodes : List NodeInfo) (model : Text) (mb : ModelBackend) (p q : ℕ) (s : Plugin)
    → c.nodes ≡ some nodes
    → AreOld s.next_free (backends_in (lookup model s.models))
    → p < s.next_free
    → lookup model (do_sync c s).models ≡ some mb
    → In q mb.backends
    → let b = add_conn (negsuc 0) p (do_sync c s).heap q in
      b.active_conn ≡ active_at (backends_in (lookup model s.models)) s.heap b.address b.port
do_sync_counts c nodes model mb p q s e old below l i =
    subst
      (λ b. b.active_conn ≡ active_at (backends_in (lookup model s.models)) s.heap b.address b.port)
      (sym (
        unchanged_listed c nodes model p q s e below (subst (λ y. In q (backends_in y)) (sym l) i)))
      (synced c nodes model mb q s e old l i)
