-- ===== src/Registry/Local/Register.antt =====
-- Registration: what is refused, and where a batch of endpoints goes.
use nova_airouter.Prelude.{
  ℕ, zero, suc, ◌+◌, ◌<◌, ◌≤◌, ◌≡◌, refl, sym, ap, ◌∙◌, true, false, ◌&&◌, none, some, List, [],
  ◌∷◌, Text, text_eq, text_eq_refl, arith, get_elem?,
}
use nova_airouter.Models.Endpoint.{LocalEndpoint, LocalEndpointStore, list_endpoints}
use nova_airouter.Models.Endpoint.Keys.{at, IsStore, at-set_endpoint, set_endpoint-IsStore}
use nova_airouter.Registry.Local.{
  LocalRegistry, registered, find_clash, store_all, register_in, register_endpoints,
}

-- An endpoint as it is stored: with its two ids.
abbrev pub stored : (ℕ → Text) → ℕ → LocalEndpoint → LocalEndpoint
stored ids n ep = record ep { service_id = ids 0; ep_id = ids n }

store_all-IsStore :
    (ids : ℕ → Text) (n : ℕ) (id : Text) (eps : List LocalEndpoint) (s : LocalEndpointStore)
    → IsStore s
    → IsStore (store_all ids n id eps s)
unfolding store_all
store_all-IsStore ids n id [] s v = v
store_all-IsStore ids n id (ep ∷ eps) s v =
    store_all-IsStore ids (suc n) id eps _
      (set_endpoint-IsStore (record ep { service_id = id; ep_id = ids n }) s v)

-- The ids that are drawn later than `n` differ from the one drawn at `n`.
abbrev pub IsFresh : (ℕ → Text) → Type 0
IsFresh ids = (m n : ℕ) → m < n → text_eq (ids n) (ids m) ≡ false

store_all-keeps :
    (ids : ℕ → Text) (n : ℕ) (id q j : Text) (eps : List LocalEndpoint) (s : LocalEndpointStore)
    → ((m : ℕ) → n ≤ m → text_eq (ids m) j ≡ false)
    → at q j (store_all ids n id eps s) ≡ at q j s
unfolding store_all
store_all-keeps ids n id q j [] s new = refl
store_all-keeps ids n id q j (ep ∷ eps) s new =
    store_all-keeps ids (suc n) id q j eps _ (λ m h. new m (omega arith))
    ∙ rw
        (
          at-set_endpoint ep.node_path (record ep { service_id = id; ep_id = ids n }) s q j,
          new n (omega arith),
        )
        (ground arith)

store_all-stored :
    (ids : ℕ → Text) (n k : ℕ) (eps : List LocalEndpoint) (ep : LocalEndpoint)
    (s : LocalEndpointStore)
    → IsFresh ids
    → get_elem? eps k ≡ some ep
    → at ep.node_path (ids (n + k)) (store_all ids n (ids 0) eps s) ≡ some (stored ids (n + k) ep)
unfolding store_all
store_all-stored ids n k [] ep s f e = absurd (ground arith)
store_all-stored ids n zero (x ∷ eps) ep s f e =
    let new : LocalEndpoint = record x { service_id = ids 0; ep_id = ids n } in
    let same : x ≡ ep = ground arith in
    let index : n + 0 ≡ n = omega arith in
    rw (index, ← same)
      (store_all-keeps ids (suc n) (ids 0) x.node_path (ids n) eps _ (λ m h. f n m (omega arith))
        ∙ rw
            (
              at-set_endpoint x.node_path new s x.node_path (ids n),
              text_eq_refl x.node_path,
              text_eq_refl (ids n),
            )
            refl)
store_all-stored ids n (suc k) (x ∷ eps) ep s f e =
    let index : n + suc k ≡ suc n + k = omega arith in
    rw index (store_all-stored ids (suc n) k eps ep _ f e)

register_in-eq :
    (ids : ℕ → Text) (eps : List LocalEndpoint) (r : LocalRegistry) (k : ℕ) (ep : LocalEndpoint)
    → get_elem? eps k ≡ some ep
    → ((register_in none ids eps r).1 ≡ registered (ids 0))
      × ((register_in none ids eps r).0.endpoints ≡ store_all ids 1 (ids 0) eps r.endpoints)
unfolding register_in
register_in-eq ids [] r k ep e = absurd (ground arith)
register_in-eq ids (x ∷ eps) r k ep e = (refl, refl)

register_endpoints-stored :
    (ids : ℕ → Text) (eps : List LocalEndpoint) (r : LocalRegistry) (k : ℕ) (ep : LocalEndpoint)
    → IsFresh ids
    → find_clash (list_endpoints r.endpoints) eps ≡ none
    → get_elem? eps k ≡ some ep
    → at ep.node_path (ids (suc k)) (register_endpoints ids eps r).0.endpoints
      ≡ some (stored ids (suc k) ep)
unfolding register_endpoints
register_endpoints-stored ids eps r k ep f clear e =
    let new = (register_in-eq ids eps r k ep e).1 in
    let index : suc k ≡ 1 + k = omega arith in
    rw (clear, new, index) (store_all-stored ids 1 k eps ep r.endpoints f e)

-- A batch in which no endpoint clashes with a registered plugin is registered: with ids that do
-- not repeat, each endpoint of the batch stands under its node path and the id drawn for it, with
-- the service id of the batch; what stood under any other id stays, the keys stay distinct, and
-- every endpoint stands under its own path and id.
pub register_endpoints_lem :
    (ids : ℕ → Text) (eps : List LocalEndpoint) (r : LocalRegistry) (k : ℕ) (ep : LocalEndpoint)
    (q j : Text)
    → IsStore r.endpoints
    → IsFresh ids
    → find_clash (list_endpoints r.endpoints) eps ≡ none
    → get_elem? eps k ≡ some ep
    → ((m : ℕ) → 1 ≤ m → text_eq (ids m) j ≡ false)
    → let (r', result) = register_endpoints ids eps r in
      (result ≡ registered (ids 0))
      × (at ep.node_path (ids (suc k)) r'.endpoints ≡ some (stored ids (suc k) ep))
      × (at q j r'.endpoints ≡ at q j r.endpoints)
      × IsStore r'.endpoints
unfolding register_endpoints
register_endpoints_lem ids eps r k ep q j v f clear e h =
    let (result, new) = register_in-eq ids eps r k ep e in
    let index : suc k ≡ 1 + k = omega arith in
    rw (clear, new)
      (
        result,
        rw index (store_all-stored ids 1 k eps ep r.endpoints f e),
        store_all-keeps ids 1 (ids 0) q j eps r.endpoints h,
        store_all-IsStore ids 1 (ids 0) eps r.endpoints v,
      )

at_path : (p q j : Text) (s : LocalEndpointStore) → p ≡ q → at p j s ≡ at q j s
at_path p q j s e = ap (λ x. at x j s) e

-- The check looks at registered endpoints alone: a batch with two plugins for one node path is
-- registered where no plugin stood, and leaves both plugins under that path.
pub two_plugins_registered :
    (ids : ℕ → Text) (a b : LocalEndpoint) (r : LocalRegistry)
    → IsFresh ids
    → find_clash (list_endpoints r.endpoints) (a ∷ b ∷ []) ≡ none
    → b.node_path ≡ a.node_path
    → a.plugin ≡ true
    → b.plugin ≡ true
    → let s = (register_endpoints ids (a ∷ b ∷ []) r).0.endpoints in
      (at a.node_path (ids 1) s ≡ some (stored ids 1 a))
      × (at a.node_path (ids 2) s ≡ some (stored ids 2 b))
      × ((stored ids 1 a).plugin && (stored ids 2 b).plugin ≡ true)
two_plugins_registered ids a b r f clear same pa pb = (
  register_endpoints-stored ids (a ∷ b ∷ []) r 0 a f clear refl,
  at_path a.node_path b.node_path (ids 2) _ (sym same)
      ∙ register_endpoints-stored ids (a ∷ b ∷ []) r 1 b f clear refl,
  rw (pa, pb) refl,
)
