-- ===== src/Registry/Local/Sweep.antt =====
-- A loop over all endpoints acts on each endpoint once, at its own place.
use nova_airouter.Prelude.{
  subst, ◌≡◌, refl, sym, ◌∙◌, Bool, true, false, ◌&&◌, if◌then◌else◌, Option, none, some, List, [],
  ◌∷◌, ◌++◌, inl, inr, ◌⊎◌, exists, In, All, Text, text_eq, text_eq_iff, Dict, lookup, Distinct,
  lookup_of_In, In-of_lookup, arith, Bool-cases, Option-cases,
}
use nova_airouter.Models.Endpoint.{
  LocalEndpoint, LocalEndpointStore, values, list_endpoints, sub_in,
}
use nova_airouter.Models.Endpoint.Keys.{at, IsStore}
use nova_airouter.Registry.Local.{sweep}

-- The endpoint stands at a path and id.
abbrev pub stands_at : Text → Text → LocalEndpoint → Bool
stands_at q j ep = text_eq ep.node_path q && text_eq ep.ep_id j

abbrev pub after :
    (LocalEndpoint → Option LocalEndpoint) → Option LocalEndpoint → Option LocalEndpoint
after h none = none
after h (some ep) = h ep

In-append : {A : Type 0} (a : A) (xs ys : List A) → In a xs ⊎ In a ys → In a (xs ++ ys)
In-append a [] ys (inl i) = elim i [ ]
In-append a [] ys (inr i) = i
In-append a (x ∷ xs) ys (inl (inl e)) = inl e
In-append a (x ∷ xs) ys (inl (inr i)) = inr (In-append a xs ys (inl i))
In-append a (x ∷ xs) ys (inr i) = inr (In-append a xs ys (inr i))

In-of_append : {A : Type 0} (a : A) (xs ys : List A) → In a (xs ++ ys) → In a xs ⊎ In a ys
In-of_append a [] ys i = inr i
In-of_append a (x ∷ xs) ys (inl e) = inl (inl e)
In-of_append a (x ∷ xs) ys (inr i) = elim (In-of_append a xs ys i) [
  | inl k ↦ inl (inr k)
  | inr k ↦ inr k
]

In-values :
    (j : Text) (ep : LocalEndpoint) (m : Dict LocalEndpoint) → In (j, ep) m → In ep (values m)
In-values j ep ((k, e) ∷ m) (inl p) = inl (ground arith)
In-values j ep ((k, e) ∷ m) (inr i) = inr (In-values j ep m i)
In-values j ep [] i = elim i [ ]

In-of_values :
    (ep : LocalEndpoint) (m : Dict LocalEndpoint) → In ep (values m) → (j : Text) × In (j, ep) m
In-of_values ep ((k, e) ∷ m) (inl p) = (k, inl (ground arith))
In-of_values ep ((k, e) ∷ m) (inr i) = let (j, k') = In-of_values ep m i in (j, inr k')
In-of_values ep [] i = elim i [ ]

In-list :
    (path : Text) (sub : Dict LocalEndpoint) (ep : LocalEndpoint) (s : LocalEndpointStore)
    → In (path, sub) s
    → In ep (values sub)
    → In ep (list_endpoints s)
unfolding list_endpoints
In-list path sub ep ((p, m) ∷ s) (inl e) i =
    In-append ep (values m) (list_endpoints s) (inl (ground arith))
In-list path sub ep ((p, m) ∷ s) (inr k) i =
    In-append ep (values m) (list_endpoints s) (inr (In-list path sub ep s k i))
In-list path sub ep [] k i = elim k [ ]

In-of_list :
    (ep : LocalEndpoint) (s : LocalEndpointStore)
    → In ep (list_endpoints s)
    → (path : Text) × (sub : Dict LocalEndpoint) × In (path, sub) s × In ep (values sub)
unfolding list_endpoints
In-of_list ep [] i = elim i [ ]
In-of_list ep ((p, m) ∷ s) i = elim (In-of_append ep (values m) (list_endpoints s) i) [
  | inl k ↦ (p, m, inl refl, k)
  | inr k ↦ let (path, sub, a, b) = In-of_list ep s k in (path, sub, inr a, b)
]

at_of_lookups :
    (q j : Text) (sub : Dict LocalEndpoint) (s : LocalEndpointStore)
    → lookup q s ≡ some sub
    → at q j s ≡ lookup j sub
unfolding at
at_of_lookups q j sub s e = rw e refl

at_of_none : (q j : Text) (s : LocalEndpointStore) → lookup q s ≡ none → at q j s ≡ none
unfolding at lookup
at_of_none q j s e = rw e refl

-- What stands at a path and id is listed.
pub listed_of_at :
    (q j : Text) (ep : LocalEndpoint) (s : LocalEndpointStore)
    → at q j s ≡ some ep
    → In ep (list_endpoints s)
listed_of_at q j ep s e = elim (Option-cases (lookup q s)) [
  | inl h ↦ absurd (cc (at_of_none q j s h))
  | inr (sub, h) ↦
      In-list q sub ep s (In-of_lookup q sub s h)
        (In-values j ep sub (In-of_lookup j ep sub (sym (at_of_lookups q j sub s h) ∙ e)))
]

at_cong : (p q j k : Text) (s : LocalEndpointStore) → p ≡ q → j ≡ k → at p j s ≡ at q k s
at_cong p q j k s a b = cc

-- What is listed stands at its own path and id.
pub at_of_listed :
    (ep : LocalEndpoint) (s : LocalEndpointStore)
    → IsStore s
    → In ep (list_endpoints s)
    → at ep.node_path ep.ep_id s ≡ some ep
at_of_listed ep s v i =
    let (path, sub, a, b) = In-of_list ep s i in
    let (j, c) = In-of_values ep sub b in
    let found = lookup_of_In path sub s v.paths a in
    let distinct = subst (λ o. Distinct (sub_in o)) found (v.ids path) in
    let here = at_of_lookups path j sub s found ∙ lookup_of_In j ep sub distinct c in
    let key = v.own_key path j ep here in at_cong _ _ _ _ s key.0 key.1 ∙ here

-- Every listed endpoint stands at its own place in a store.
abbrev pub Stand : LocalEndpointStore → List LocalEndpoint → Type 0
Stand s = All (λ ep. at ep.node_path ep.ep_id s ≡ some ep)

All-In : {A : Type 0} {P : A → Type 0} (xs : List A) → ((a : A) → In a xs → P a) → All P xs
All-In [] f = tt
All-In (x ∷ xs) f = (f x (inl refl), All-In xs (λ a i. f a (inr i)))

-- What an action on one endpoint does: it replaces what stands at its place.
abbrev pub Acts :
    (LocalEndpoint → Bool)
    → (LocalEndpoint → LocalEndpointStore → LocalEndpointStore)
    → (LocalEndpoint → Option LocalEndpoint)
    → Type 0
Acts test act h =
    (ep : LocalEndpoint) (s : LocalEndpointStore) (q j : Text)
    → test ep ≡ true
    → at q j (act ep s) ≡ (if stands_at q j ep then h ep else at q j s)

abbrev pub tested : (LocalEndpoint → Bool) → Option LocalEndpoint → Bool
tested test none = false
tested test (some ep) = test ep

module _ (test : LocalEndpoint → Bool)
    (act : LocalEndpoint → LocalEndpointStore → LocalEndpointStore)
    (h : LocalEndpoint → Option LocalEndpoint) (acts : Acts test act h) where
  abbrev hits : Text → Text → List LocalEndpoint → Bool
  hits q j = exists (λ ep. test ep && stands_at q j ep)

  found_at :
      (q j : Text) (ep : LocalEndpoint) (s₀ : LocalEndpointStore)
      → at ep.node_path ep.ep_id s₀ ≡ some ep
      → stands_at q j ep ≡ true
      → at q j s₀ ≡ some ep
  found_at q j ep s₀ e k =
      rw
        (
          ← (text_eq_iff ep.node_path q).0 (ground arith),
          ← (text_eq_iff ep.ep_id j).0 (ground arith),
        )
        e

  sweep-at :
      (q j : Text) (eps : List LocalEndpoint) (s₀ s : LocalEndpointStore)
      → Stand s₀ eps
      → at q j (sweep test act eps s) ≡ (if hits q j eps then after h (at q j s₀) else at q j s)
  unfolding sweep
  sweep-at q j [] s₀ s v = refl
  sweep-at q j (ep ∷ eps) s₀ s v =
      let s' = if test ep then act ep s else s in
      ground (arith, sweep-at q j eps s₀ s' v.1, acts ep s q j, found_at q j ep s₀ v.0)

  hits-miss :
      (q j : Text) (ep : LocalEndpoint) (eps : List LocalEndpoint) (s : LocalEndpointStore)
      → Stand s eps
      → at q j s ≡ some ep
      → test ep ≡ false
      → hits q j eps ≡ false
  hits-miss q j ep [] s v e f = refl
  hits-miss q j ep (x ∷ eps) s v e f =
      ground (arith, hits-miss q j ep eps s v.1 e f, found_at q j x s v.0)

  hits-hit :
      (q j : Text) (ep : LocalEndpoint) (eps : List LocalEndpoint)
      → In ep eps
      → (ep.node_path ≡ q) × (ep.ep_id ≡ j)
      → test ep ≡ true
      → hits q j eps ≡ true
  hits-hit q j ep [] i k t = elim i [ ]
  hits-hit q j ep (x ∷ eps) (inl e) k t =
      ground (arith, e, text_eq_iff ep.node_path q, text_eq_iff ep.ep_id j)
  hits-hit q j ep (x ∷ eps) (inr i) k t = ground (arith, hits-hit q j ep eps i k t)

  -- A sweep over all endpoints acts on what passes the test and leaves the rest.
  pub sweep_list :
      (q j : Text) (s : LocalEndpointStore)
      → IsStore s
      → at q j (sweep test act (list_endpoints s) s)
        ≡ (if tested test (at q j s) then after h (at q j s) else at q j s)
  sweep_list q j s v =
      let stand : Stand s (list_endpoints s) =
        All-In (list_endpoints s) (λ ep i. at_of_listed ep s v i) in
      rw (sweep-at q j (list_endpoints s) s s stand) (elim (Option-cases (at q j s)) [
        | inl e ↦ rw e (ground arith)
        | inr (ep, e) ↦ elim (Bool-cases (test ep)) [
          | inl t ↦
              rw
                (
                  hits-hit q j ep (list_endpoints s) (listed_of_at q j ep s e) (v.own_key q j ep e)
                      t,
                  e,
                  t,
                )
                refl
          | inr f ↦ rw (hits-miss q j ep (list_endpoints s) s stand e f, e, f) refl
        ]
      ])
