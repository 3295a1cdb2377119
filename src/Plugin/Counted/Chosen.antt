-- ===== src/Plugin/Counted/Chosen.antt =====
-- A chosen backend is one of those that are given.
use nova_airouter.Prelude.{
  ℕ, zero, suc, ◌≡◌, sym, Bool, true, Option, none, some, List, [], ◌∷◌, select, get_elem?, In, inl,
  inr, Bool-cases,
}
use nova_airouter.Balancer.{Float64, Draws, limit}
use nova_airouter.Plugin.{Heap}
use nova_airouter.Plugin.Select.{
  chosen, backend_score, choice_at, candidate_at, pick_backend, score_backends, best_backend_score,
  within_limit, backend_candidates, choose_healthy, select_backend_by_score,
}

chosen_injective : {p q : ℕ} → chosen p ≡ chosen q → p ≡ q
chosen_injective e = cc

elem-In : (ps : List ℕ) (i : ℕ) (p : ℕ) → choice_at (get_elem? ps i) ≡ chosen p → In p ps
unfolding choice_at
elem-In [] i p e = absurd (cc)
elem-In (q ∷ ps) zero p e = inl (chosen_injective (sym e))
elem-In (q ∷ ps) (suc i) p e = inr (elem-In ps i p e)

candidate_at-In : (o : Option ℕ) (ps : List ℕ) (p : ℕ) → candidate_at o ps ≡ chosen p → In p ps
unfolding candidate_at
candidate_at-In none ps p e = absurd (cc)
candidate_at-In (some i) ps p e = elem-In ps i p e

pick_backend-In :
    (below : ℕ → ℕ) (h : Heap) (ps : List ℕ) (p : ℕ) → pick_backend below h ps ≡ chosen p → In p ps
unfolding pick_backend
pick_backend-In below h [] p e = candidate_at-In _ [] p e
pick_backend-In below h (q ∷ []) p e = inl (chosen_injective (sym e))
pick_backend-In below h (q ∷ r ∷ rest) p e = candidate_at-In _ (q ∷ r ∷ rest) p e

pub select-In :
    (test : ℕ → Bool) (p : ℕ) (ps : List ℕ) → In p (select test ps) → In p ps × (test p ≡ true)
select-In test p [] i = elim i [ ]
select-In test p (q ∷ ps) i = elim (Bool-cases (test q)) [
  | inl e ↦ elim (rw e at i) [
    | inl h ↦ (inl h, rw h e)
    | inr j ↦ let (m, t) = select-In test p ps j in (inr m, t)
  ]
  | inr e ↦ let (m, t) = select-In test p ps (rw e at i) in (inr m, t)
]

module _ {R : Type 0} (f : Float64 R) where
  within_limit-In :
      (best : R) (float : ℕ → R) (h : Heap) (n p : ℕ) (ps : List ℕ)
      → In p (within_limit f best (score_backends f float h n ps))
      → In p ps
  unfolding within_limit score_backends
  within_limit-In best float h n p [] i = elim i [ ]
  within_limit-In best float h n p (q ∷ ps) i =
      elim (Bool-cases (f.le (backend_score f (float n) (h q)) (limit f best))) [
        | inl e ↦ elim (rw e at i) [
          | inl s ↦ inl s
          | inr j ↦ inr (within_limit-In best float h (suc n) p ps j)
        ]
        | inr e ↦ inr (within_limit-In best float h (suc n) p ps (rw e at i))
      ]

  candidates-In :
      (float : ℕ → R) (h : Heap) (p : ℕ) (ps : List ℕ)
      → In p (backend_candidates f (score_backends f float h 0 ps))
      → In p ps
  unfolding score_backends backend_candidates
  candidates-In float h p [] i = elim i [ ]
  candidates-In float h p (q ∷ ps) i =
      within_limit-In
        (best_backend_score f (backend_score f (float 0) (h q)) (score_backends f float h 1 ps))
        float h 0 p (q ∷ ps) i

  choose_healthy-In :
      (d : Draws R) (h : Heap) (ps : List ℕ) (p : ℕ) → choose_healthy f d h ps ≡ chosen p → In p ps
  unfolding choose_healthy
  choose_healthy-In d h [] p e = absurd (cc)
  choose_healthy-In d h (q ∷ []) p e = inl (chosen_injective (sym e))
  choose_healthy-In d h (q ∷ r ∷ rest) p e =
      candidates-In d.float h p (q ∷ r ∷ rest) (pick_backend-In d.below h _ p e)

  -- A chosen backend is listed, and healthy.
  pub select_backend_by_score-In :
      (d : Draws R) (h : Heap) (ps : List ℕ) (p : ℕ)
      → select_backend_by_score f d h ps ≡ chosen p
      → In p ps × ((h p).healthy ≡ true)
  unfolding select_backend_by_score
  select_backend_by_score-In d h ps p e =
      select-In (λ p. (h p).healthy) p ps (choose_healthy-In d h _ p e)
