-- ===== src/Balancer/Weighted.antt =====
-- The weighted choice of an index.
use nova_airouter.Prelude.{
  ℕ, zero, suc, ◌+◌, ◌-◌, ◌≤◌, ◌<◌, ℤ, pos, ◌+ℤ◌, ◌-ℤ◌, i32, ◌≡◌, refl, ◌∙◌, if◌then◌else◌, some,
  List, [], ◌∷◌, map, get_elem?, arith, ltb, ap, Bool-cases, inl, inr,
}
use nova_airouter.Balancer.{locate, sum_weights, or_last, weighted_random_index}

-- The weights before an index.
abbrev pub before : ℕ → List ℕ → ℕ
before i [] = 0
before zero (w ∷ ws) = 0
before (suc i) (w ∷ ws) = w + before i ws

abbrev pub sum : List ℕ → ℕ
sum [] = 0
sum (w ∷ ws) = w + sum ws

add-pos : (t w : ℕ) → t + w < 2147483648 → i32 (pos t +ℤ pos w) ≡ pos (t + w)
unfolding i32 ◌+ℤ◌
add-pos t w h = ground arith

-- One round of the loop: the draw lies in the first weight, or behind it.
locate_round :
    (n r w : ℕ) (ws : List ℤ)
    → w < 2147483648
    → r < 2147483648
    → locate n (pos r) (pos w ∷ ws) ≡ (if ltb r w then some n else locate (suc n) (pos (r - w)) ws)
unfolding locate
locate_round n r w ws h k = elim (Bool-cases (ltb r w)) [
  | inl e ↦ rw e (unfold i32 ◌-ℤ◌ in ground arith)
  | inr e ↦
      let back : i32 (pos r -ℤ pos w) ≡ pos (r - w) = unfold i32 ◌-ℤ◌ in ground arith in
      rw (e, back) (ground arith)
]

sum_weights-pos :
    (t : ℕ) (ws : List ℕ)
    → t + sum ws < 2147483648
    → sum_weights (pos t) (map pos ws) ≡ pos (t + sum ws)
unfolding sum_weights
sum_weights-pos t [] h = ground arith
sum_weights-pos t (w ∷ ws) h =
    ap (λ z. sum_weights z (map pos ws)) (add-pos t w (omega arith))
    ∙ sum_weights-pos (t + w) ws (omega arith)
    ∙ ap pos (omega arith)

-- The weight at an index takes the draws from the weights before it on.
abbrev pub Hits : ℕ → List ℕ → ℕ → Type 0
Hits r ws i = (w : ℕ) × (get_elem? ws i ≡ some w) × (before i ws ≤ r) × (r < before i ws + w)

locate-Hits :
    (n r : ℕ) (ws : List ℕ)
    → sum ws < 2147483648
    → r < sum ws
    → (i : ℕ) × (locate n (pos r) (map pos ws) ≡ some (n + i)) × Hits r ws i
locate-Hits n r [] h k = absurd (omega arith)
locate-Hits n r (w ∷ ws) h k = elim (Bool-cases (ltb r w)) [
  | inl e ↦ (
    0,
    locate_round n r w (map pos ws) (omega arith) (omega arith) ∙ rw e (ap some (omega arith)),
    (w, refl, omega arith, ground arith),
  )
  | inr e ↦
      let (i, found, (v, at, lo, hi)) =
        locate-Hits (suc n) (r - w) ws (omega arith) (ground arith) in
      (
        suc i,
        locate_round n r w (map pos ws) (omega arith) (omega arith)
            ∙ rw (e, found) (ap some (omega arith)),
        (v, at, ground arith, ground arith),
      )
]

found :
    (below : ℕ → ℕ) (ws : List ℕ) (i : ℕ)
    → 0 < sum ws
    → sum_weights (pos 0) (map pos ws) ≡ pos (sum ws)
    → locate 0 (pos (below (sum ws))) (map pos ws) ≡ some (0 + i)
    → weighted_random_index below (map pos ws) ≡ some i
unfolding weighted_random_index or_last
found below ws i p s e = let index : 0 + i ≡ i = omega arith in rw (s, e, index) (ground arith)

-- A choice by weight: where the weights sum to less than 2^31 and not to 0, the draw r below the sum
-- picks the index whose weight, after the weights before it, covers r; so each index is picked by as
-- many draws as its weight says.
pub weighted_random_index_lem :
    (below : ℕ → ℕ) (ws : List ℕ)
    → 0 < sum ws
    → sum ws < 2147483648
    → below (sum ws) < sum ws
    → (i : ℕ) × (weighted_random_index below (map pos ws) ≡ some i) × Hits (below (sum ws)) ws i
unfolding weighted_random_index
weighted_random_index_lem below ws p h k =
    let (i, e, hits) = locate-Hits 0 (below (sum ws)) ws h k in
    (i, found below ws i p (sum_weights-pos 0 ws (omega arith) ∙ ap pos (omega arith)) e, hits)
