-- ===== src/Balancer/Selected.antt =====
-- The choice of a node: one of the given ones.
use nova_airouter.Prelude.{
  ℕ, zero, suc, ◌+◌, ◌≤◌, ◌<◌, ℤ, pos, pos_part, ◌-ℤ◌, i32, leb_ℤ, ltb_ℤ, ◌≡◌, ◌≢◌, refl, ◌∙◌,
  if◌then◌else◌, Option, none, some, List, [], ◌∷◌, map, length, get_elem?, select, In, All, inl,
  inr, Bool, true, ap, arith, Bool-cases, sym, subst, ◌⊎◌,
}
use nova_airouter.Models.Node.{RemoteNode}
use nova_airouter.Balancer.{
  Float64, Draws, picked, locate, sum_weights, intn_in, or_last, weighted_random_index, weight,
  picked_in, at_index, pick, score, score_all, best_score, limit, first_score, nodes_of, candidates,
  select_node,
}

-- A draw below a number that is not 0 is below it.
abbrev pub IsDraw : (ℕ → ℕ) → Type 0
IsDraw below = (n : ℕ) → 0 < n → below n < n

locate_bound :
    (n m : ℕ) (r : ℤ) (ws : List ℤ) → n + length ws ≤ m → 0 < m → or_last m (locate n r ws) < m
unfolding locate or_last
locate_bound n m r [] h p = omega arith
locate_bound n m r (w ∷ ws) h p = elim (Bool-cases (ltb_ℤ (i32 (r -ℤ w)) (pos 0))) [
  | inl e ↦ rw e (omega arith)
  | inr e ↦ rw e (locate_bound (suc n) m (i32 (r -ℤ w)) ws (omega arith) p)
]

weighted_random_index_bound :
    (below : ℕ → ℕ) (w : ℤ) (ws : List ℤ)
    → IsDraw below
    → (i : ℕ) × (weighted_random_index below (w ∷ ws) ≡ some i) × (i < length (w ∷ ws))
unfolding weighted_random_index intn_in
weighted_random_index_bound below w ws d =
    let total = sum_weights (pos 0) (w ∷ ws) in
    elim (Bool-cases (leb_ℤ total (pos 0))) [
      | inl e ↦ (below (length (w ∷ ws)), rw e refl, d (length (w ∷ ws)) (omega arith))
      | inr e ↦ (
        _,
        rw e refl,
        locate_bound 0 (length (w ∷ ws)) (pos (below (pos_part total))) (w ∷ ws) (omega arith)
            (omega arith),
      )
    ]

get_elem?-In :
    {A : Type 0} (xs : List A) (i : ℕ)
    → i < length xs
    → (x : A) × (get_elem? xs i ≡ some x) × In x xs
get_elem?-In [] i h = absurd (omega arith)
get_elem?-In (x ∷ xs) zero h = (x, refl, inl refl)
get_elem?-In (x ∷ xs) (suc i) h = let (y, e, m) = get_elem?-In xs i (omega arith) in (y, e, inr m)

length-map : {A B : Type 0} (f : A → B) (xs : List A) → length (map f xs) ≡ length xs
length-map f [] = refl
length-map f (x ∷ xs) = omega (arith, length-map f xs)

pick-In :
    (below : ℕ → ℕ) (n : RemoteNode) (nodes : List RemoteNode)
    → IsDraw below
    → (node : RemoteNode) × (pick below (n ∷ nodes) ≡ picked node) × In node (n ∷ nodes)
unfolding pick at_index picked_in
pick-In below n [] d = (n, refl, inl refl)
pick-In below n (b ∷ rest) d =
    let (i, e, h) = weighted_random_index_bound below (weight n) (map weight (b ∷ rest)) d in
    let (node, at, m) = get_elem?-In (n ∷ b ∷ rest) i (omega (arith, h, length-map weight rest)) in
    (node, rw (e, at) refl, m)

picked_injective : {m n : RemoteNode} → picked m ≡ picked n → m ≡ n
picked_injective e = cc

elem-In :
    (xs : List RemoteNode) (i : ℕ) (x : RemoteNode)
    → picked_in (get_elem? xs i) ≡ picked x
    → In x xs
unfolding picked_in
elem-In [] i x e = absurd (cc)
elem-In (y ∷ ys) zero x e = inl (picked_injective (sym e))
elem-In (y ∷ ys) (suc i) x e = inr (elem-In ys i x e)

at_index-picked :
    (o : Option ℕ) (nodes : List RemoteNode) (node : RemoteNode)
    → at_index o nodes ≡ picked node
    → In node nodes
unfolding at_index
at_index-picked none nodes node e = absurd (cc)
at_index-picked (some i) nodes node e = elem-In nodes i node e

pick-picked :
    (below : ℕ → ℕ) (nodes : List RemoteNode) (node : RemoteNode)
    → pick below nodes ≡ picked node
    → In node nodes
unfolding pick
pick-picked below [] node e = at_index-picked _ [] node e
pick-picked below (n ∷ []) node e = inl (picked_injective (sym e))
pick-picked below (a ∷ b ∷ rest) node e = at_index-picked _ (a ∷ b ∷ rest) node e

pick_all :
    {Q : RemoteNode → Type 0} (below : ℕ → ℕ) (nodes : List RemoteNode)
    → IsDraw below
    → length nodes ≢ 0
    → ((node : RemoteNode) → In node nodes → Q node)
    → (node : RemoteNode) × (pick below nodes ≡ picked node) × Q node
pick_all below [] d h q = absurd (h refl)
pick_all below (n ∷ nodes) d h q = let (node, e, m) = pick-In below n nodes d in (node, e, q node m)

module _ {R : Type 0} (f : Float64 R) where
  -- A score is within the limit of itself.
  abbrev pub IsWithin : RemoteNode × R → Type 0
  IsWithin s = f.le s.1 (limit f s.1) ≡ true

  -- The best score is the one that the loop starts from, or that of a listed node.
  best_score-listed :
      (best : R) (scores : List (RemoteNode × R))
      → (best_score f best scores ≡ best)
        ⊎ ((s : RemoteNode × R) × In s scores × (s.1 ≡ best_score f best scores))
  unfolding best_score
  best_score-listed best [] = inl refl
  best_score-listed best ((n, s) ∷ rest) =
      elim (best_score-listed (if f.lt s best then s else best) rest) [
        | inl e ↦ elim (Bool-cases (f.lt s best)) [
          | inl t ↦ inr ((n, s), inl refl, sym (e ∙ rw t refl))
          | inr t ↦ inl (e ∙ rw t refl)
        ]
        | inr (x, m, e) ↦ inr (x, inr m, e)
      ]

  all_in :
      (P : RemoteNode × R → Type 0) (xs : List (RemoteNode × R)) (x : RemoteNode × R)
      → All P xs
      → In x xs
      → P x
  all_in P [] x a m = elim m [ ]
  all_in P (y ∷ ys) x a (inl e) = subst P (sym e) a.0
  all_in P (y ∷ ys) x a (inr m) = all_in P ys x a.1 m

  nodes_of-select :
      (test : RemoteNode × R → Bool) (xs : List (RemoteNode × R)) (x : RemoteNode × R)
      → In x xs
      → test x ≡ true
      → length (nodes_of f (select test xs)) ≢ 0
  nodes_of-select test [] x m t = elim m [ ]
  nodes_of-select test (y ∷ ys) x (inl e) t = rw (← e, t) (λ z. absurd (omega arith))
  nodes_of-select test (y ∷ ys) x (inr m) t = elim (Bool-cases (test y)) [
    | inl e ↦ rw e (λ z. absurd (omega arith))
    | inr e ↦ rw e (nodes_of-select test ys x m t)
  ]

  nodes_of-kept :
      (test : RemoteNode × R → Bool) (float : ℕ → R) (n : ℕ) (nodes : List RemoteNode)
      (node : RemoteNode)
      → In node (nodes_of f (select test (score_all f float n nodes)))
      → In node nodes
  unfolding score_all
  nodes_of-kept test float n [] node m = elim m [ ]
  nodes_of-kept test float n (x ∷ xs) node m = elim (Bool-cases (test (x, score f (float n) x))) [
    | inl e ↦ elim (rw e at m) [
      | inl h ↦ inl h
      | inr h ↦ inr (nodes_of-kept test float (suc n) xs node h)
    ]
    | inr e ↦ inr (nodes_of-kept test float (suc n) xs node (rw e at m))
  ]

  candidates-nonempty :
      (a : RemoteNode × R) (rest : List (RemoteNode × R))
      → All IsWithin (a ∷ rest)
      → length (candidates f (a ∷ rest)) ≢ 0
  unfolding candidates first_score
  candidates-nonempty a rest w =
      let scores = a ∷ rest in
      let test = λ (s : RemoteNode × R). f.le s.1 (limit f (best_score f a.1 scores)) in
      elim (best_score-listed a.1 scores) [
        | inl e ↦ nodes_of-select test scores a (inl refl) (ap (λ b. f.le a.1 (limit f b)) e ∙ w.0)
        | inr (x, m, e) ↦
            nodes_of-select test scores x m
              (ap (λ b. f.le x.1 (limit f b)) (sym e) ∙ all_in IsWithin scores x w m)
      ]

  -- With fair draws, and where each score is within the limit that it sets itself, as every number
  -- from 0 on is, the balancer picks one of the nodes that it is given, and does not panic.
  pub select_node_lem :
      (d : Draws R) (n : RemoteNode) (nodes : List RemoteNode)
      → IsDraw d.below
      → All IsWithin (score_all f d.float 0 (n ∷ nodes))
      → (node : RemoteNode) × (select_node f d (n ∷ nodes) ≡ picked node) × In node (n ∷ nodes)
  unfolding select_node
  select_node_lem d n [] draw w = (n, refl, inl refl)
  select_node_lem d n (b ∷ rest) draw w =
      let scores = score_all f d.float 0 (n ∷ b ∷ rest) in
      pick_all d.below (candidates f scores) draw
        (unfold score_all in
          candidates-nonempty (n, score f (d.float 0) n) (score_all f d.float 1 (b ∷ rest)) w)
        (λ node m. unfold candidates in nodes_of-kept _ d.float 0 (n ∷ b ∷ rest) node m)

  -- Whatever is drawn, a node that is picked is one of those given.
  pub select_node-picked :
      (d : Draws R) (nodes : List RemoteNode) (node : RemoteNode)
      → select_node f d nodes ≡ picked node
      → In node nodes
  unfolding select_node
  select_node-picked d [] node e = absurd (cc)
  select_node-picked d (n ∷ []) node e = inl (picked_injective (sym e))
  select_node-picked d (a ∷ b ∷ rest) node e =
      unfold candidates in
      nodes_of-kept _ d.float 0 (a ∷ b ∷ rest) node (pick-picked d.below _ node e)
