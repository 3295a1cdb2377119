-- ===== src/Plugin/Discover/Merge.antt =====
-- models_plugin/sync.go: the merge of the old counts into the new backends.
use nova_airouter.Prelude.{
  ℕ, ◌≤◌, ◌<◌, ◌==◌, ==_iff, true, false, none, some, List, [], ◌∷◌, All, In, inl, inr, Text,
  text_eq, text_eq_iff, Dict, lookup, Distinct, ◌≡◌, ◌≢◌, ◌⊎◌, refl, sym, ap, ◌∙◌, arith,
  Bool-cases, subst,
}
use nova_airouter.Plugin.{Backend, Heap, ModelBackend, write_at, is_at}
use nova_airouter.Plugin.Discover.{backends_in, carried, merge_backends, merge_models}

abbrev pub AreOld : ℕ → List ℕ → Type 0
AreOld k os = All (λ o. o < k) os

-- The heap is unchanged below `k`.
abbrev pub SameBelow : ℕ → Heap → Heap → Type 0
SameBelow k h h' = (p : ℕ) → p < k → h' p ≡ h p

pub carried-SameBelow :
    (k : ℕ) (os : List ℕ) (h h' : Heap) (b : Backend)
    → SameBelow k h h'
    → AreOld k os
    → carried os h' b ≡ carried os h b
unfolding carried
carried-SameBelow k [] h h' b same old = refl
carried-SameBelow k (o ∷ os) h h' b same old =
    rw (same o old.0, carried-SameBelow k os h h' b same old.1) refl

pub carried-address :
    (os : List ℕ) (h : Heap) (b : Backend)
    → ((carried os h b).address ≡ b.address) × ((carried os h b).port ≡ b.port)
unfolding carried
carried-address [] h b = (refl, refl)
carried-address (o ∷ os) h b = elim (Bool-cases (is_at b.address b.port (h o))) [
  | inl e ↦ rw e (refl, refl)
  | inr e ↦ rw e (carried-address os h b)
]

pub carried_skips :
    (o : ℕ) (os : List ℕ) (h : Heap) (b : Backend)
    → is_at b.address b.port (h o) ≡ false
    → carried (o ∷ os) h b ≡ carried os h b
unfolding carried
carried_skips o os h b e = rw e refl

carried_again :
    (os : List ℕ) (h : Heap) (b : Backend) → carried os h (carried os h b) ≡ carried os h b
unfolding carried
carried_again [] h b = refl
carried_again (o ∷ os) h b = elim (Bool-cases (is_at b.address b.port (h o))) [
  | inl e ↦ rw (e, e) refl
  | inr e ↦
      let c = carried os h b in
      let (a, p) = carried-address os h b in
      let step = carried_skips o os h b e in
      let far = ap (λ x. is_at x c.port (h o)) a ∙ ap (λ x. is_at b.address x (h o)) p ∙ e in
      ap (carried (o ∷ os) h) step ∙ carried_skips o os h c far ∙ carried_again os h b ∙ sym step
]

write_at-there : (p q : ℕ) (b : Backend) (h : Heap) → (q == p) ≡ false → write_at p b h q ≡ h q
write_at-there p q b h e = rw e refl

write_at-SameBelow : (k p : ℕ) (b : Backend) (h : Heap) → k ≤ p → SameBelow k h (write_at p b h)
write_at-SameBelow k p b h l = λ q m. ground (arith, ==_iff q p)

merge_backends-SameBelow :
    (k : ℕ) (os ps : List ℕ) (h : Heap)
    → All (λ p. k ≤ p) ps
    → SameBelow k h (merge_backends os ps h)
unfolding merge_backends
merge_backends-SameBelow k os [] h l = λ q m. refl
merge_backends-SameBelow k os (p ∷ ps) h l = λ q m.
    merge_backends-SameBelow k os ps (write_at p (carried os h (h p)) h) l.1 q m
    ∙ write_at-SameBelow k p (carried os h (h p)) h l.0 q m

merge_backends_other :
    (os ps : List ℕ) (q : ℕ) (h : Heap)
    → All (λ p. (q == p) ≡ false) ps
    → merge_backends os ps h q ≡ h q
unfolding merge_backends
merge_backends_other os [] q h a = refl
merge_backends_other os (p ∷ ps) q h a =
    merge_backends_other os ps q _ a.1 ∙ write_at-there p q (carried os h (h p)) h a.0

write_at-here : (p q : ℕ) (b : Backend) (h : Heap) → (q == p) ≡ true → write_at p b h q ≡ b
write_at-here p q b h e = rw e refl

differ : (q p : ℕ) → (q == p) ≡ false → q ≢ p
differ q p e h = absurd (ground (arith, e, h))

In-cases : (q : ℕ) (ps : List ℕ) → In q ps ⊎ All (λ p. (q == p) ≡ false) ps
In-cases q [] = inr tt
In-cases q (p ∷ ps) = elim (Bool-cases (q == p)) [
  | inl e ↦ inl (inl ((==_iff q p).0 e))
  | inr e ↦ elim (In-cases q ps) [ inl i ↦ inl (inr i) | inr a ↦ inr (e, a) ]
]

tail_of : (q p : ℕ) (ps : List ℕ) → (q == p) ≡ false → In q (p ∷ ps) → In q ps
tail_of q p ps e (inl h) = absurd (differ q p e h)
tail_of q p ps e (inr i) = i

-- A backend that is listed takes over from the first old one at its address.
merge_backends_listed :
    (k : ℕ) (os ps : List ℕ) (q : ℕ) (h : Heap)
    → AreOld k os
    → All (λ p. k ≤ p) ps
    → In q ps
    → merge_backends os ps h q ≡ carried os h (h q)
unfolding merge_backends
merge_backends_listed k os [] q h old l i = elim i [ ]
merge_backends_listed k os (p ∷ ps) q h old l i =
    let h' = write_at p (carried os h (h p)) h in
    let same = write_at-SameBelow k p (carried os h (h p)) h l.0 in
    let next = λ (j : In q ps).
      merge_backends_listed k os ps q h' old l.1 j ∙ carried-SameBelow k os h h' (h' q) same old in
    elim (Bool-cases (q == p)) [
      | inl e ↦
          let here =
            write_at-here p q (carried os h (h p)) h e
            ∙ ap (λ x. carried os h (h x)) (sym ((==_iff q p).0 e)) in
          elim (In-cases q ps) [
            | inl j ↦ next j ∙ ap (carried os h) here ∙ carried_again os h (h q)
            | inr j ↦ merge_backends_other os ps q h' j ∙ here
          ]
      | inr e ↦
          next (tail_of q p ps e i)
          ∙ ap (carried os h) (write_at-there p q (carried os h (h p)) h e)
    ]

-- Each backend is listed under the model that owns it, and was allocated from `k` on.
abbrev pub IsOwned : (ℕ → Text) → ℕ → Text → List ℕ → Type 0
IsOwned own k model ps = All (λ p. (own p ≡ model) × (k ≤ p)) ps

abbrev pub AreOwned : (ℕ → Text) → ℕ → Dict ModelBackend → Type 0
AreOwned own k [] = Unit
AreOwned own k ((model, mb) ∷ models) = IsOwned own k model mb.backends × AreOwned own k models

from_owned :
    (own : ℕ → Text) (k : ℕ) (model : Text) (ps : List ℕ)
    → IsOwned own k model ps
    → All (λ p. k ≤ p) ps
from_owned own k model [] o = tt
from_owned own k model (p ∷ ps) o = (o.0.1, from_owned own k model ps o.1)

other_text : (s t : Text) → text_eq s t ≡ false → s ≢ t
other_text s t e h = absurd (ground (arith, e, (text_eq_iff s t).1 h))

flip_text : (s t : Text) → text_eq s t ≡ false → text_eq t s ≡ false
flip_text s t e = ground (arith, text_eq_iff s t, text_eq_iff t s)

none-some : {mb : ModelBackend} → none ≢ some mb
none-some e = absurd (cc)

not_listed :
    (own : ℕ → Text) (k q : ℕ) (model : Text) (ps : List ℕ)
    → IsOwned own k model ps
    → text_eq (own q) model ≡ false
    → All (λ p. (q == p) ≡ false) ps
not_listed own k q model [] o e = tt
not_listed own k q model (p ∷ ps) o e = (
  elim (Bool-cases (q == p)) [
    | inl s ↦ absurd (other_text (own q) model e (ap own ((==_iff q p).0 s) ∙ o.0.0))
    | inr s ↦ s
  ],
  not_listed own k q model ps o.1 e,
)

-- The models that do not own a backend leave it as it is.
merge_models_other :
    (own : ℕ → Text) (k q : ℕ) (old models : Dict ModelBackend) (h : Heap)
    → AreOwned own k models
    → lookup (own q) models ≡ none
    → merge_models old models h q ≡ h q
unfolding merge_models lookup
merge_models_other own k q old [] h o e = refl
merge_models_other own k q old ((model, mb) ∷ models) h o e =
    elim (Bool-cases (text_eq model (own q))) [
      | inl t ↦ absurd (none-some (sym (rw t at e)))
      | inr t ↦
          merge_models_other own k q old models _ o.1 (rw t at e)
          ∙ merge_backends_other (backends_in (lookup model old)) mb.backends q h
              (not_listed own k q model mb.backends o.0 (flip_text model (own q) t))
    ]

same_model : {a b : ModelBackend} → some a ≡ some b → a ≡ b
same_model e = cc

pub merge_models_listed :
    (own : ℕ → Text) (k q : ℕ) (model : Text) (mb : ModelBackend) (old models : Dict ModelBackend)
    (h : Heap)
    → Distinct models
    → AreOwned own k models
    → lookup model models ≡ some mb
    → In q mb.backends
    → own q ≡ model
    → AreOld k (backends_in (lookup model old))
    → merge_models old models h q ≡ carried (backends_in (lookup model old)) h (h q)
unfolding merge_models lookup
merge_models_listed own k q model mb old [] h d o l i w below = absurd (cc)
merge_models_listed own k q model mb old ((j, x) ∷ models) h d o l i w below =
    elim (Bool-cases (text_eq j model)) [
      | inl t ↦
          let same = (text_eq_iff j model).0 t in
          let os = backends_in (lookup model old) in
          merge_models_other own k q old models
            (merge_backends (backends_in (lookup j old)) x.backends h) o.1
            (subst (λ y. lookup y models ≡ none) (same ∙ sym w) d.0)
          ∙ ap (λ y. merge_backends (backends_in (lookup y old)) x.backends h q) same
          ∙ merge_backends_listed k os x.backends q h below (from_owned own k j x.backends o.0)
              (subst (λ y. In q y.backends) (sym (same_model (rw t at l))) i)
      | inr t ↦
          let os = backends_in (lookup model old) in
          let h' = merge_backends (backends_in (lookup j old)) x.backends h in
          let far = subst (λ y. text_eq y j ≡ false) (sym w) (flip_text j model t) in
          merge_models_listed own k q model mb old models h' d.1 o.1 (rw t at l) i w below
          ∙ carried-SameBelow k os h h' (h' q)
              (merge_backends-SameBelow k (backends_in (lookup j old)) x.backends h
                (from_owned own k j x.backends o.0))
              below
          ∙ ap (carried os h) (
              merge_backends_other (backends_in (lookup j old)) x.backends q h
                (not_listed own k q j x.backends o.0 far))
    ]
