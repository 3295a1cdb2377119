-- ===== src/Prelude/Maps.antt =====
-- A Go `map[string]V` as an association list. Go leaves the order of a `range` over a map open;
-- here it is the list's order, so a theorem about every list is one about every order.
use mathlib.Core.Path.{◌≡◌, refl, ap, ◌∙◌}
use mathlib.Core.Logic.{inl, inr}
use nova_airouter.Prelude.Lists.{In}
use mathlib.Core.List.{List, [], ◌∷◌}
use mathlib.Core.Bool.{Bool}
use mathlib.Core.Option.{Option, none, some}
use mathlib.Core.Option
use native.Mathlib.Omega.{arith}
use nova_airouter.Prelude.Tests.{if◌then◌else◌, Bool-cases}
use nova_airouter.Prelude.Bytes.{Text, text_eq, text_eq_iff, text_eq_refl}

abbrev pub Dict {ℓ} : Type ℓ → Type ℓ
Dict V = List (Text × V)

module _ {ℓ} {V : Type ℓ} where
  unfoldable pub lookup : Text → Dict V → Option V
  lookup k [] = none
  lookup k ((j, v) ∷ m) = if text_eq j k then some v else lookup k m

  unfoldable pub insert : Text → V → Dict V → Dict V
  insert k v [] = (k, v) ∷ []
  insert k v ((j, w) ∷ m) = if text_eq j k then (k, v) ∷ m else (j, w) ∷ insert k v m

  -- `delete(m, k)`.
  unfoldable pub delete : Text → Dict V → Dict V
  delete k [] = []
  delete k ((j, w) ∷ m) = let rest = delete k m in if text_eq j k then rest else (j, w) ∷ rest

  -- Every value rewritten in place, as a `range` over pointers does.
  unfoldable pub map_values : (Text → V → V) → Dict V → Dict V
  map_values f [] = []
  map_values f ((j, w) ∷ m) = (j, f j w) ∷ map_values f m

  -- The entries that pass the test stay, as a `range` with `delete` leaves them.
  unfoldable pub keep_if : (Text → V → Bool) → Dict V → Dict V
  keep_if p [] = []
  keep_if p ((j, w) ∷ m) = let rest = keep_if p m in if p j w then (j, w) ∷ rest else rest

  pub lookup-insert :
      (k j : Text) (v : V) (m : Dict V)
      → lookup j (insert k v m) ≡ (if text_eq k j then some v else lookup j m)
  unfolding lookup insert
  lookup-insert k j v [] = refl
  lookup-insert k j v ((i, w) ∷ m) =
      ground (arith, text_eq_iff k j, text_eq_iff i k, text_eq_iff i j, lookup-insert k j v m)

  pub lookup-insert_self : (k : Text) (v : V) (m : Dict V) → lookup k (insert k v m) ≡ some v
  lookup-insert_self k v m =
      lookup-insert k k v m ∙ ap (λ b. if b then some v else lookup k m) (text_eq_refl k)

  pub lookup-delete :
      (k j : Text) (m : Dict V) → lookup j (delete k m) ≡ (if text_eq k j then none else lookup j m)
  unfolding lookup delete
  lookup-delete k j [] = ground arith
  lookup-delete k j ((i, w) ∷ m) =
      ground (arith, text_eq_iff k j, text_eq_iff i k, text_eq_iff i j, lookup-delete k j m)

  pub lookup-map_values :
      (f : Text → V → V) (k : Text) (m : Dict V)
      → lookup k (map_values f m) ≡ Option.map (f k) (lookup k m)
  unfolding lookup map_values
  lookup-map_values f k [] = refl
  lookup-map_values f k ((i, w) ∷ m) = ground (arith, text_eq_iff i k, lookup-map_values f k m)

module _ {V : Type 0} where
  -- No key stands twice, as in every Go map.
  abbrev pub Distinct : Dict V → Type 0
  Distinct [] = Unit
  Distinct ((k, v) ∷ m) = (lookup k m ≡ none) × Distinct m

  -- An entry passes through a test.
  abbrev pub kept : (V → Bool) → Option V → Option V
  kept p none = none
  kept p (some v) = if p v then some v else none

  pub insert-Distinct : (k : Text) (v : V) (m : Dict V) → Distinct m → Distinct (insert k v m)
  unfolding insert
  insert-Distinct k v [] d = (unfold lookup in refl, tt)
  insert-Distinct k v ((j, w) ∷ m) d =
      ground
        (arith, text_eq_iff j k, text_eq_iff k j, lookup-insert k j v m, insert-Distinct k v m d.1)

  pub delete-Distinct : (k : Text) (m : Dict V) → Distinct m → Distinct (delete k m)
  unfolding delete
  delete-Distinct k [] d = tt
  delete-Distinct k ((j, w) ∷ m) d = ground (arith, lookup-delete k j m, delete-Distinct k m d.1)

  pub map_values-Distinct : (f : Text → V → V) (m : Dict V) → Distinct m → Distinct (map_values f m)
  unfolding map_values
  map_values-Distinct f [] d = tt
  map_values-Distinct f ((j, w) ∷ m) d =
      (rw (lookup-map_values f j m, d.0) refl, map_values-Distinct f m d.1)

  keep_if-none :
      (p : Text → V → Bool) (k : Text) (m : Dict V)
      → lookup k m ≡ none
      → lookup k (keep_if p m) ≡ none
  unfolding lookup keep_if
  keep_if-none p k [] h = refl
  keep_if-none p k ((j, w) ∷ m) h = ground (arith, keep_if-none p k m)

  pub keep_if-Distinct : (p : Text → V → Bool) (m : Dict V) → Distinct m → Distinct (keep_if p m)
  unfolding keep_if
  keep_if-Distinct p [] d = tt
  keep_if-Distinct p ((j, w) ∷ m) d = ground (arith, keep_if-none p j m, keep_if-Distinct p m d.1)

  pub lookup-keep_if :
      (p : Text → V → Bool) (k : Text) (m : Dict V)
      → Distinct m
      → lookup k (keep_if p m) ≡ kept (p k) (lookup k m)
  unfolding lookup keep_if
  lookup-keep_if p k [] d = refl
  lookup-keep_if p k ((j, w) ∷ m) d =
      ground (arith, text_eq_iff j k, keep_if-none p j m, lookup-keep_if p k m d.1)

  -- What stands in the list is what the key gives.
  pub lookup_of_In :
      (k : Text) (v : V) (m : Dict V) → Distinct m → In (k, v) m → lookup k m ≡ some v
  unfolding lookup
  lookup_of_In k v ((j, w) ∷ m) d (inl e) = ground (arith, text_eq_iff j k)
  lookup_of_In k v ((j, w) ∷ m) d (inr i) =
      ground (arith, text_eq_iff j k, lookup_of_In k v m d.1 i)
  lookup_of_In k v [] d i = elim i [ ]

  pub In-of_lookup : (k : Text) (v : V) (m : Dict V) → lookup k m ≡ some v → In (k, v) m
  unfolding lookup
  In-of_lookup k v [] e = absurd (ground arith)
  In-of_lookup k v ((j, w) ∷ m) e = elim (Bool-cases (text_eq j k)) [
    | inl h ↦ inl (ground (arith, text_eq_iff j k))
    | inr h ↦ inr (In-of_lookup k v m (ground arith))
  ]
