-- ===== src/Prelude/Strings.antt =====
-- The functions of Go's `strings` package that the program calls, over bytes.
use Prim.Native.Nat.{ℕ}
use mathlib.Core.Path.{◌≡◌, refl, ap}
use mathlib.Core.List.{[], ◌∷◌, ◌++◌}
use mathlib.Core.Bool.{Bool, true, ◌||◌}
use mathlib.Core.Option.{Option, none, some}
use native.Mathlib.Omega.{arith}
use nova_airouter.Prelude.Tests.{◌==◌, is_some, if◌then◌else◌}
use nova_airouter.Prelude.Bytes.{Text, text_eq}

-- What follows the prefix `p`, if the text begins with it.
unfoldable pub strip_prefix : Text → Text → Option Text
strip_prefix [] s = some s
strip_prefix (c ∷ p) [] = none
strip_prefix (c ∷ p) (d ∷ s) = if c == d then strip_prefix p s else none

-- `strings.HasPrefix(s, p)`.
abbrev pub has_prefix : Text → Text → Bool
has_prefix s p = is_some (strip_prefix p s)

-- `strings.TrimPrefix(s, p)`.
abbrev pub trim_prefix : Text → Text → Text
trim_prefix s p = elim (strip_prefix p s) [ none ↦ s | some rest ↦ rest ]

-- `strings.HasSuffix(s, p)`.
unfoldable pub has_suffix : Text → Text → Bool
has_suffix [] p = text_eq [] p
has_suffix (c ∷ s) p = text_eq (c ∷ s) p || has_suffix s p

-- `strings.TrimSuffix(s, p)`.
unfoldable pub trim_suffix : Text → Text → Text
trim_suffix [] p = []
trim_suffix (c ∷ s) p = if text_eq (c ∷ s) p then [] else c ∷ trim_suffix s p

-- `s[:len(s)-1]`, on a text that is not empty.
unfoldable pub drop_last : Text → Text
drop_last [] = []
drop_last (c ∷ []) = []
drop_last (c ∷ d ∷ s) = c ∷ drop_last (d ∷ s)

pub strip_prefix-append : (p s : Text) → strip_prefix p (p ++ s) ≡ some s
unfolding strip_prefix
strip_prefix-append [] s = refl
strip_prefix-append (c ∷ p) s = ground (arith, strip_prefix-append p s)

pub strip_prefix_sound : (p s r : Text) → strip_prefix p s ≡ some r → s ≡ p ++ r
unfolding strip_prefix
strip_prefix_sound [] s r e = ground arith
strip_prefix_sound (c ∷ p) [] r e = ground arith
strip_prefix_sound (c ∷ p) (d ∷ s) r e = ground (arith, strip_prefix_sound p s r)

pub has_suffix-append : (s : Text) (b : ℕ) → has_suffix (s ++ b ∷ []) (b ∷ []) ≡ true
unfolding has_suffix text_eq
has_suffix-append [] b = ground arith
has_suffix-append (c ∷ s) b = ground (arith, has_suffix-append s b)

pub has_suffix_sound : (s : Text) (b : ℕ) → has_suffix s (b ∷ []) ≡ true → s ≡ drop_last s ++ b ∷ []
unfolding has_suffix text_eq drop_last
has_suffix_sound [] b h = ground arith
has_suffix_sound (c ∷ []) b h = ground arith
has_suffix_sound (c ∷ d ∷ s) b h = ap (◌∷◌ c) (has_suffix_sound (d ∷ s) b (ground arith))

pub drop_last-append : (s : Text) (b : ℕ) → drop_last (s ++ b ∷ []) ≡ s
unfolding drop_last
drop_last-append [] b = refl
drop_last-append (c ∷ []) b = refl
drop_last-append (c ∷ d ∷ s) b = ap (◌∷◌ c) (drop_last-append (d ∷ s) b)

pub trim_suffix-append : (s : Text) (b : ℕ) → trim_suffix (s ++ b ∷ []) (b ∷ []) ≡ s
unfolding trim_suffix text_eq
trim_suffix-append [] b = ground arith
trim_suffix-append (c ∷ []) b = ground arith
trim_suffix-append (c ∷ d ∷ s) b = ground (arith, trim_suffix-append (d ∷ s) b)
