-- ===== src/Prelude/Int.antt =====
-- Signed integers over the native numbers, and Go's `int32` and `int` (64 bits), which wrap around.
use Prim.Native.Nat.{ℕ, suc, ◌+◌, ◌-◌, ◌*◌, ◌%◌, ◌≤◌, ◌<◌}
use mathlib.Core.Path.{◌≡◌, refl}
use mathlib.Core.Bool.{Bool}
use native.Mathlib.Omega.{arith}
use nova_airouter.Prelude.Tests.{ltb, leb, if◌then◌else◌}

-- `negsuc n` is -(n + 1).
pub data ℤ : Type 0 where
  pos : ℕ → ℤ
  negsuc : ℕ → ℤ

abbrev pub pos_part : ℤ → ℕ
pos_part (pos n) = n
pos_part (negsuc n) = 0

abbrev pub neg_part : ℤ → ℕ
neg_part (pos n) = 0
neg_part (negsuc n) = suc n

-- a - b, as an integer.
abbrev pub sub_ℕ : ℕ → ℕ → ℤ
sub_ℕ a b = if leb b a then pos (a - b) else negsuc (b - a - 1)

infixl 65 ◌+ℤ◌ ◌-ℤ◌
infix 50 ◌≤ℤ◌ ◌<ℤ◌
unfoldable pub ◌+ℤ◌ : ℤ → ℤ → ℤ
a +ℤ b = sub_ℕ (pos_part a + pos_part b) (neg_part a + neg_part b)

unfoldable pub ◌-ℤ◌ : ℤ → ℤ → ℤ
a -ℤ b = sub_ℕ (pos_part a + neg_part b) (neg_part a + pos_part b)

abbrev pub ◌≤ℤ◌ : ℤ → ℤ → Type 0
a ≤ℤ b = pos_part a + neg_part b ≤ pos_part b + neg_part a

abbrev pub ◌<ℤ◌ : ℤ → ℤ → Type 0
a <ℤ b = pos_part a + neg_part b < pos_part b + neg_part a

abbrev pub ltb_ℤ : ℤ → ℤ → Bool
ltb_ℤ a b = ltb (pos_part a + neg_part b) (pos_part b + neg_part a)

abbrev pub leb_ℤ : ℤ → ℤ → Bool
leb_ℤ a b = leb (pos_part a + neg_part b) (pos_part b + neg_part a)

-- The representative of `z` in [-half, half), modulo `2 * half`.
abbrev pub wrap : ℕ → ℤ → ℤ
wrap half z = sub_ℕ ((pos_part z + half + (2 * half - neg_part z % (2 * half))) % (2 * half)) half

-- `int32(z)`.
unfoldable pub i32 : ℤ → ℤ
i32 z = wrap 2147483648 z

-- `int64(z)`, and `int(z)` on a 64-bit machine.
unfoldable pub i64 : ℤ → ℤ
i64 z = wrap 9223372036854775808 z

pub i32_id : (z : ℤ) → negsuc 2147483647 ≤ℤ z → z ≤ℤ pos 2147483647 → i32 z ≡ z
unfolding i32
i32_id (pos n) h k = ground arith
i32_id (negsuc n) h k = ground arith

pub i64_id : (z : ℤ) → negsuc 9223372036854775807 ≤ℤ z → z ≤ℤ pos 9223372036854775807 → i64 z ≡ z
unfolding i64
i64_id (pos n) h k = ground arith
i64_id (negsuc n) h k = ground arith

pub +ℤ_parts :
    (a b : ℤ)
    → pos_part (a +ℤ b) + neg_part a + neg_part b ≡ neg_part (a +ℤ b) + pos_part a + pos_part b
unfolding ◌+ℤ◌
+ℤ_parts a b = ground arith

pub -ℤ_parts :
    (a b : ℤ)
    → pos_part (a -ℤ b) + neg_part a + pos_part b ≡ neg_part (a -ℤ b) + pos_part a + neg_part b
unfolding ◌-ℤ◌
-ℤ_parts a b = ground arith

pub eq_of_parts : (a b : ℤ) → pos_part a + neg_part b ≡ pos_part b + neg_part a → a ≡ b
eq_of_parts a b h = ground arith

pub ruleset int_laws = (arith, +ℤ_parts, -ℤ_parts, eq_of_parts)

i32_overflow : i32 (pos 2147483648) ≡ negsuc 2147483647
unfolding i32
i32_overflow = refl

i32_underflow : i32 (negsuc 2147483648) ≡ pos 2147483647
unfolding i32
i32_underflow = refl

-- `i++` on an `int` that is not negative and not at its largest value.
pub i64-suc :
    (z : ℤ)
    → neg_part z ≡ 0
    → pos_part z < 9223372036854775807
    → i64 (z +ℤ pos 1) ≡ pos (suc (pos_part z))
unfolding i64 ◌+ℤ◌
i64-suc (pos n) h k = ground arith
i64-suc (negsuc n) h k = ground arith

-- `atomic.AddInt32(&i, -1)` on an `int32` that is not positive and not at its least value.
pub i32-pred :
    (z : ℤ) → pos_part z ≡ 0 → neg_part z < 2147483648 → i32 (z +ℤ negsuc 0) ≡ negsuc (neg_part z)
unfolding i32 ◌+ℤ◌
i32-pred (pos n) h k = ground arith
i32-pred (negsuc n) h k = ground arith
