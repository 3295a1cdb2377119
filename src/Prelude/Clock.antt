-- ===== src/Prelude/Clock.antt =====
-- Instants and durations of Go's `time` package, in nanoseconds. An instant counts from the zero
-- `time.Time`; a duration is an `int64`, and a difference of instants saturates at its ends.
use Prim.Native.Nat.{ℕ, ◌+◌, ◌-◌, ◌≤◌, ◌<◌}
use mathlib.Core.Path.{◌≡◌}
use mathlib.Core.Bool.{Bool}
use native.Mathlib.Omega.{arith}
use nova_airouter.Prelude.Tests.{ltb, leb, ◌==◌, if◌then◌else◌}
use nova_airouter.Prelude.Int.{ℤ, pos, negsuc, leb_ℤ, ltb_ℤ}

abbrev pub Time : Type 0
Time = ℕ

abbrev pub max_duration : ℕ
max_duration = 9223372036854775807

-- `now.Sub(t)`.
unfoldable pub elapsed : Time → Time → ℤ
elapsed now t =
    if leb t now
    then (if leb (now - t) max_duration then pos (now - t) else pos max_duration)
    else (if leb (t - now - 1) max_duration then negsuc (t - now - 1) else negsuc max_duration)

-- `t.IsZero()`.
abbrev pub is_zero : Time → Bool
is_zero t = t == 0

abbrev pub second : ℕ
second = 1000000000

-- A test `now.Sub(t) >= d` asks whether the instant `t + d` has come.
pub elapsed_ge :
    (now t d : ℕ) → 0 < d → d ≤ max_duration → leb_ℤ (pos d) (elapsed now t) ≡ leb (t + d) now
unfolding elapsed
elapsed_ge now t d h k = ground arith

-- A test `now.Sub(t) > d` asks whether the instant `t + d` is past.
pub elapsed_gt : (now t d : ℕ) → d < max_duration → ltb_ℤ (pos d) (elapsed now t) ≡ ltb (t + d) now
unfolding elapsed
elapsed_gt now t d k = ground arith
