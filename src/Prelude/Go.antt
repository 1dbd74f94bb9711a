-- ===== src/Prelude/Go.antt =====
-- Go's 64-bit integers, times and durations.
-- An instant is a number of nanoseconds since the zero `time.Time`, a duration a number of
-- nanoseconds. A product or a doubling of durations wraps around as int64 does.
use Prim.Native.Nat.{ℕ, ◌-◌, ◌*◌, ◌%◌, ◌^◌, ◌<◌}
use mathlib.Core.Bool.{Bool, false}
use mathlib.Core.Path.{◌≡◌}
use native.Mathlib.Omega.{arith}
use league_of_legends.Prelude.Tests.{ltb, ◌==◌, if◌then◌else◌}
use league_of_legends.Prelude.Int.{ℤ, pos, negsuc}

abbrev pub Time : Type 0
Time = ℤ

abbrev pub Duration : Type 0
Duration = ℤ

-- The zero `time.Time`.
abbrev pub zero_time : Time
zero_time = pos 0

-- `IsZero`.
abbrev pub is_zero : Time → Bool
is_zero (pos n) = n == 0
is_zero (negsuc n) = false

abbrev pub milliseconds : ℕ → Duration
milliseconds n = pos (n * 1_000_000)

abbrev pub seconds : ℕ → Duration
seconds n = pos (n * 1_000_000_000)

-- The bit pattern `m` read as an int64.
abbrev pub from_bits : ℕ → ℤ
from_bits m = if ltb m (2 ^ 63) then pos m else negsuc (2 ^ 64 - 1 - m)

-- The int64 that holds the low 64 bits of an integer.
unfoldable pub int64 : ℤ → ℤ
int64 (pos n) = from_bits (n % 2 ^ 64)
int64 (negsuc n) = from_bits (2 ^ 64 - 1 - n % 2 ^ 64)

-- A value in range is kept.
pub int64_pos : (n : ℕ) → n < 2 ^ 63 → int64 (pos n) ≡ pos n
unfolding int64
int64_pos n h = ground arith
