-- ===== src/Prelude/Doubling.antt =====
-- A duration doubled in an int64, and a delay drawn from the upper half of one.
use native.Mathlib.Nat.{pow-suc}
use Prim.Native.Nat.{ℕ, suc, ◌+◌, ◌*◌, ◌/◌, ◌%◌, ◌^◌, ◌≤◌, ◌<◌}
use mathlib.Core.Path.{◌≡◌, ap}
use native.Mathlib.Omega.{arith}
use league_of_legends.Prelude.Int.{pos, ◌*ℤ◌}
use league_of_legends.Prelude.Go.{int64}

pub double : (n : ℕ) → n < 2 ^ 62 → int64 (pos n *ℤ pos 2) ≡ pos (n + n)
unfolding ◌*ℤ◌ int64
double n h = ground arith

pub double_pow : (n d : ℕ) → (d + d) * 2 ^ n ≡ d * 2 ^ suc n
double_pow n d = omega (arith, pow-suc 2 n, ap (λ (t : ℕ). d * t) (pow-suc 2 n))

pub half_jitter :
    (random d : ℕ) → (d / 2 ≤ d / 2 + random % suc (d / 2)) × (d / 2 + random % suc (d / 2) ≤ d)
half_jitter random d = omega arith
