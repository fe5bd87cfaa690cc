-- ===== src/Prelude/Rounding.antt =====
-- `Math.round(n / d)` and `Math.floor(n / d)` of exact quotients: half a unit rounds up.
use Prim.Native.Nat.{ℕ, ◌+◌, ◌*◌, ◌/◌, ◌≤◌, ◌<◌}
use mathlib.Core.Path.{◌≡◌, ◌∙◌, ap₂}
use native.Mathlib.Omega.{arith}
use native.Mathlib.Nat.{
  le_trans, le-div_iff_mul-le, div-mul-le_self, div-eq_of_lt-le, mul-div-mul_right,
}

unfoldable pub round_div : ℕ → ℕ → ℕ
round_div n d = (2 * n + d) / (2 * d)

-- The nearest whole number, and the greater of the two at a half.
pub round_div_nearest :
    (n d : ℕ) → 0 < d → (2 * d * round_div n d ≤ 2 * n + d) × (2 * n < 2 * d * round_div n d + d)
unfolding round_div
round_div_nearest n d h = grind arith

pub round_div_mono : (m n d : ℕ) → 0 < d → m ≤ n → round_div m d ≤ round_div n d
unfolding round_div
round_div_mono m n d p h =
    (le-div_iff_mul-le {k = 2 * d} {x = (2 * m + d) / (2 * d)} (omega arith)).1
      (le_trans (div-mul-le_self (2 * m + d) (2 * d)) (omega arith))

-- A whole number rounds to itself.
pub round_div_exact : (n d : ℕ) → 0 < d → round_div (n * d) d ≡ n
unfolding round_div
round_div_exact n d h = div-eq_of_lt-le (2 * d) {m = 2 * (n * d) + d} (omega arith) (omega arith)

-- A quotient may be extended.
pub round_div_extend : (n d k : ℕ) → 0 < d → 0 < k → round_div (n * k) (d * k) ≡ round_div n d
unfolding round_div
round_div_extend n d k hd hk =
    ap₂ ◌/◌ (omega arith) (omega arith) ∙ mul-div-mul_right {m = k} (2 * n + d) (2 * d) hk
