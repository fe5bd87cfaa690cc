-- ===== src/Procurement/Units.antt =====
-- Units of a raw material and their conversion.
mod Tests
use stello_kitchens.Prelude.{
  ℕ, ◌*◌, ◌≡◌, ◌≢◌, Bool, true, false, List, [], ◌∷◌, Option, none, some, keep, any, arith,
}

pub data MaterialUnit : Type 0 where
  kg g l ml pcs : MaterialUnit

-- A factor is a quotient: `num` units of the one are `den` of the other.
pub record Factor : Type 0 where
  pub num : ℕ
  pub den : ℕ

abbrev factor : ℕ → ℕ → Option Factor
factor n d = some (record { num = n; den = d })

unfoldable pub unit_factor : MaterialUnit → MaterialUnit → Option Factor
unit_factor kg kg = factor 1 1
unit_factor g g = factor 1 1
unit_factor l l = factor 1 1
unit_factor ml ml = factor 1 1
unit_factor pcs pcs = factor 1 1
unit_factor kg g = factor 1000 1
unit_factor g kg = factor 1 1000
unit_factor l ml = factor 1000 1
unit_factor ml l = factor 1 1000
unit_factor _ _ = none

abbrev pub convertible : MaterialUnit → MaterialUnit → Bool
convertible a b = elim (unit_factor a b) [ none ↦ false | some _ ↦ true ]

unfoldable pub purchase_units_for : MaterialUnit → List MaterialUnit
unfolding unit_factor
purchase_units_for unit = keep (λ u. convertible u unit) (kg ∷ g ∷ l ∷ ml ∷ pcs ∷ [])

-- What a unit measures (mass, volume, number), and how many of the smallest unit of its kind it is.
abbrev pub kind : MaterialUnit → ℕ
kind kg = 0
kind g = 0
kind l = 1
kind ml = 1
kind pcs = 2

abbrev pub scale : MaterialUnit → ℕ
scale kg = 1000
scale g = 1
scale l = 1000
scale ml = 1
scale pcs = 1

abbrev pub ScalesAs : MaterialUnit → MaterialUnit → Option Factor → Type 0
ScalesAs a b none = kind a ≢ kind b
ScalesAs a b (some f) = (kind a ≡ kind b) × (f.num * scale b ≡ f.den * scale a)

-- Two units convert exactly when they measure the same, by the quotient of their scales.
pub unit_factor-ScalesAs : (a b : MaterialUnit) → ScalesAs a b (unit_factor a b)
unfolding unit_factor
unit_factor-ScalesAs kg kg = omega arith
unit_factor-ScalesAs kg g = omega arith
unit_factor-ScalesAs kg l = omega arith
unit_factor-ScalesAs kg ml = omega arith
unit_factor-ScalesAs kg pcs = omega arith
unit_factor-ScalesAs g kg = omega arith
unit_factor-ScalesAs g g = omega arith
unit_factor-ScalesAs g l = omega arith
unit_factor-ScalesAs g ml = omega arith
unit_factor-ScalesAs g pcs = omega arith
unit_factor-ScalesAs l kg = omega arith
unit_factor-ScalesAs l g = omega arith
unit_factor-ScalesAs l l = omega arith
unit_factor-ScalesAs l ml = omega arith
unit_factor-ScalesAs l pcs = omega arith
unit_factor-ScalesAs ml kg = omega arith
unit_factor-ScalesAs ml g = omega arith
unit_factor-ScalesAs ml l = omega arith
unit_factor-ScalesAs ml ml = omega arith
unit_factor-ScalesAs ml pcs = omega arith
unit_factor-ScalesAs pcs kg = omega arith
unit_factor-ScalesAs pcs g = omega arith
unit_factor-ScalesAs pcs l = omega arith
unit_factor-ScalesAs pcs ml = omega arith
unit_factor-ScalesAs pcs pcs = omega arith
