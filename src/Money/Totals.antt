-- ===== src/Money/Totals.antt =====
-- The discount, the single tax rounding and the conversions of packages/shared/src/money.ts.
use native.Mathlib.Nat.{le_refl, mul-le-mul}
use stello_kitchens.Prelude.{
  ℕ, ◌*◌, ◌≤◌, ◌<◌, ◌≡◌, ◌∙◌, ap, List, [], ◌∷◌, arith, All, inl, inr, Bool-cases, ltb, ltb→lt,
  lt→ltb,
}
use stello_kitchens.Prelude.Rounding.{round_div, round_div_mono, round_div_exact, round_div_extend}
use stello_kitchens.Prelude.Int.{ℤ, pos, round_div_ℤ}
use stello_kitchens.Money.{
  MoneyLine, rate_scale, to_paise, from_paise, clamp_discount, tax_on, subtotal_of, raw_tax_of,
}

-- A paise amount survives the way to rupees and back.
pub to_paise-from_paise : (p : ℕ) → to_paise (pos (from_paise p)) ≡ pos p
unfolding to_paise from_paise round_div_ℤ
to_paise-from_paise p = ap pos (round_div_exact p 100 (omega arith))

pub clamp_discount-le : (d : ℤ) (s : ℕ) → clamp_discount d s ≤ s
unfolding clamp_discount
clamp_discount-le d s = omega arith

-- Every rate is at most `r`.
abbrev pub RatesUpTo : ℕ → List MoneyLine → Type 0
RatesUpTo r = All (λ l. l.tax_rate ≤ r)

pub raw_tax_of-le :
    (r : ℕ) (lines : List MoneyLine) → RatesUpTo r lines → raw_tax_of lines ≤ subtotal_of lines * r
raw_tax_of-le r [] h = omega arith
raw_tax_of-le r (l ∷ ls) (h, hs) =
    omega (arith, raw_tax_of-le r ls hs, mul-le-mul (le_refl l.line_total_paise) h)

-- On a base at one rate, the scale of the subtotal cancels.
cancel_subtotal :
    (s base r : ℕ)
    → 0 < s
    → round_div (s * r * base) (rate_scale * s) ≡ round_div (base * r) rate_scale
cancel_subtotal s base r h =
    ap (λ n. round_div n (rate_scale * s)) (omega arith)
    ∙ round_div_extend (base * r) rate_scale s (omega arith) h

module _ (s raw r base : ℕ) where
  -- A raw tax of at most `r` on the subtotal gives a tax of at most `r` on the base.
  pub tax_on-le : raw ≤ s * r → tax_on s raw base ≤ round_div (base * r) rate_scale
  unfolding tax_on
  tax_on-le h = elim (Bool-cases (ltb 0 s)) [
    | inl some_sales ↦
        let sales : 0 < s = ltb→lt 0 s some_sales in
        rw some_sales (
          omega (
            arith,
            cancel_subtotal s base r sales,
            round_div_mono (raw * base) (s * r * base) (rate_scale * s) (omega arith)
                (mul-le-mul h (le_refl base)),
          ))
    | inr no_sales ↦ rw no_sales (omega arith)
  ]

  -- A raw tax of at least `r` on the subtotal gives a tax of at least `r` on the base.
  pub le-tax_on : 0 < s → s * r ≤ raw → round_div (base * r) rate_scale ≤ tax_on s raw base
  unfolding tax_on
  le-tax_on sales h = rw (lt→ltb 0 s sales) (
      omega (
        arith,
        cancel_subtotal s base r sales,
        round_div_mono (s * r * base) (raw * base) (rate_scale * s) (omega arith)
            (mul-le-mul h (le_refl base)),
      ))

pub tax_on_mono : (s raw a b : ℕ) → a ≤ b → tax_on s raw a ≤ tax_on s raw b
unfolding tax_on
tax_on_mono s raw a b h = elim (Bool-cases (ltb 0 s)) [
  | inl some_sales ↦ rw some_sales (
      round_div_mono (raw * a) (raw * b) (rate_scale * s) (omega (arith, ltb→lt 0 s some_sales))
        (mul-le-mul (le_refl raw) h))
  | inr no_sales ↦ rw no_sales (omega arith)
]

-- At one rate the tax on the base is that rate of it, rounded once.
pub tax_on_uniform :
    (s r base : ℕ) → (s ≡ 0 → base ≡ 0) → tax_on s (s * r) base ≡ round_div (base * r) rate_scale
unfolding tax_on round_div
tax_on_uniform s r base h = elim (Bool-cases (ltb 0 s)) [
  | inl some_sales ↦ rw some_sales (cancel_subtotal s base r (ltb→lt 0 s some_sales))
  | inr no_sales ↦ rw (no_sales, h (ground arith)) (omega arith)
]

pub raw_tax_of_uniform :
    (r : ℕ) (lines : List MoneyLine)
    → All (λ l. l.tax_rate ≡ r) lines
    → raw_tax_of lines ≡ subtotal_of lines * r
raw_tax_of_uniform r [] h = omega arith
raw_tax_of_uniform r (l ∷ ls) (h, hs) =
    omega (arith, raw_tax_of_uniform r ls hs, ap (λ (t : ℕ). l.line_total_paise * t) h)
