-- ===== src/Hr/Payslip/Laws.antt =====
-- What a payslip promises.
use stello_kitchens.Prelude.{
  ℕ, ◌+◌, ◌-◌, ◌*◌, ◌≤◌, ◌<◌, ◌≡◌, ◌∙◌, ◌⊎◌, refl, ap, List, [], ◌∷◌, ◌++◌, map, arith, min, keep,
}
use mathlib.Core.Path.{fun_ext}
use native.Mathlib.Nat.{mul-le-mul_left}
use stello_kitchens.Prelude.Rounding.{round_div, round_div_mono, round_div_exact}
use stello_kitchens.Prelude.Int.{pos_part, neg_part}
use stello_kitchens.Money.{from_paise}
use stello_kitchens.Hr.Payslip.{
  PayInputs, PayType, PayrollConfig, PayComponent, p_of, total_of, in_rupees, compute_payslip,
  basic_of, factor_of, allowance_line, deduction_line, adjustment_line, earnings_of, basis_days,
  lop_of, deductions_of,
}

total_of-in_rupees : (l : List PayComponent) → total_of (in_rupees l) ≡ from_paise (total_of l)
unfolding from_paise
total_of-in_rupees [] = refl
total_of-in_rupees (x ∷ xs) = omega (arith, total_of-in_rupees xs)

-- The lines of a payslip add up: the gross is the basic pay, the overtime and the earnings; the
-- deductions are the statutory ones, the advance and the others; and the net is the gross less the
-- deductions, negative where they exceed it.
pub compute_payslip_balances :
    (i : PayInputs) (c : PayrollConfig)
    → let s = compute_payslip i c in
      (s.gross ≡ s.basic + s.overtime_pay + total_of s.earnings)
      × (s.total_deductions
          ≡ s.pf_employee
            + s.esi_employee
            + s.professional_tax
            + s.advance_recovery
            + total_of s.other_deductions)
      × (pos_part s.net + s.total_deductions ≡ s.gross + neg_part s.net)
unfolding compute_payslip
compute_payslip_balances i c =
    let earned = total_of-in_rupees (earnings_of i (basic_of i.pay_type c i)) in
    let deducted = total_of-in_rupees (deductions_of i) in
    unfold from_paise in (omega (arith, earned), omega (arith, deducted), grind arith)

-- An advance is recovered up to what is due, never so far that the net becomes negative, and falls
-- short of it only where nothing is left to pay.
pub compute_payslip_advance :
    (i : PayInputs) (c : PayrollConfig)
    → let s = compute_payslip i c in
      let due = from_paise (p_of i.advance_due) in
      (s.advance_recovery ≤ due)
      × ((s.advance_recovery ≡ 0) ⊎ (neg_part s.net ≡ 0))
      × ((s.advance_recovery ≡ due) ⊎ (pos_part s.net ≡ 0))
unfolding compute_payslip from_paise
compute_payslip_advance i c = (omega arith, ground arith, ground arith)

monthly_basic_antitone :
    (i : PayInputs) (m : ℕ) (c : PayrollConfig)
    → i.lop_days ≤ m
    → 0 < basis_days c.monthly_basis i.days_in_month
    → basic_of PayType.monthly c (record i { lop_days = m }) ≤ basic_of PayType.monthly c i
unfolding basic_of
monthly_basic_antitone i m c h some_days =
    let rate = p_of i.pay_rate in
    let basis = basis_days c.monthly_basis i.days_in_month in
    let more =
      mul-le-mul_left {m = lop_of i} {n = min m (2 * i.days_in_month)} rate (omega arith) in
    round_div_mono (rate * (2 * basis) - rate * min m (2 * i.days_in_month))
      (rate * (2 * basis) - rate * lop_of i) (2 * basis) (omega arith) (omega (arith, more))

-- More days of loss of pay never raise the basic pay of a monthly salary.
pub compute_payslip_antitone :
    (i : PayInputs) (m : ℕ) (c : PayrollConfig)
    → i.pay_type ≡ PayType.monthly
    → i.lop_days ≤ m
    → 0 < basis_days c.monthly_basis i.days_in_month
    → (compute_payslip (record i { lop_days = m }) c).basic ≤ (compute_payslip i c).basic
unfolding compute_payslip from_paise
compute_payslip_antitone i m c salary h some_days =
    simp salary (omega (arith, monthly_basic_antitone i m c h some_days))

monthly_basic_full :
    (i : PayInputs) (c : PayrollConfig)
    → i.lop_days ≡ 0
    → 0 < basis_days c.monthly_basis i.days_in_month
    → basic_of PayType.monthly c i ≡ p_of i.pay_rate
unfolding basic_of
monthly_basic_full i c none_lost some_days =
    let rate = p_of i.pay_rate in
    let basis = basis_days c.monthly_basis i.days_in_month in
    let nothing = ap (λ (n : ℕ). rate * n) {x = lop_of i} {y = 0} (omega arith) in
    ap (λ n. round_div n (2 * basis)) (omega (arith, nothing))
    ∙ round_div_exact rate (2 * basis) (omega arith)

allowance_line_full :
    (rate : ℕ) (a : PayComponent)
    → 0 < rate
    → allowance_line (factor_of PayType.monthly rate rate) a ≡ deduction_line a
unfolding allowance_line factor_of
allowance_line_full rate a h = ground (arith, round_div_exact (p_of a.amount) rate h)

-- A full month of a monthly salary is paid in full, the allowances too.
pub compute_payslip_full_month :
    (i : PayInputs) (c : PayrollConfig)
    → i.pay_type ≡ PayType.monthly
    → i.lop_days ≡ 0
    → 0 < p_of i.pay_rate
    → 0 < basis_days c.monthly_basis i.days_in_month
    → let s = compute_payslip i c in
      (s.basic ≡ from_paise (p_of i.pay_rate))
      × (s.earnings
          ≡ in_rupees (
              map deduction_line i.allowances
              ++ map adjustment_line (keep (λ a. a.is_earning) i.adjustments)))
unfolding compute_payslip earnings_of
compute_payslip_full_month i c salary none_lost paid some_days =
    let rate = p_of i.pay_rate in
    let full : basic_of i.pay_type c i ≡ rate =
      simp salary (monthly_basic_full i c none_lost some_days) in
    let factor : factor_of i.pay_type rate (basic_of i.pay_type c i)
        ≡ factor_of PayType.monthly rate rate =
      simp salary
        (ap (factor_of PayType.monthly rate) (monthly_basic_full i c none_lost some_days)) in
    let line =
      fun_ext (λ a. ap (λ f. allowance_line f a) factor ∙ allowance_line_full rate a paid) in
    (
      ap from_paise full,
      ap
          (λ f.
            in_rupees
              (map f i.allowances ++ map adjustment_line (keep (λ a. a.is_earning) i.adjustments)))
          line,
    )
