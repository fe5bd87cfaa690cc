-- ===== src/Hr/Payslip.antt =====
-- `computePayslip` of packages/shared/src/hr-accounting.ts. Days are in halves, hours, multipliers and
-- percentages in hundredths; amounts are paise inside, as in the source.
pub mod Laws
mod Tests
use stello_kitchens.Prelude.{
  ℕ, ◌+◌, ◌-◌, ◌*◌, min, Bool, true, false, not, ◌&&◌, List, [], ◌∷◌, ◌++◌, map, Option, none, some,
  ltb, leb, if◌then◌else◌, keep, sum_by,
}
use stello_kitchens.Prelude.Rounding.{round_div}
use stello_kitchens.Prelude.Int.{ℤ, sub_ℕ, ltb_ℤ, pos}
use stello_kitchens.Money.{paisa, from_paise}
use stello_kitchens.Prelude.Texts.{Text}

pub data MonthlyBasis : Type 0 where
  calendar : MonthlyBasis
  fixed_days : ℕ → MonthlyBasis

pub record Contribution : Type 0 where
  pub enabled : Bool
  pub employee_rate : ℕ
  pub employer_rate : ℕ
  -- The wage ceiling of the provident fund (0 for none), or the gross threshold of the insurance.
  pub limit : ℕ

pub record Slab : Type 0 where
  pub up_to : Option ℕ
  pub amount : ℕ

pub record PayrollConfig : Type 0 where
  pub monthly_basis : MonthlyBasis
  pub standard_day_hours : ℕ
  pub overtime_multiplier : ℕ
  pub pay_paid_leave_for_wage_staff : Bool
  pub pf : Contribution
  pub esi : Contribution
  pub pt_enabled : Bool
  pub pt_slabs : List Slab

pub data PayType : Type 0 where
  monthly daily hourly : PayType

pub record PayComponent : Type 0 where
  pub name : Text
  pub amount : ℕ

pub record PayAdjustment : Type 0 where
  pub name : Text
  pub amount : ℕ
  pub is_earning : Bool

pub record PayInputs : Type 0 where
  pub pay_type : PayType
  pub pay_rate : ℕ
  pub allowances : List PayComponent
  pub deductions : List PayComponent
  pub pf_applicable : Bool
  pub esi_applicable : Bool
  pub pt_applicable : Bool
  pub overtime_eligible : Bool
  pub days_in_month : ℕ
  pub present_days : ℕ
  pub paid_leave_days : ℕ
  pub lop_days : ℕ
  pub worked_minutes : ℕ
  pub overtime_minutes : ℕ
  pub advance_due : ℕ
  pub adjustments : List PayAdjustment

pub data Warning : Type 0 where
  above_esi_threshold advance_reduced deductions_exceed : Warning

pub record PayslipCalc : Type 0 where
  pub payable_days : ℕ
  pub basic : ℕ
  pub overtime_hours : ℕ
  pub overtime_pay : ℕ
  pub earnings : List PayComponent
  pub gross : ℕ
  pub pf_employee : ℕ
  pub esi_employee : ℕ
  pub professional_tax : ℕ
  pub advance_recovery : ℕ
  pub other_deductions : List PayComponent
  pub total_deductions : ℕ
  pub net : ℤ
  pub pf_employer : ℕ
  pub esi_employer : ℕ
  pub warnings : List Warning

-- `P`: rupees to paise.
abbrev pub p_of : ℕ → ℕ
p_of rupees = round_div rupees paisa

-- `wholeRupee(paise)` of the quotient n / d.
unfoldable pub whole_rupee : ℕ → ℕ → ℕ
whole_rupee n d = round_div n (d * 100) * 100

-- A quotient that is not rounded yet.
pub record Ratio : Type 0 where
  pub num : ℕ
  pub den : ℕ

abbrev pub basis_days : MonthlyBasis → ℕ → ℕ
basis_days calendar dim = dim
basis_days (fixed_days n) dim = n

abbrev pub lop_of : PayInputs → ℕ
lop_of i = min i.lop_days (2 * i.days_in_month)

abbrev pub leave_paid : PayrollConfig → PayInputs → ℕ
leave_paid c i = if c.pay_paid_leave_for_wage_staff then i.paid_leave_days else 0

unfoldable pub basic_of : PayType → PayrollConfig → PayInputs → ℕ
basic_of monthly c i =
    let rate = p_of i.pay_rate in
    let basis = basis_days c.monthly_basis i.days_in_month in
    round_div (rate * (2 * basis) - rate * lop_of i) (2 * basis)
basic_of daily c i = round_div (p_of i.pay_rate * (i.present_days + leave_paid c i)) 2
basic_of hourly c i =
    let regular = i.worked_minutes - i.overtime_minutes in
    let leave = leave_paid c i * c.standard_day_hours in
    round_div (p_of i.pay_rate * (regular * 200 + leave * 60)) 12_000

-- `hourlyPaise`.
unfoldable pub hourly_of : PayType → PayrollConfig → PayInputs → Ratio
hourly_of monthly c i = record {
  num = p_of i.pay_rate * 100;
  den = basis_days c.monthly_basis i.days_in_month * c.standard_day_hours;
}
hourly_of daily c i = record { num = p_of i.pay_rate * 100; den = c.standard_day_hours }
hourly_of hourly c i = record { num = p_of i.pay_rate; den = 1 }

-- `allowanceFactor`.
unfoldable pub factor_of : PayType → ℕ → ℕ → Ratio
factor_of monthly rate basic =
    if ltb 0 rate then record { num = basic; den = rate } else record { num = 0; den = 1 }
factor_of _ rate basic = record { num = 1; den = 1 }

abbrev pub ot_minutes : PayInputs → ℕ
ot_minutes i = if i.overtime_eligible then i.overtime_minutes else 0

unfoldable pub overtime_of : PayrollConfig → PayInputs → ℕ
unfolding hourly_of
overtime_of c i =
    let h = hourly_of i.pay_type c i in
    round_div (h.num * ot_minutes i * c.overtime_multiplier) (h.den * 6000)

unfoldable pub allowance_line : Ratio → PayComponent → PayComponent
allowance_line f a = record { name = a.name; amount = round_div (p_of a.amount * f.num) f.den }

abbrev pub adjustment_line : PayAdjustment → PayComponent
adjustment_line a = record { name = a.name; amount = p_of a.amount }

abbrev pub deduction_line : PayComponent → PayComponent
deduction_line d = record { name = d.name; amount = p_of d.amount }

-- The lines of the slip, in paise.
unfoldable pub earnings_of : PayInputs → ℕ → List PayComponent
unfolding allowance_line factor_of
earnings_of i basic =
    map (allowance_line (factor_of i.pay_type (p_of i.pay_rate) basic)) i.allowances
    ++ map adjustment_line (keep (λ a. a.is_earning) i.adjustments)

unfoldable pub deductions_of : PayInputs → List PayComponent
deductions_of i =
    map deduction_line i.deductions
    ++ map adjustment_line (keep (λ a. not a.is_earning) i.adjustments)

abbrev pub total_of : List PayComponent → ℕ
total_of = sum_by (λ l. l.amount)

unfoldable pub pf_at : Contribution → Bool → ℕ → ℕ → ℕ
unfolding whole_rupee
pf_at pf applicable basic rate =
    let ceiling = p_of pf.limit in
    let wage = if ltb 0 ceiling then min basic ceiling else basic in
    if pf.enabled && applicable then whole_rupee (wage * rate) 10_000 else 0

unfoldable pub esi_at : Contribution → Bool → ℕ → ℕ → ℕ
unfolding whole_rupee
esi_at esi applicable gross rate =
    if esi.enabled && applicable && leb gross (p_of esi.limit)
    then whole_rupee (gross * rate) 10_000
    else 0

abbrev pub in_slab : ℕ → Slab → Bool
in_slab gross s = elim s.up_to [ none ↦ true | some most ↦ leb gross (p_of most) ]

unfoldable pub find_slab : ℕ → List Slab → ℕ
find_slab gross [] = 0
find_slab gross (s ∷ ss) =
    let rest = find_slab gross ss in if in_slab gross s then p_of s.amount else rest

abbrev pub warn_if : Bool → Warning → List Warning
warn_if test w = if test then w ∷ [] else []

-- `R` of the amount of each line.
abbrev pub line_in_rupees : PayComponent → PayComponent
line_in_rupees l = record { name = l.name; amount = from_paise l.amount }

abbrev pub in_rupees : List PayComponent → List PayComponent
in_rupees = map line_in_rupees

unfoldable pub compute_payslip : PayInputs → PayrollConfig → PayslipCalc
unfolding basic_of overtime_of earnings_of deductions_of pf_at esi_at find_slab from_paise
compute_payslip i c =
    let basic = basic_of i.pay_type c i in
    let overtime_pay = overtime_of c i in
    let earnings = earnings_of i basic in
    let gross = basic + overtime_pay + total_of earnings in
    let pf_employee = pf_at c.pf i.pf_applicable basic c.pf.employee_rate in
    let esi_employee = esi_at c.esi i.esi_applicable gross c.esi.employee_rate in
    let tax = if c.pt_enabled && i.pt_applicable then find_slab gross c.pt_slabs else 0 in
    let others = deductions_of i in
    let fixed = pf_employee + esi_employee + tax + total_of others in
    let due = p_of i.advance_due in
    let advance = min due (gross - fixed) in
    let total = fixed + advance in
    record {
      payable_days = 2 * i.days_in_month - lop_of i;
      basic = from_paise basic;
      overtime_hours = round_div (ot_minutes i * 100) 60;
      overtime_pay = from_paise overtime_pay;
      earnings = in_rupees earnings;
      gross = from_paise gross;
      pf_employee = from_paise pf_employee;
      esi_employee = from_paise esi_employee;
      professional_tax = from_paise tax;
      advance_recovery = from_paise advance;
      other_deductions = in_rupees others;
      total_deductions = from_paise total;
      net = sub_ℕ (from_paise gross) (from_paise total);
      pf_employer = from_paise (pf_at c.pf i.pf_applicable basic c.pf.employer_rate);
      esi_employer = from_paise (esi_at c.esi i.esi_applicable gross c.esi.employer_rate);
      warnings =
          warn_if (c.esi.enabled && i.esi_applicable && ltb (p_of c.esi.limit) gross)
            above_esi_threshold
          ++ (warn_if (ltb advance due) advance_reduced
              ++ warn_if (ltb gross total) deductions_exceed);
    }
