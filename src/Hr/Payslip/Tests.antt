-- ===== src/Hr/Payslip/Tests.antt =====
-- A payslip at a run: 30,000 rupees a month, an allowance of 1,000, an advance of 5,000.
use stello_kitchens.Prelude.{◌+◌, ◌≤◌, ◌≡◌, ◌⊎◌, true, false, [], ◌∷◌, none, some}
use stello_kitchens.Prelude.Int.{pos_part, neg_part}
use stello_kitchens.Money.{from_paise}
use stello_kitchens.Hr.Payslip.{
  PayInputs, PayType, PayrollConfig, MonthlyBasis, p_of, total_of, compute_payslip,
}
use stello_kitchens.Hr.Payslip.Laws.{compute_payslip_balances, compute_payslip_advance}

abbrev config : PayrollConfig
config = record {
  monthly_basis = MonthlyBasis.calendar;
  standard_day_hours = 800;
  overtime_multiplier = 200;
  pay_paid_leave_for_wage_staff = true;
  pf = record { enabled = true; employee_rate = 1200; employer_rate = 1200; limit = 150_000_000 };
  esi = record { enabled = true; employee_rate = 75; employer_rate = 325; limit = 210_000_000 };
  pt_enabled = true;
  pt_slabs =
      record { up_to = some 249_990_000; amount = 0 }
      ∷ (record { up_to = none; amount = 2_000_000 } ∷ []);
}

abbrev salary : PayInputs
salary = record {
  pay_type = PayType.monthly;
  pay_rate = 300_000_000;
  allowances = record { name = b'a' ∷ []; amount = 10_000_000 } ∷ [];
  deductions = [];
  pf_applicable = true;
  esi_applicable = true;
  pt_applicable = true;
  overtime_eligible = false;
  days_in_month = 30;
  present_days = 60;
  paid_leave_days = 0;
  lop_days = 0;
  worked_minutes = 0;
  overtime_minutes = 0;
  advance_due = 50_000_000;
  adjustments = record { name = b'b' ∷ []; amount = 5_000_000; is_earning = true } ∷ [];
}

compute_payslip_balances_example :
    let s = compute_payslip salary config in
    (s.gross ≡ s.basic + s.overtime_pay + total_of s.earnings)
    × (s.total_deductions
        ≡ s.pf_employee
          + s.esi_employee
          + s.professional_tax
          + s.advance_recovery
          + total_of s.other_deductions)
    × (pos_part s.net + s.total_deductions ≡ s.gross + neg_part s.net)
compute_payslip_balances_example = compute_payslip_balances salary config

compute_payslip_advance_example :
    let s = compute_payslip salary config in
    let due = from_paise (p_of 50_000_000) in
    (s.advance_recovery ≤ due)
    × ((s.advance_recovery ≡ 0) ⊎ (neg_part s.net ≡ 0))
    × ((s.advance_recovery ≡ due) ⊎ (pos_part s.net ≡ 0))
compute_payslip_advance_example = compute_payslip_advance salary config
