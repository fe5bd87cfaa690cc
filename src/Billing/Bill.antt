-- ===== src/Billing/Bill.antt =====
-- `computeBill` of packages/shared/src/billing.ts: service charge, tax and round-off on top of the
-- totals of an order. Units as in the module Money: results in ten-thousandths of a rupee.
pub mod Laws
mod Tests
use stello_kitchens.Prelude.{
  ℕ, ◌+◌, ◌-◌, ◌*◌, List, Bool, false, Option, none, some, ltb, if◌then◌else◌,
}
use stello_kitchens.Prelude.Rounding.{round_div}
use stello_kitchens.Prelude.Int.{ℤ, sub_ℕ}
use stello_kitchens.Money.{
  MoneyLine, paisa, rate_scale, from_paise, subtotal_of, raw_tax_of, clamp_discount, tax_on,
}

-- The percentage is in hundredths of a percent.
pub record ServiceCharge : Type 0 where
  pub percent : ℕ
  pub taxable : Bool

pub record BillOptions : Type 0 where
  pub discount_rupees : ℤ
  pub service_charge : Option ServiceCharge
  pub round_off : Bool

pub record BillTotals : Type 0 where
  pub subtotal : ℕ
  pub discount_amount : ℕ
  pub tax_amount : ℕ
  pub total : ℕ
  pub service_charge_amount : ℕ
  pub round_off : ℤ
  pub total_before_round_off : ℕ

-- `sc && sc.percent > 0 ? Math.round(...) : 0`.
unfoldable pub service_charge_on : Option ServiceCharge → ℕ → ℕ
service_charge_on none taxable = 0
service_charge_on (some sc) taxable =
    if ltb 0 sc.percent then round_div (taxable * sc.percent) rate_scale else 0

-- `sc?.taxable ? scPaise : 0`.
unfoldable pub taxed_charge : Option ServiceCharge → ℕ → ℕ
taxed_charge none charge = 0
taxed_charge (some sc) charge = if sc.taxable then charge else 0

-- `Math.round(p / 100) * 100`.
unfoldable pub whole_rupee : ℕ → ℕ
whole_rupee p = round_div p paisa * paisa

unfoldable pub payable : Bool → ℕ → ℕ
unfolding whole_rupee
payable round_off pre_round = if round_off then whole_rupee pre_round else pre_round

-- The amounts in paise, before they are turned into rupees.
pub record BillPaise : Type 0 where
  pub subtotal : ℕ
  pub discount : ℕ
  pub charge : ℕ
  pub tax : ℕ
  pub pre_round : ℕ

unfoldable pub bill_paise : List MoneyLine → BillOptions → BillPaise
bill_paise lines opts =
    let subtotal = subtotal_of lines in
    let discount = clamp_discount opts.discount_rupees subtotal in
    let taxable = subtotal - discount in
    let charge = service_charge_on opts.service_charge taxable in
    let tax =
      tax_on subtotal (raw_tax_of lines) (taxable + taxed_charge opts.service_charge charge) in
    record {
      subtotal = subtotal;
      discount = discount;
      charge = charge;
      tax = tax;
      pre_round = taxable + charge + tax;
    }

unfoldable pub compute_bill : List MoneyLine → BillOptions → BillTotals
unfolding from_paise
compute_bill lines opts =
    let b = bill_paise lines opts in
    let total = payable opts.round_off b.pre_round in
    record {
      subtotal = from_paise b.subtotal;
      discount_amount = from_paise b.discount;
      service_charge_amount = from_paise b.charge;
      tax_amount = from_paise b.tax;
      round_off = sub_ℕ (from_paise total) (from_paise b.pre_round);
      total_before_round_off = from_paise b.pre_round;
      total = from_paise total;
    }
