-- ===== src/Money.antt =====
-- packages/shared/src/money.ts: amounts of money and the totals of an order.
-- A rupee amount is a number of ten-thousandths of a rupee (an integer where the source clamps a
-- negative amount), a paise amount is a whole number, and a tax rate is in hundredths of a percent.
pub mod Totals
mod Tests
use stello_kitchens.Prelude.{ℕ, ◌+◌, ◌-◌, ◌*◌, min, List, ltb, if◌then◌else◌, sum_by}
use stello_kitchens.Prelude.Rounding.{round_div}
use stello_kitchens.Prelude.Int.{ℤ, pos, round_div_ℤ, max_zero}

-- Ten-thousandths of a rupee in a paisa, and of a whole in a hundredth of a percent.
abbrev pub paisa : ℕ
paisa = 100

abbrev pub rate_scale : ℕ
rate_scale = 10000

unfoldable pub to_paise : ℤ → ℤ
unfolding round_div_ℤ
to_paise rupees = round_div_ℤ rupees paisa

unfoldable pub from_paise : ℕ → ℕ
from_paise paise = paise * paisa

-- The unit price in rupees, times the quantity.
unfoldable pub line_total_paise : ℕ → ℕ → ℕ
unfolding round_div
line_total_paise unit_price_rupees quantity = round_div unit_price_rupees paisa * quantity

pub record MoneyLine : Type 0 where
  pub line_total_paise : ℕ
  pub tax_rate : ℕ

pub record OrderTotals : Type 0 where
  pub subtotal : ℕ
  pub discount_amount : ℕ
  pub tax_amount : ℕ
  pub total : ℕ

abbrev pub subtotal_of : List MoneyLine → ℕ
subtotal_of = sum_by (λ l. l.line_total_paise)

-- The tax at full price, times `rate_scale`.
abbrev pub raw_tax_of : List MoneyLine → ℕ
raw_tax_of = sum_by (λ l. l.line_total_paise * l.tax_rate)

-- The discount in paise, between zero and the subtotal.
unfoldable pub clamp_discount : ℤ → ℕ → ℕ
unfolding to_paise
clamp_discount discount_rupees subtotal = min (max_zero (to_paise discount_rupees)) subtotal

-- The tax on `base`, a part of the subtotal, rounded once.
unfoldable pub tax_on : ℕ → ℕ → ℕ → ℕ
tax_on subtotal raw_tax base =
    if ltb 0 subtotal then round_div (raw_tax * base) (rate_scale * subtotal) else 0

unfoldable pub compute_order_totals : List MoneyLine → ℤ → OrderTotals
unfolding clamp_discount tax_on from_paise
compute_order_totals lines discount_rupees =
    let subtotal = subtotal_of lines in
    let discount = clamp_discount discount_rupees subtotal in
    let taxable = subtotal - discount in
    let tax = tax_on subtotal (raw_tax_of lines) taxable in
    record {
      subtotal = from_paise subtotal;
      discount_amount = from_paise discount;
      tax_amount = from_paise tax;
      total = from_paise (taxable + tax);
    }
