-- ===== src/Billing/Bill/Tests.antt =====
-- Runs and instances of the theorems on the bill.
use stello_kitchens.Prelude.{◌*◌, ◌/◌, ◌+◌, ◌≤◌, ◌≡◌, refl, List, [], ◌∷◌, true, false, some, none}
use stello_kitchens.Prelude.Rounding.{round_div}
use stello_kitchens.Prelude.Int.{pos, negsuc, pos_part, neg_part, ◌+ℤ◌}
use stello_kitchens.Money.{MoneyLine, compute_order_totals, clamp_discount, tax_on}
use stello_kitchens.Billing.Bill.{
  BillOptions, bill_paise, compute_bill, taxed_charge, payable, service_charge_on,
}
use stello_kitchens.Billing.Bill.Laws.{
  compute_bill_balances, compute_bill-eq-compute_order_totals, compute_bill_rounds,
}

-- Rs 199.99 at 5% and Rs 80 at 5%.
abbrev lines : List MoneyLine
lines =
    record { line_total_paise = 19999; tax_rate = 500 }
    ∷ record { line_total_paise = 8000; tax_rate = 500 }
    ∷ []

-- Rs 30 off, a taxable service charge of 10%, rounded off.
abbrev charged : BillOptions
charged = record {
  discount_rupees = pos 300000;
  service_charge = some (record { percent = 1000; taxable = true });
  round_off = true;
}

abbrev plain : BillOptions
plain = record { discount_rupees = negsuc 0; service_charge = none; round_off = false }

abbrev more : BillOptions
more = record charged { discount_rupees = pos 500000 }

runs : compute_bill lines charged ≡ record {
  subtotal = 2799900;
  discount_amount = 300000;
  tax_amount = 137500;
  total = 2890000;
  service_charge_amount = 250000;
  round_off = pos 2600;
  total_before_round_off = 2887400;
}
unfolding compute_bill bill_paise payable service_charge_on taxed_charge tax_on clamp_discount
    round_div
runs = refl

compute_bill_balances_example :
    let b = compute_bill lines charged in
    (b.discount_amount ≤ b.subtotal)
    × (b.total_before_round_off + b.discount_amount
        ≡ b.subtotal + b.service_charge_amount + b.tax_amount)
    × (pos b.total_before_round_off +ℤ b.round_off ≡ pos b.total)
compute_bill_balances_example = compute_bill_balances lines charged

compute_bill-eq-compute_order_totals_example :
    let b = compute_bill lines plain in
    let o = compute_order_totals lines (negsuc 0) in
    (b.subtotal ≡ o.subtotal)
    × (b.discount_amount ≡ o.discount_amount)
    × (b.tax_amount ≡ o.tax_amount)
    × (b.total ≡ o.total)
    × (b.service_charge_amount ≡ 0)
    × (b.round_off ≡ pos 0)
compute_bill-eq-compute_order_totals_example =
    compute_bill-eq-compute_order_totals lines plain refl refl

compute_bill_rounds_example :
    let b = compute_bill lines charged in
    (b.total ≡ b.total / 10000 * 10000)
    × (pos_part b.round_off ≤ 5000)
    × (neg_part b.round_off ≤ 4900)
compute_bill_rounds_example = compute_bill_rounds lines charged refl
