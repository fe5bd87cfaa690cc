-- ===== src/Money/Tests.antt =====
-- An order at a run: 100.00 rupees at 5% and 50.00 at 12%, with 15 rupees off.
use stello_kitchens.Prelude.{◌≡◌, refl, List, [], ◌∷◌}
use stello_kitchens.Prelude.Rounding.{round_div}
use stello_kitchens.Prelude.Int.{pos, round_div_ℤ}
use stello_kitchens.Money.{
  MoneyLine, OrderTotals, to_paise, from_paise, clamp_discount, tax_on, compute_order_totals,
}

abbrev two_lines : List MoneyLine
two_lines =
    record { line_total_paise = 10_000; tax_rate = 500 }
    ∷ (record { line_total_paise = 5000; tax_rate = 1200 } ∷ [])

abbrev expected : OrderTotals
expected = record {
  subtotal = 1_500_000;
  discount_amount = 150_000;
  tax_amount = 99_000;
  total = 1_449_000;
}

totals_run : compute_order_totals two_lines (pos 150_000) ≡ expected
unfolding compute_order_totals to_paise round_div_ℤ round_div from_paise clamp_discount tax_on
totals_run = refl
