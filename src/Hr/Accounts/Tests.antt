-- ===== src/Hr/Accounts/Tests.antt =====
-- A profit and loss account at a run.
use stello_kitchens.Prelude.{◌+◌, ◌≡◌, [], ◌∷◌, sum_by}
use stello_kitchens.Prelude.Int.{pos_part, neg_part}
use stello_kitchens.Money.{from_paise}
use stello_kitchens.Hr.Payslip.{p_of}
use stello_kitchens.Hr.Accounts.{PnlRaw, amounts_of, build_pnl}
use stello_kitchens.Hr.Accounts.Laws.{build_pnl_balances}

abbrev june : PnlRaw
june = record {
  gross_sales = 5_000_000;
  discounts = 100_000;
  refunds = 0;
  tax_collected = 250_000;
  cogs = 1_500_000;
  wastage = 50_000;
  expenses =
      record { category = b'r' ∷ []; amount = 900_000 }
      ∷ (record { category = b'p' ∷ []; amount = 950_000 }
          ∷ (record { category = b'r' ∷ []; amount = 100_000 } ∷ []));
  payroll = 2_000_000;
  orders = 7;
}

build_pnl_balances_example :
    let f = build_pnl june in
    (amounts_of f.expenses ≡ f.total_expenses)
    × (f.total_expenses ≡ from_paise (sum_by (λ e. p_of e.amount) june.expenses))
    × (pos_part f.net_profit
          + f.discounts
          + f.refunds
          + f.cogs
          + f.wastage
          + f.total_expenses
          + f.payroll
        ≡ f.gross_sales + neg_part f.net_profit)
build_pnl_balances_example = build_pnl_balances june
