-- ===== src/Hr/Accounts.antt =====
-- `expenseCost` and `buildPnl` of packages/shared/src/hr-accounting.ts. Rupee amounts come in in
-- ten-thousandths; a category is a text.
pub mod Laws
mod Tests
use stello_kitchens.Prelude.Texts.{Text, same_text}
use stello_kitchens.Prelude.{
  ℕ, ◌+◌, ◌*◌, ◌==◌, Bool, true, false, ◌&&◌, List, [], ◌∷◌, map, ltb, if◌then◌else◌, sum_by,
}
use stello_kitchens.Prelude.Rounding.{round_div}
use stello_kitchens.Prelude.Int.{ℤ, pos, sub_ℕ, ◌-ℤ◌}
use stello_kitchens.Money.{paisa, from_paise}
use stello_kitchens.Hr.Payslip.{p_of}

pub record Expense : Type 0 where
  pub taxable_amount : ℕ
  pub cgst : ℕ
  pub sgst : ℕ
  pub igst : ℕ
  pub itc_eligible : Bool

unfoldable pub expense_cost : Expense → ℕ
expense_cost e =
    if e.itc_eligible
    then e.taxable_amount
    else from_paise (p_of e.taxable_amount + p_of e.cgst + p_of e.sgst + p_of e.igst)

-- A category and its amount: rupees in the input and the result, paise in the map between.
pub record CategoryAmount : Type 0 where
  pub category : Text
  pub amount : ℕ

pub record PnlRaw : Type 0 where
  pub gross_sales : ℕ
  pub discounts : ℕ
  pub refunds : ℕ
  pub tax_collected : ℕ
  pub cogs : ℕ
  pub wastage : ℕ
  pub expenses : List CategoryAmount
  pub payroll : ℕ
  pub orders : ℕ

pub record PnlFigures : Type 0 where
  pub gross_sales : ℕ
  pub discounts : ℕ
  pub refunds : ℕ
  pub net_sales : ℤ
  pub tax_collected : ℕ
  pub cogs : ℕ
  pub wastage : ℕ
  pub gross_profit : ℤ
  pub expenses : List CategoryAmount
  pub total_expenses : ℕ
  pub payroll : ℕ
  pub net_profit : ℤ
  pub orders : ℕ

-- `byCat.set(category, (byCat.get(category) ?? 0) + p)`: a `Map` keeps the order of its first keys.
unfoldable pub add_to : Text → ℕ → List CategoryAmount → List CategoryAmount
unfolding same_text
add_to c p [] = record { category = c; amount = p } ∷ []
add_to c p (e ∷ es) =
    let rest = add_to c p es in
    if same_text e.category c
    then record { category = e.category; amount = e.amount + p } ∷ es
    else e ∷ rest

unfoldable pub by_category : List CategoryAmount → List CategoryAmount → List CategoryAmount
unfolding add_to
by_category [] totals = totals
by_category (e ∷ es) totals = by_category es (add_to e.category (p_of e.amount) totals)

-- A stable sort, the greatest amount first.
unfoldable pub insert : CategoryAmount → List CategoryAmount → List CategoryAmount
insert e [] = e ∷ []
insert e (x ∷ xs) =
    let rest = insert e xs in if ltb e.amount x.amount then x ∷ rest else e ∷ (x ∷ xs)

unfoldable pub sort : List CategoryAmount → List CategoryAmount
unfolding insert
sort [] = []
sort (e ∷ es) = insert e (sort es)

abbrev pub rounded : CategoryAmount → CategoryAmount
rounded e = record { category = e.category; amount = from_paise e.amount }

abbrev pub amounts_of : List CategoryAmount → ℕ
amounts_of = sum_by (λ e. e.amount)

-- Amounts in whole paise, taken to rupees.
abbrev pub whole : ℕ → ℕ
whole rupees = from_paise (p_of rupees)

unfoldable pub build_pnl : PnlRaw → PnlFigures
unfolding by_category sort ◌-ℤ◌ from_paise
build_pnl raw =
    let net_sales =
      pos (whole raw.gross_sales) -ℤ pos (whole raw.discounts) -ℤ pos (whole raw.refunds) in
    let gross_profit = net_sales -ℤ pos (whole raw.cogs) -ℤ pos (whole raw.wastage) in
    let totals = by_category raw.expenses [] in
    let total_expenses = amounts_of totals in
    record {
      gross_sales = whole raw.gross_sales;
      discounts = whole raw.discounts;
      refunds = whole raw.refunds;
      net_sales = net_sales;
      tax_collected = whole raw.tax_collected;
      cogs = whole raw.cogs;
      wastage = whole raw.wastage;
      gross_profit = gross_profit;
      expenses = sort (map rounded totals);
      total_expenses = from_paise total_expenses;
      payroll = whole raw.payroll;
      net_profit = gross_profit -ℤ pos (from_paise total_expenses) -ℤ pos (whole raw.payroll);
      orders = raw.orders;
    }
