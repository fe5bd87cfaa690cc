-- ===== src/Hr/Accounts/Laws.antt =====
-- The profit and loss account adds up.
use stello_kitchens.Prelude.{ℕ, ◌+◌, ◌≤◌, ◌≡◌, ◌∙◌, refl, ap, List, [], ◌∷◌, map, arith, sum_by}
use stello_kitchens.Prelude.Int.{pos, pos_part, neg_part, ◌-ℤ◌, -ℤ_parts}
use stello_kitchens.Money.{from_paise}
use stello_kitchens.Hr.Payslip.{p_of}
use stello_kitchens.Hr.Accounts.{
  CategoryAmount, PnlRaw, add_to, by_category, insert, sort, rounded, amounts_of, whole, build_pnl,
}

amounts_of-add_to :
    (c : List ℕ) (p : ℕ) (es : List CategoryAmount) → amounts_of (add_to c p es) ≡ amounts_of es + p
unfolding add_to
amounts_of-add_to c p [] = omega arith
amounts_of-add_to c p (e ∷ es) = ground (arith, amounts_of-add_to c p es)

amounts_of-by_category :
    (es totals : List CategoryAmount)
    → amounts_of (by_category es totals) ≡ amounts_of totals + sum_by (λ e. p_of e.amount) es
unfolding by_category
amounts_of-by_category [] totals = omega arith
amounts_of-by_category (e ∷ es) totals = omega (
  arith,
  amounts_of-by_category es (add_to e.category (p_of e.amount) totals),
  amounts_of-add_to e.category (p_of e.amount) totals,
)

amounts_of-insert :
    (e : CategoryAmount) (es : List CategoryAmount)
    → amounts_of (insert e es) ≡ e.amount + amounts_of es
unfolding insert
amounts_of-insert e [] = omega arith
amounts_of-insert e (x ∷ xs) = ground (arith, amounts_of-insert e xs)

amounts_of-sort : (es : List CategoryAmount) → amounts_of (sort es) ≡ amounts_of es
unfolding sort
amounts_of-sort [] = refl
amounts_of-sort (e ∷ es) = omega (arith, amounts_of-sort es, amounts_of-insert e (sort es))

amounts_of-rounded :
    (es : List CategoryAmount) → amounts_of (map rounded es) ≡ from_paise (amounts_of es)
unfolding from_paise
amounts_of-rounded [] = refl
amounts_of-rounded (e ∷ es) = omega (arith, amounts_of-rounded es)

-- What is taken off one after the other is taken off together.
chain_parts :
    (g d r c w e p : ℕ)
    → let n = pos g -ℤ pos d -ℤ pos r -ℤ pos c -ℤ pos w -ℤ pos e -ℤ pos p in
      pos_part n + d + r + c + w + e + p ≡ g + neg_part n
chain_parts g d r c w e p =
    let n = pos g -ℤ pos d in
    let m = n -ℤ pos r in
    let k = m -ℤ pos c in
    let j = k -ℤ pos w in
    let h = j -ℤ pos e in
    omega (
      arith,
      -ℤ_parts (pos g) (pos d),
      -ℤ_parts n (pos r),
      -ℤ_parts m (pos c),
      -ℤ_parts k (pos w),
      -ℤ_parts j (pos e),
      -ℤ_parts h (pos p),
    )

-- The categories listed add up to the total of the expenses, which is that of all expenses given, each
-- rounded to the paisa; and sales less discounts, refunds, costs, waste, expenses and payroll is the
-- net profit, be it negative.
pub build_pnl_balances :
    (raw : PnlRaw)
    → let f = build_pnl raw in
      (amounts_of f.expenses ≡ f.total_expenses)
      × (f.total_expenses ≡ from_paise (sum_by (λ e. p_of e.amount) raw.expenses))
      × (pos_part f.net_profit
            + f.discounts
            + f.refunds
            + f.cogs
            + f.wastage
            + f.total_expenses
            + f.payroll
          ≡ f.gross_sales + neg_part f.net_profit)
unfolding build_pnl
build_pnl_balances raw =
    let totals = by_category raw.expenses [] in
    (
      amounts_of-sort (map rounded totals) ∙ amounts_of-rounded totals,
      ap from_paise (omega (arith, amounts_of-by_category raw.expenses [])),
      chain_parts (whole raw.gross_sales) (whole raw.discounts) (whole raw.refunds) (whole raw.cogs)
          (whole raw.wastage) (from_paise (amounts_of totals)) (whole raw.payroll),
    )

-- Every expense listed is at least as great as those after it.
abbrev pub Descending : List CategoryAmount → Type 0
Descending [] = Unit
Descending (e ∷ []) = Unit
Descending (e ∷ (x ∷ xs)) = (x.amount ≤ e.amount) × Descending (x ∷ xs)

insert-Descending :
    (e : CategoryAmount) (es : List CategoryAmount) → Descending es → Descending (insert e es)
unfolding insert
insert-Descending e [] h = tt
insert-Descending e (x ∷ []) h = ground arith
insert-Descending e (x ∷ (y ∷ ys)) h = ground (arith, insert-Descending e (y ∷ ys) h.1)

sort-Descending : (es : List CategoryAmount) → Descending (sort es)
unfolding sort
sort-Descending [] = tt
sort-Descending (e ∷ es) = insert-Descending e (sort es) (sort-Descending es)

-- The categories are listed from the greatest expense down.
pub build_pnl-Descending : (raw : PnlRaw) → Descending (build_pnl raw).expenses
unfolding build_pnl
build_pnl-Descending raw = sort-Descending (map rounded (by_category raw.expenses []))
