-- ===== src/Orders/Split/Laws.antt =====
-- What a split promises: the checks together are the bill.
use mathlib.Core.Path.{subst}
use stello_kitchens.Prelude.{
  ℕ, zero, suc, ◌<◌, ◌≡◌, ◌≢◌, ◌∙◌, refl, ap, List, [], ◌∷◌, map, Option, some, arith, length, sum,
  sum_by, All, length-map, min,
}
use stello_kitchens.Prelude.Rounding.{round_div, round_div_exact}
use stello_kitchens.Prelude.Int.{pos}
use stello_kitchens.Money.{paisa, from_paise}
use stello_kitchens.Billing.Allocate.Laws.{sum-allocate_paise}
use stello_kitchens.Billing.SplitEqually.{split_lines_equally}
use stello_kitchens.Billing.SplitEqually.Laws.{sum-split_lines_equally, length-split_lines_equally}
use stello_kitchens.Orders.Rows.{LineRow}
use stello_kitchens.Orders.Split.{
  share_of, share_rows, line_paise, subtotal_paise, equal_checks, discount_paise, discount_shares,
}

line_paise-share_of :
    (l : LineRow) (q s : ℕ) (parts : Option ℕ) → line_paise (share_of l q (from_paise s) parts) ≡ s
unfolding from_paise
line_paise-share_of l q s parts = round_div_exact s 100 (omega arith)

subtotal_paise-share_rows :
    (parts : ℕ) (lines : List LineRow) (shares : List ℕ)
    → length shares ≡ length lines
    → subtotal_paise (share_rows parts lines shares) ≡ sum shares
unfolding share_rows
subtotal_paise-share_rows parts [] [] h = refl
subtotal_paise-share_rows parts [] (s ∷ ss) h = absurd (omega arith)
subtotal_paise-share_rows parts (l ∷ ls) [] h = absurd (omega arith)
subtotal_paise-share_rows parts (l ∷ ls) (s ∷ ss) h = omega (
  arith,
  subtotal_paise-share_rows parts ls ss (omega arith),
  line_paise-share_of l l.quantity s (some parts),
)

sum-subtotals :
    (parts : ℕ) (lines : List LineRow) (table : List (List ℕ))
    → All (λ row. length row ≡ length lines) table
    → sum (map subtotal_paise (map (share_rows parts lines) table)) ≡ sum_by sum table
sum-subtotals parts lines [] h = refl
sum-subtotals parts lines (row ∷ rows) (h, hs) =
    omega (arith, sum-subtotals parts lines rows hs, subtotal_paise-share_rows parts lines row h)

sum-discount_shares :
    (asked : ℕ) (checks : List (List LineRow))
    → checks ≢ []
    → sum (discount_shares asked checks) ≡ discount_paise asked checks
unfolding discount_shares
sum-discount_shares asked [] h = absurd (h refl)
sum-discount_shares asked (rows ∷ checks) h =
    sum-allocate_paise (discount_paise asked (rows ∷ checks))
      (map (λ rs. pos (subtotal_paise rs)) (rows ∷ checks)) (λ e. cc)

some_checks : (lines : List LineRow) (parts : ℕ) → 0 < parts → equal_checks lines parts ≢ []
unfolding equal_checks split_lines_equally
some_checks lines zero h = elim h [ ]
some_checks lines (suc n) h = λ e. cc

-- However many checks an equal split makes, they add up to the bill's lines to the paisa, and their
-- discounts to the bill's discount.
pub equal_split_balances :
    (lines : List LineRow) (parts asked : ℕ)
    → 0 < parts
    → let checks = equal_checks lines parts in
      (sum (map subtotal_paise checks) ≡ sum (map line_paise lines))
      × (sum (discount_shares asked checks)
          ≡ min (round_div asked paisa) (sum (map line_paise lines)))
unfolding equal_checks discount_shares discount_paise
equal_split_balances lines parts asked h =
    let paise = map line_paise lines in
    let table = split_lines_equally paise parts in
    let full : All (λ row. length row ≡ length lines) table =
      subst (λ n. All (λ row. length row ≡ n) table) (length-map line_paise lines)
        (length-split_lines_equally paise parts) in
    let whole = sum-subtotals parts lines table full ∙ sum-split_lines_equally paise parts h in
    (
      whole,
      sum-discount_shares asked (equal_checks lines parts) (some_checks lines parts h)
          ∙ ap (min (round_div asked paisa)) whole,
    )
