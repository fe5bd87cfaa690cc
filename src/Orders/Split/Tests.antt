-- ===== src/Orders/Split/Tests.antt =====
-- An equal split at a run.
use stello_kitchens.Prelude.{◌≡◌, List, [], ◌∷◌, map, sum, min, arith}
use stello_kitchens.Prelude.Rounding.{round_div}
use stello_kitchens.Money.{paisa}
use stello_kitchens.Orders.Rows.{LineRow}
use stello_kitchens.Orders.Split.{line_paise, subtotal_paise, equal_checks, discount_shares}
use stello_kitchens.Orders.Split.Laws.{equal_split_balances}
use stello_kitchens.Orders.Sample.{line_at}

abbrev two_lines : List LineRow
two_lines = line_at 21 1 1_000_000 ∷ (line_at 22 1 500_100 ∷ [])

-- 100.00 and 50.01 rupees by three, with 10 rupees off.
equal_split_balances_example :
    (sum (map subtotal_paise (equal_checks two_lines 3)) ≡ sum (map line_paise two_lines))
    × (sum (discount_shares 100_000 (equal_checks two_lines 3))
        ≡ min (round_div 100_000 paisa) (sum (map line_paise two_lines)))
equal_split_balances_example = equal_split_balances two_lines 3 100_000 (omega arith)
