-- ===== src/Billing/SplitEqually/Tests.antt =====
-- Runs and instances of the theorems on `splitLinesEqually`.
use stello_kitchens.Prelude.{ℕ, ◌+◌, ◌≤◌, ◌≡◌, refl, List, [], ◌∷◌, arith, sum, sum_by, get_or}
use stello_kitchens.Billing.SplitEqually.{split_lines_equally}
use stello_kitchens.Billing.SplitEqually.Laws.{split_lines_equally_fair, split_lines_equally_whole}

abbrev lines : List ℕ
lines = 100 ∷ 50 ∷ []

runs : split_lines_equally lines 3 ≡ (34 ∷ 16 ∷ []) ∷ (33 ∷ 17 ∷ []) ∷ (33 ∷ 17 ∷ []) ∷ []
unfolding split_lines_equally
runs = refl

split_lines_equally_fair_example :
    sum (get_or (split_lines_equally lines 3) 0 [])
    ≤ sum (get_or (split_lines_equally lines 3) 2 []) + 1
split_lines_equally_fair_example = split_lines_equally_fair lines 3 0 2 (omega arith) (omega arith)

split_lines_equally_whole_example :
    sum_by (λ check. get_or check 1 0) (split_lines_equally lines 3) ≡ 50
split_lines_equally_whole_example = split_lines_equally_whole lines 3 1 (omega arith) (omega arith)
