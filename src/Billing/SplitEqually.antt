-- ===== src/Billing/SplitEqually.antt =====
-- `splitLinesEqually` of packages/shared/src/billing.ts. The source fills a table `out[check][line]`
-- column by column; here a column is the list of a line's paise by check.
pub mod Hits
pub mod Laws
mod Tests
use stello_kitchens.Prelude.{
  ℕ, zero, suc, ◌+◌, ◌-◌, ◌*◌, ◌/◌, ◌%◌, List, [], ◌∷◌, map, get_or, replicate, range_from,
}
use stello_kitchens.Billing.Allocate.{bump}

-- `for (let k = 0; k < rem; k++) out[(offset + k) % parts][li] += 1`.
unfoldable pub rotate : ℕ → ℕ → ℕ → List ℕ → List ℕ
unfolding bump
rotate parts at zero column = column
rotate parts at (suc rem) column = rotate parts (at + 1) rem (bump (at % parts) column)

unfoldable pub column_of : ℕ → ℕ → ℕ → List ℕ
unfolding rotate
column_of parts offset p =
    let base = p / parts in rotate parts offset (p - base * parts) (replicate parts base)

-- The loop over the lines, with the offset that it carries.
unfoldable pub columns_from : ℕ → ℕ → List ℕ → List (List ℕ)
unfolding column_of
columns_from parts offset [] = []
columns_from parts offset (p ∷ ps) =
    column_of parts offset p ∷ columns_from parts ((offset + (p - p / parts * parts)) % parts) ps

-- Row `c` of the table: what each line costs check `c`.
abbrev pub check_row : List (List ℕ) → ℕ → List ℕ
check_row columns c = map (λ column. get_or column c 0) columns

unfoldable pub split_lines_equally : List ℕ → ℕ → List (List ℕ)
unfolding columns_from
split_lines_equally line_paise parts =
    map (check_row (columns_from parts 0 line_paise)) (range_from 0 parts)
