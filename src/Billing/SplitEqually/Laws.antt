-- ===== src/Billing/SplitEqually/Laws.antt =====
-- `splitLinesEqually`: every line is shared out whole, and the checks differ by at most a paisa.
use native.Mathlib.Nat.{mod-lt, div-mul-le_self, zero-add}
use mathlib.Core.Path.{subst}
use native.Mathlib.Numerals.{add-one}
use stello_kitchens.Prelude.{
  ℕ, zero, suc, ◌+◌, ◌-◌, ◌*◌, ◌/◌, ◌%◌, ◌≤◌, ◌<◌, ◌≡◌, ◌∙◌, refl, sym, ap, List, [], ◌∷◌, map,
  arith, length, get_or, sum, sum_by, replicate, length-replicate, get_or-replicate, get_or-map,
  sum-replicate, range_from, All, length-map, length-range_from,
}
use stello_kitchens.Billing.Allocate.{bump}
use stello_kitchens.Billing.Allocate.Laws.{length-bump, sum-bump}
use stello_kitchens.Billing.Allocate.Quota.{get_or-bump}
use stello_kitchens.Billing.SplitEqually.{
  rotate, column_of, columns_from, check_row, split_lines_equally,
}
use stello_kitchens.Billing.SplitEqually.Hits.{hits, hits-add, hits-mod, hits_closed}

length-rotate : (parts at rem : ℕ) (col : List ℕ) → length (rotate parts at rem col) ≡ length col
unfolding rotate
length-rotate parts at zero col = refl
length-rotate parts at (suc rem) col =
    length-rotate parts (at + 1) rem (bump (at % parts) col) ∙ length-bump (at % parts) col

sum-rotate :
    (parts at rem : ℕ) (col : List ℕ)
    → length col ≡ parts
    → 0 < parts
    → sum (rotate parts at rem col) ≡ sum col + rem
unfolding rotate
sum-rotate parts at zero col e h = omega arith
sum-rotate parts at (suc rem) col e h = omega (
  arith,
  sum-rotate parts (at + 1) rem (bump (at % parts) col) (length-bump (at % parts) col ∙ e) h,
  sum-bump (at % parts) col (omega (arith, mod-lt at h)),
)

get_or-rotate :
    (parts at rem c : ℕ) (col : List ℕ)
    → c < length col
    → get_or (rotate parts at rem col) c 0 ≡ get_or col c 0 + hits parts c at rem
unfolding rotate hits
get_or-rotate parts at zero c col h = omega arith
get_or-rotate parts at (suc rem) c col h = omega (
  arith,
  get_or-rotate parts (at + 1) rem c (bump (at % parts) col)
      (omega (arith, length-bump (at % parts) col)),
  get_or-bump (at % parts) c col h,
)

module _ (parts : ℕ) (some_parts : 0 < parts) where
  length-column_of : (offset p : ℕ) → length (column_of parts offset p) ≡ parts
  unfolding column_of
  length-column_of offset p =
      let base = p / parts in
      length-rotate parts offset (p - base * parts) (replicate parts base)
      ∙ length-replicate parts base

  -- A column holds all of its line.
  sum-column_of : (offset p : ℕ) → sum (column_of parts offset p) ≡ p
  unfolding column_of
  sum-column_of offset p =
      let base = p / parts in
      omega (
        arith,
        sum-rotate parts offset (p - base * parts) (replicate parts base)
            (length-replicate parts base) some_parts,
        sum-replicate parts base,
        div-mul-le_self p parts,
      )

  get_or-column_of :
      (offset p c : ℕ)
      → c < parts
      → get_or (column_of parts offset p) c 0
        ≡ p / parts + hits parts c offset (p - p / parts * parts)
  unfolding column_of
  get_or-column_of offset p c h =
      let base = p / parts in
      omega (
        arith,
        get_or-rotate parts offset (p - base * parts) c (replicate parts base)
            (omega (arith, length-replicate parts base)),
        get_or-replicate parts c base 0 h,
      )

  -- What is left of each line after its whole share.
  abbrev rem_of : ℕ → ℕ
  rem_of p = p - p / parts * parts

  -- The subtotal of a check: the whole shares, and its hits among all the leftover paise.
  sum-check_row :
      (offset c : ℕ) (ps : List ℕ)
      → c < parts
      → sum (check_row (columns_from parts offset ps) c)
        ≡ sum_by (λ p. p / parts) ps + hits parts c offset (sum_by rem_of ps)
  unfolding columns_from hits
  sum-check_row offset c [] h = refl
  sum-check_row offset c (p ∷ ps) h =
      let next = (offset + rem_of p) % parts in
      omega (
        arith,
        sum-check_row next c ps h,
        get_or-column_of offset p c h,
        hits-add parts c offset (rem_of p) (sum_by rem_of ps),
        hits-mod parts c (offset + rem_of p) (sum_by rem_of ps),
      )

get_or-range_from : (i n c : ℕ) → c < n → get_or (range_from i n) c 0 ≡ i + c
get_or-range_from i zero c h = elim h [ ]
get_or-range_from i (suc n) zero h = omega arith
get_or-range_from i (suc n) (suc c) h = omega (arith, get_or-range_from (i + 1) n c)

get_or-split :
    (ps : List ℕ) (parts c : ℕ)
    → c < parts
    → get_or (split_lines_equally ps parts) c [] ≡ check_row (columns_from parts 0 ps) c
unfolding split_lines_equally
get_or-split ps parts c h =
    get_or-map (check_row (columns_from parts 0 ps)) (range_from 0 parts) c 0 []
      (omega (arith, length-range_from 0 parts))
    ∙ ap (check_row (columns_from parts 0 ps)) (get_or-range_from 0 parts c h ∙ zero-add c)

-- The subtotals of any two checks differ by at most one paisa.
pub split_lines_equally_fair :
    (ps : List ℕ) (parts c d : ℕ)
    → c < parts
    → d < parts
    → sum (get_or (split_lines_equally ps parts) c [])
      ≤ sum (get_or (split_lines_equally ps parts) d []) + 1
split_lines_equally_fair ps parts c d hc hd =
    let some_parts : 0 < parts = omega arith in
    let all = sum_by (rem_of parts some_parts) ps in
    ground (
      arith,
      ap sum (get_or-split ps parts c hc),
      ap sum (get_or-split ps parts d hd),
      sum-check_row parts some_parts 0 c ps hc,
      sum-check_row parts some_parts 0 d ps hd,
      hits_closed parts c all hc,
      hits_closed parts d all hd,
    )

sum-range_cons :
    (x : ℕ) (xs : List ℕ) (i n : ℕ)
    → sum_by (λ c. get_or (x ∷ xs) c 0) (range_from (i + 1) n)
      ≡ sum_by (λ c. get_or xs c 0) (range_from i n)
sum-range_cons x xs i zero = refl
sum-range_cons x xs i (suc n) =
    omega (arith, sum-range_cons x xs (i + 1) n, ap (λ c. get_or (x ∷ xs) c 0) (add-one i))

sum-range : (xs : List ℕ) → sum_by (λ c. get_or xs c 0) (range_from 0 (length xs)) ≡ sum xs
sum-range [] = refl
sum-range (x ∷ xs) = omega (arith, sum-range_cons x xs 0 (length xs), sum-range xs)

-- One line over all rows of the table is one column.
sum-rows :
    (columns : List (List ℕ)) (i : ℕ) (checks : List ℕ)
    → i < length columns
    → sum_by (λ row. get_or row i 0) (map (check_row columns) checks)
      ≡ sum_by (λ c. get_or (get_or columns i []) c 0) checks
sum-rows columns i [] h = refl
sum-rows columns i (c ∷ cs) h = omega (
  arith,
  sum-rows columns i cs h,
  get_or-map (λ (column : List ℕ). get_or column c 0) columns i [] 0 h,
)

length-columns_from :
    (parts offset : ℕ) (ps : List ℕ) → length (columns_from parts offset ps) ≡ length ps
unfolding columns_from
length-columns_from parts offset [] = refl
length-columns_from parts offset (p ∷ ps) =
    ap suc (length-columns_from parts ((offset + (p - p / parts * parts)) % parts) ps)

get_or-columns_from :
    (parts offset i : ℕ) (ps : List ℕ)
    → 0 < parts
    → i < length ps
    → let column = get_or (columns_from parts offset ps) i [] in
      (length column ≡ parts) × (sum column ≡ get_or ps i 0)
unfolding columns_from
get_or-columns_from parts offset i [] h lt = elim lt [ ]
get_or-columns_from parts offset zero (p ∷ ps) h lt =
    (length-column_of parts h offset p, sum-column_of parts h offset p)
get_or-columns_from parts offset (suc i) (p ∷ ps) h lt =
    get_or-columns_from parts ((offset + (p - p / parts * parts)) % parts) i ps h (omega arith)

-- What the checks pay for a line adds up to the line, for every line.
pub split_lines_equally_whole :
    (ps : List ℕ) (parts i : ℕ)
    → 0 < parts
    → i < length ps
    → sum_by (λ check. get_or check i 0) (split_lines_equally ps parts) ≡ get_or ps i 0
unfolding split_lines_equally
split_lines_equally_whole ps parts i h lt =
    let columns = columns_from parts 0 ps in
    let column = get_or columns i [] in
    let (full, whole) = get_or-columns_from parts 0 i ps h lt in
    sum-rows columns i (range_from 0 parts) (omega (arith, length-columns_from parts 0 ps))
    ∙ ap (λ n. sum_by (λ c. get_or column c 0) (range_from 0 n)) (sym full)
    ∙ sum-range column
    ∙ whole

head_row :
    (column : List ℕ) (columns : List (List ℕ)) (checks : List ℕ)
    → sum_by sum (map (check_row (column ∷ columns)) checks)
      ≡ sum_by (λ c. get_or column c 0) checks + sum_by sum (map (check_row columns) checks)
head_row column columns [] = refl
head_row column columns (c ∷ cs) = omega (arith, head_row column columns cs)

-- The table summed by rows is the table summed by columns.
sum-rows_columns :
    (columns : List (List ℕ)) (checks : List ℕ)
    → sum_by sum (map (check_row columns) checks)
      ≡ sum_by (λ column. sum_by (λ c. get_or column c 0) checks) columns
sum-rows_columns [] [] = refl
sum-rows_columns [] (c ∷ cs) = omega (arith, sum-rows_columns [] cs)
sum-rows_columns (column ∷ columns) checks =
    omega (arith, head_row column columns checks, sum-rows_columns columns checks)

sum-columns :
    (parts offset : ℕ) (ps : List ℕ)
    → 0 < parts
    → sum_by
        (λ column. sum_by (λ c. get_or column c 0) (range_from 0 parts))
        (columns_from parts offset ps)
      ≡ sum ps
unfolding columns_from
sum-columns parts offset [] h = refl
sum-columns parts offset (p ∷ ps) h =
    let column = column_of parts offset p in
    omega (
      arith,
      sum-columns parts ((offset + (p - p / parts * parts)) % parts) ps h,
      ap (λ n. sum_by (λ c. get_or column c 0) (range_from 0 n))
          (length-column_of parts h offset p),
      sum-range column,
      sum-column_of parts h offset p,
    )

-- The total of all checks is the total of all lines.
pub sum-split_lines_equally :
    (ps : List ℕ) (parts : ℕ) → 0 < parts → sum_by sum (split_lines_equally ps parts) ≡ sum ps
unfolding split_lines_equally
sum-split_lines_equally ps parts h =
    sum-rows_columns (columns_from parts 0 ps) (range_from 0 parts) ∙ sum-columns parts 0 ps h

length-rows :
    (columns : List (List ℕ)) (checks : List ℕ)
    → All (λ row. length row ≡ length columns) (map (check_row columns) checks)
length-rows columns [] = tt
length-rows columns (c ∷ cs) =
    (length-map (λ (column : List ℕ). get_or column c 0) columns, length-rows columns cs)

-- Every check has a share of every line.
pub length-split_lines_equally :
    (ps : List ℕ) (parts : ℕ) → All (λ row. length row ≡ length ps) (split_lines_equally ps parts)
unfolding split_lines_equally
length-split_lines_equally ps parts =
    subst
      (λ n.
        All (λ row. length row ≡ n)
          (map (check_row (columns_from parts 0 ps)) (range_from 0 parts)))
      (length-columns_from parts 0 ps) (length-rows (columns_from parts 0 ps) (range_from 0 parts))
