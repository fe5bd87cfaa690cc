-- ===== src/Billing/Allocate.antt =====
-- `allocatePaise` of packages/shared/src/billing.ts: a total in whole paise, shared in proportion to
-- weights by the largest remainders. Every number of the source is a quotient by the sum of the
-- weights; the model keeps the numerators.
pub mod Laws
pub mod Quota
mod Tests
use stello_kitchens.Prelude.{
  ℕ, zero, suc, ◌+◌, ◌-◌, ◌*◌, ◌/◌, ◌%◌, List, [], ◌∷◌, map, Bool, ◌&&◌, ◌||◌, ltb, leb, ◌==◌,
  if◌then◌else◌, length, get_or, sum, replicate,
}
use stello_kitchens.Prelude.Int.{ℤ, max_zero}

-- `w` and `wSum`: negative weights count as zero, and weights that are all zero as one each.
unfoldable pub usable_weights : List ℤ → List ℕ
usable_weights weights =
    let clamped = map max_zero weights in
    if ltb 0 (sum clamped) then clamped else replicate (length weights) 1

-- An index of `order` with the numerator of its fraction.
pub record Share : Type 0 where
  pub index : ℕ
  pub frac : ℕ

-- The comparator `b.frac - a.frac || a.i - b.i`, as "a comes no later than b".
abbrev pub before : Share → Share → Bool
before a b = ltb b.frac a.frac || (a.frac == b.frac && leb a.index b.index)

unfoldable pub insert : Share → List Share → List Share
insert a [] = a ∷ []
insert a (b ∷ bs) = if before a b then a ∷ b ∷ bs else b ∷ insert a bs

unfoldable pub sort : List Share → List Share
unfolding insert
sort [] = []
sort (a ∷ as') = insert a (sort as')

-- `exact.map((x, i) => ({ i, frac: x - Math.floor(x) }))`, from the index `i` on.
unfoldable pub shares_from : ℕ → ℕ → ℕ → List ℕ → List Share
shares_from total w_sum i [] = []
shares_from total w_sum i (w ∷ ws) =
    record { index = i; frac = total * w % w_sum } ∷ shares_from total w_sum (i + 1) ws

-- `parts[i] += 1`.
unfoldable pub bump : ℕ → List ℕ → List ℕ
bump i [] = []
bump zero (p ∷ ps) = (p + 1) ∷ ps
bump (suc i) (p ∷ ps) = p ∷ bump i ps

-- The loop that hands out the `rest`, one paisa a round.
unfoldable pub spread : List ℕ → ℕ → ℕ → List ℕ → List ℕ
unfolding bump
spread order k zero parts = parts
spread order k (suc rest) parts =
    spread order ((k + 1) % length order) rest (bump (get_or order k 0) parts)

abbrev pub index_of : Share → ℕ
index_of s = s.index

unfoldable pub floors : ℕ → ℕ → List ℕ → List ℕ
floors total w_sum = map (λ w. total * w / w_sum)

unfoldable pub order_of : ℕ → ℕ → List ℕ → List ℕ
unfolding sort shares_from
order_of total w_sum ws = map index_of (sort (shares_from total w_sum 0 ws))

-- With the weights made usable.
unfoldable pub allocate : ℕ → List ℕ → List ℕ
unfolding spread floors order_of
allocate total ws =
    let w_sum = sum ws in
    let parts = floors total w_sum ws in
    spread (order_of total w_sum ws) 0 (total - sum parts) parts

unfoldable pub allocate_paise : ℕ → List ℤ → List ℕ
unfolding usable_weights allocate
allocate_paise total [] = []
allocate_paise total (w ∷ ws) = allocate total (usable_weights (w ∷ ws))
