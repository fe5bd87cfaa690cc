-- ===== src/Billing/Allocate/Tests.antt =====
-- Runs and instances of the theorems on `allocatePaise`.
use stello_kitchens.Prelude.{◌+◌, ◌*◌, ◌/◌, ◌≤◌, ◌≡◌, refl, List, [], ◌∷◌, arith, sum, get_or}
use stello_kitchens.Prelude.Int.{ℤ, pos, negsuc}
use stello_kitchens.Billing.Allocate.{allocate_paise, usable_weights}
use stello_kitchens.Billing.Allocate.Laws.{sum-allocate_paise}
use stello_kitchens.Billing.Allocate.Quota.{allocate_paise-quota}

abbrev thirds : List ℤ
thirds = pos 1 ∷ pos 1 ∷ pos 1 ∷ []

runs :
    (allocate_paise 100 thirds ≡ 34 ∷ 33 ∷ 33 ∷ [])
    × (allocate_paise 10 (negsuc 4 ∷ pos 3 ∷ pos 1 ∷ []) ≡ 0 ∷ 8 ∷ 2 ∷ [])
    × (allocate_paise 7 (pos 0 ∷ pos 0 ∷ []) ≡ 4 ∷ 3 ∷ [])
unfolding allocate_paise
runs = (refl, refl, refl)

sum-allocate_paise_example : sum (allocate_paise 100 thirds) ≡ 100
sum-allocate_paise_example = sum-allocate_paise 100 thirds (λ e. cc)

allocate_paise-quota_example :
    let ws = usable_weights thirds in
    let part = 100 * get_or ws 0 0 / sum ws in
    (part ≤ get_or (allocate_paise 100 thirds) 0 0)
    × (get_or (allocate_paise 100 thirds) 0 0 ≤ part + 1)
allocate_paise-quota_example = allocate_paise-quota 100 0 thirds (omega arith)
