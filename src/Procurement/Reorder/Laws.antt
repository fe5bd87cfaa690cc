-- ===== src/Procurement/Reorder/Laws.antt =====
-- How a reorder suggestion is rounded up to packs.
use stello_kitchens.Prelude.{ℕ, ◌+◌, ◌-◌, ◌*◌, ◌≤◌, ◌<◌, arith}
use native.Mathlib.Nat.{lt-div-mul-add, div-mul-le_self}
use stello_kitchens.Procurement.Reorder.{packs_for, billion}

-- Enough packs, and not one too many, each time up to a billionth of a pack.
pub packs_for_lem :
    (needed pack : ℕ)
    → 0 < pack
    → (billion * needed ≤ billion * (packs_for needed pack * pack) + pack)
      × (billion * (packs_for needed pack * pack) ≤ billion * needed + billion * pack)
unfolding packs_for
packs_for_lem needed pack h =
    let n = billion * needed - pack + (billion * pack - 1) in
    let up = lt-div-mul-add {a = n} {b = billion * pack} (omega arith) in
    let down = div-mul-le_self n (billion * pack) in (omega arith, omega arith)
