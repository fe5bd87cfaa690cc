-- ===== src/Procurement/Reorder.antt =====
-- `suggestReorderQty` of packages/shared/src/procurement.ts. Quantities
-- are in billionths, and in thousandths where `round3` has rounded them; stock may be negative. The suggestion is rounded up to packs with the tolerance of 1e-9.
pub mod Laws
mod Tests
use stello_kitchens.Prelude.{
  ℕ, ◌+◌, ◌-◌, ◌*◌, ◌/◌, max, Bool, Option, none, some, ltb, leb, if◌then◌else◌,
}
use stello_kitchens.Prelude.Rounding.{round_div}
use stello_kitchens.Prelude.Int.{ℤ, pos, ◌+ℤ◌, ◌-ℤ◌, pos_part, leb_ℤ, round_div_ℤ}

pub record ReorderInput : Type 0 where
  pub on_hand : ℤ
  pub on_order : ℕ
  pub reorder_level : ℕ
  pub par_level : Option ℕ
  pub usage_lead : ℕ
  pub usage_cover : ℕ
  pub min_order_qty : Option ℕ

pub data Reason : Type 0 where
  covered at_or_below_level to_par demand_exceeds : Reason

pub record Suggestion : Type 0 where
  pub projected_at_arrival : ℤ
  pub target : ℕ
  pub suggested : ℕ
  pub reason : Reason

abbrev pub or_zero : Option ℕ → ℕ
or_zero none = 0
or_zero (some n) = n

-- A thousandth, in billionths: `round3`.
abbrev pub thousandth : ℕ
thousandth = 1_000_000

-- 1e9.
abbrev pub billion : ℕ
billion = 1_000_000_000

-- `Math.ceil(suggested / pack - 1e-9)`.
unfoldable pub packs_for : ℕ → ℕ → ℕ
packs_for needed pack = (billion * needed - pack + (billion * pack - 1)) / (billion * pack)

-- `suggested > 0 && i.minOrderQty && i.minOrderQty > 0`.
unfoldable pub in_packs : ℕ → Option ℕ → ℕ
unfolding packs_for
in_packs needed pack =
    let size = or_zero pack in
    if ltb 0 needed then (if ltb 0 size then packs_for needed size * size else needed) else needed

unfoldable pub target_of : ReorderInput → ℕ
target_of i = max (or_zero i.par_level) (i.usage_cover + i.reorder_level)

-- `onHand + onOrder - usageLead`.
abbrev pub projected_of : ReorderInput → ℤ
projected_of i = i.on_hand +ℤ pos i.on_order -ℤ pos i.usage_lead

-- `Math.max(0, target - projectedAtArrival)`.
unfoldable pub needed_of : ReorderInput → ℕ
unfolding target_of ◌+ℤ◌ ◌-ℤ◌
needed_of i = pos_part (pos (target_of i) -ℤ projected_of i)

unfoldable pub reason_of : ReorderInput → ℕ → Reason
reason_of i suggested =
    if ltb 0 suggested
    then (if leb_ℤ i.on_hand (pos i.reorder_level)
        then at_or_below_level
        else (if ltb (i.usage_cover + i.reorder_level) (or_zero i.par_level)
            then to_par
            else demand_exceeds))
    else covered

unfoldable pub suggest_reorder_qty : ReorderInput → Suggestion
unfolding needed_of in_packs reason_of ◌+ℤ◌ ◌-ℤ◌
suggest_reorder_qty i =
    let suggested = in_packs (needed_of i) i.min_order_qty in
    record {
      projected_at_arrival = round_div_ℤ (projected_of i) thousandth;
      target = round_div (target_of i) thousandth;
      suggested = round_div suggested thousandth;
      reason = reason_of i suggested;
    }
