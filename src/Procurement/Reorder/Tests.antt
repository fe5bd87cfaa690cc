-- ===== src/Procurement/Reorder/Tests.antt =====
-- Reorder suggestions at a run.
use stello_kitchens.Prelude.{ℕ, ◌≡◌, refl, Option, none, some}
use stello_kitchens.Prelude.Rounding.{round_div}
use stello_kitchens.Prelude.Int.{negsuc}
use stello_kitchens.Procurement.Reorder.{
  ReorderInput, suggest_reorder_qty, in_packs, packs_for, needed_of, reason_of, target_of,
}

-- 1 kg sold beyond the stock, a level of 5 kg and 6 kg of expected use; ordered in packs of 2.5 kg or
-- loose.
abbrev short_of : Option ℕ → ReorderInput
short_of pack = record {
  on_hand = negsuc 999_999_999;
  on_order = 0;
  reorder_level = 5_000_000_000;
  par_level = none;
  usage_lead = 2_000_000_000;
  usage_cover = 4_000_000_000;
  min_order_qty = pack;
}

loose : (suggest_reorder_qty (short_of none)).suggested ≡ 12_000
unfolding suggest_reorder_qty in_packs packs_for needed_of reason_of target_of round_div
loose = refl

packed : (suggest_reorder_qty (short_of (some 2_500_000_000))).suggested ≡ 12_500
unfolding suggest_reorder_qty in_packs packs_for needed_of reason_of target_of round_div
packed = refl
