-- ===== src/Coupon/Tests.antt =====
-- Runs and instances of the theorems on coupons.
use stello_kitchens.Prelude.{ℕ, ◌≤◌, ◌≡◌, ◌↔◌, ◌⊎◌, refl, List, [], ◌∷◌, true, Option, none, some}
use stello_kitchens.Prelude.Rounding.{round_div}
use stello_kitchens.Coupon.{CouponType, CouponRule, evaluate_coupon, limit_reached}
use stello_kitchens.Coupon.Laws.{
  evaluate_coupon-valid_iff, Begun, NotOver, UsesLeft, evaluate_coupon-bounded,
}

-- A text of one character is the time of its code.
abbrev get_time : List ℕ → Option ℕ
get_time (t ∷ []) = some t
get_time _ = none

-- 12.5% off from Rs 100, Rs 20 at most, between the times 10 and 20.
abbrev coupon : CouponRule
coupon = record {
  type = CouponType.percent;
  value = 1250;
  min_order = 1000000;
  max_discount = some 200000;
  valid_from = some (10 ∷ []);
  valid_to = some (20 ∷ []);
  usage_limit = some 5;
  used_count = 4;
  is_active = true;
}

runs :
    ((evaluate_coupon get_time (some coupon) 1234500 (15 ∷ [])).discount ≡ 154300)
    × ((evaluate_coupon get_time (some coupon) 9000000 (15 ∷ [])).discount ≡ 200000)
    × ((evaluate_coupon get_time
          (some (record coupon { used_count = 5 }))
          9000000
          (15 ∷ [])).message
        ≡ limit_reached)
unfolding evaluate_coupon round_div
runs = (refl, refl, refl)

evaluate_coupon-valid_iff_example :
    ((evaluate_coupon get_time (some coupon) 1234500 (15 ∷ [])).valid ≡ true)
    ↔ (true ≡ true)
      × Begun get_time coupon.valid_from (some 15)
      × NotOver get_time coupon.valid_to (some 15)
      × UsesLeft coupon.usage_limit coupon.used_count
      × (1000000 ≤ 1234500)
evaluate_coupon-valid_iff_example = evaluate_coupon-valid_iff get_time coupon 1234500 (15 ∷ [])

evaluate_coupon-bounded_example :
    let r = evaluate_coupon get_time (some coupon) 1234500 (15 ∷ []) in
    (r.discount ≤ 1234500) × (r.discount ≤ 200000) × ((r.valid ≡ true) ⊎ (r.discount ≡ 0))
evaluate_coupon-bounded_example = evaluate_coupon-bounded get_time coupon 12345 2000 (15 ∷ []) refl
