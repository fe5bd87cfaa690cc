-- ===== src/Coupon/Laws.antt =====
-- What `evaluateCoupon` promises: which coupons it accepts, and how much they take off at most.
use stello_kitchens.Prelude.{
  ℕ, ◌*◌, ◌≤◌, ◌<◌, ◌≡◌, ◌↔◌, ◌⊎◌, List, true, false, Option, none, some, arith,
}
use stello_kitchens.Prelude.Rounding.{round_div, round_div_mono, round_div_exact}
use stello_kitchens.Coupon.{
  CouponRule, discount_of, raw_discount, cap_at, evaluate_coupon, too_early, too_late, used_up,
}

-- What is at most a whole number of paise stays so when it is rounded.
rounds_within : (raw paise : ℕ) → raw ≤ paise * 1000000 → round_div raw 1000000 ≤ paise
rounds_within raw paise h = omega (
  arith,
  round_div_mono raw (paise * 1000000) 1000000 (omega arith) h,
  round_div_exact paise 1000000 (omega arith),
)

cap_at-le : (most d : ℕ) → cap_at (some most) d ≤ most * 10000
cap_at-le most d = omega arith

discount_of-le-subtotal : (c : CouponRule) (paise : ℕ) → discount_of c (paise * 100) ≤ paise * 100
unfolding discount_of raw_discount
discount_of-le-subtotal c paise =
    omega (arith, rounds_within (raw_discount c (paise * 100)) paise (omega arith))

discount_of-le-max :
    (c : CouponRule) (s most : ℕ)
    → c.max_discount ≡ some (most * 100)
    → discount_of c s ≤ most * 100
unfolding discount_of raw_discount
discount_of-le-max c s most e =
    omega (arith, rounds_within (raw_discount c s) most (simp e (omega arith)))

-- A time does not come before another; a text that is no date comes before none.
abbrev pub NotBefore : Option ℕ → Option ℕ → Type 0
NotBefore (some a) (some b) = b ≤ a
NotBefore _ _ = Unit

abbrev pub UsesLeft : Option ℕ → ℕ → Type 0
UsesLeft none used = Unit
UsesLeft (some limit) used = used < limit

module _ (get_time : List ℕ → Option ℕ) where
  abbrev pub Begun : Option (List ℕ) → Option ℕ → Type 0
  Begun none now = Unit
  Begun (some from) now = NotBefore now (get_time from)

  abbrev pub NotOver : Option (List ℕ) → Option ℕ → Type 0
  NotOver none now = Unit
  NotOver (some to) now = NotBefore (get_time to) now

  not_early :
      (c : CouponRule) (now : Option ℕ)
      → (too_early get_time c now ≡ false) ↔ Begun c.valid_from now
  not_early c now = ground arith

  not_late :
      (c : CouponRule) (now : Option ℕ) → (too_late get_time c now ≡ false) ↔ NotOver c.valid_to now
  not_late c now = ground arith

  not_used_up : (c : CouponRule) → (used_up c ≡ false) ↔ UsesLeft c.usage_limit c.used_count
  not_used_up c = ground arith

  accepts :
      (c : CouponRule) (subtotal : ℕ) (now_iso : List ℕ)
      → let now = get_time now_iso in
        ((evaluate_coupon get_time (some c) subtotal now_iso).valid ≡ true)
        ↔ (c.is_active ≡ true)
          × (too_early get_time c now ≡ false)
          × (too_late get_time c now ≡ false)
          × (used_up c ≡ false)
          × (c.min_order ≤ subtotal)
  unfolding evaluate_coupon
  accepts c subtotal now_iso = ground arith

  -- A coupon is accepted exactly when it is active, the time lies within its dates, uses are left and
  -- the order reaches the minimum.
  pub evaluate_coupon-valid_iff :
      (c : CouponRule) (subtotal : ℕ) (now_iso : List ℕ)
      → let now = get_time now_iso in
        ((evaluate_coupon get_time (some c) subtotal now_iso).valid ≡ true)
        ↔ (c.is_active ≡ true)
          × Begun c.valid_from now
          × NotOver c.valid_to now
          × UsesLeft c.usage_limit c.used_count
          × (c.min_order ≤ subtotal)
  evaluate_coupon-valid_iff c subtotal now_iso =
      let now = get_time now_iso in
      let (to, from) = accepts c subtotal now_iso in
      let (e, e') = not_early c now in
      let (l, l') = not_late c now in
      let (u, u') = not_used_up c in
      (
        λ h. let (a, b, d, g, m) = to h in (a, e b, l d, u g, m),
        λ h. let (a, b, d, g, m) = h in from (a, e' b, l' d, u' g, m),
      )

  -- On a subtotal in whole paise a coupon with a maximum in whole paise takes off at most the
  -- subtotal and at most its maximum, and nothing at all if it is refused.
  pub evaluate_coupon-bounded :
      (c : CouponRule) (paise most : ℕ) (now_iso : List ℕ)
      → c.max_discount ≡ some (most * 100)
      → let r = evaluate_coupon get_time (some c) (paise * 100) now_iso in
        (r.discount ≤ paise * 100)
        × (r.discount ≤ most * 100)
        × ((r.valid ≡ true) ⊎ (r.discount ≡ 0))
  unfolding evaluate_coupon
  evaluate_coupon-bounded c paise most now_iso h =
      ground (arith, discount_of-le-subtotal c paise, discount_of-le-max c (paise * 100) most h)
