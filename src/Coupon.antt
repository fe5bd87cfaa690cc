-- ===== src/Coupon.antt =====
-- packages/shared/src/coupon.ts: whether a coupon applies, and what it takes off. Amounts are in
-- ten-thousandths of a rupee and percentages in hundredths of a percent, as in the module Money.
-- `new Date(text).getTime()` is the parameter `get_time`; a text that is no date has no time, and
-- compares with nothing.
pub mod Laws
mod Tests
use stello_kitchens.Prelude.{
  ℕ, ◌*◌, min, List, Bool, true, false, not, Option, none, some, ltb, leb, if◌then◌else◌,
}
use stello_kitchens.Prelude.Rounding.{round_div}
use stello_kitchens.Money.{paisa, rate_scale}

pub data CouponType : Type 0 where
  percent flat : CouponType

pub record CouponRule : Type 0 where
  pub type : CouponType
  pub value : ℕ
  pub min_order : ℕ
  pub max_discount : Option ℕ
  pub valid_from : Option (List ℕ)
  pub valid_to : Option (List ℕ)
  pub usage_limit : Option ℕ
  pub used_count : ℕ
  pub is_active : Bool

-- The messages of the source, by their reason.
pub data Message : Type 0 where
  not_found inactive not_valid_yet expired limit_reached requires_minimum applied : Message

pub record CouponEvaluation : Type 0 where
  pub valid : Bool
  pub discount : ℕ
  pub message : Message

abbrev pub refuse : Message → CouponEvaluation
refuse m = record { valid = false; discount = 0; message = m }

-- `a < b` on times.
abbrev pub earlier : Option ℕ → Option ℕ → Bool
earlier (some a) (some b) = ltb a b
earlier _ _ = false

-- `coupon.usageLimit != null && coupon.usedCount >= coupon.usageLimit`.
abbrev pub used_up : CouponRule → Bool
used_up c = elim c.usage_limit [ none ↦ false | some limit ↦ leb limit c.used_count ]

abbrev pub by_type : CouponType → ℕ → ℕ → ℕ
by_type percent p f = p
by_type flat p f = f

-- `if (coupon.maxDiscount != null) discount = Math.min(discount, coupon.maxDiscount)`.
abbrev pub cap_at : Option ℕ → ℕ → ℕ
cap_at none d = d
cap_at (some most) d = min d (most * rate_scale)

-- The discount before it is rounded, times `rate_scale`.
unfoldable pub raw_discount : CouponRule → ℕ → ℕ
raw_discount c subtotal =
    let gross = by_type c.type (subtotal * c.value) (c.value * rate_scale) in
    let capped = cap_at c.max_discount gross in min capped (subtotal * rate_scale)

unfoldable pub discount_of : CouponRule → ℕ → ℕ
unfolding raw_discount
discount_of c subtotal = round_div (raw_discount c subtotal) (paisa * rate_scale) * paisa

module _ (get_time : List ℕ → Option ℕ) where
  -- `coupon.validFrom && now < new Date(coupon.validFrom).getTime()`.
  abbrev pub too_early : CouponRule → Option ℕ → Bool
  too_early c now = elim c.valid_from [ none ↦ false | some from ↦ earlier now (get_time from) ]

  abbrev pub too_late : CouponRule → Option ℕ → Bool
  too_late c now = elim c.valid_to [ none ↦ false | some to ↦ earlier (get_time to) now ]

  unfoldable pub evaluate_coupon : Option CouponRule → ℕ → List ℕ → CouponEvaluation
  unfolding discount_of
  evaluate_coupon none subtotal now_iso = refuse not_found
  evaluate_coupon (some c) subtotal now_iso =
      let now = get_time now_iso in
      if not c.is_active
      then refuse inactive
      else (if too_early c now
          then refuse not_valid_yet
          else (if too_late c now
              then refuse expired
              else (if used_up c
                  then refuse limit_reached
                  else (if ltb subtotal c.min_order then refuse requires_minimum else record {
                    valid = true;
                    discount = discount_of c subtotal;
                    message = applied;
                  }))))
