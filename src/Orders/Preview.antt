-- ===== src/Orders/Preview.antt =====
-- `resolveDiscounts` and `preview` of apps/api/src/orders/orders.service.ts, with `splitTax` of
-- apps/api/src/invoices/invoices.service.ts. The states of the seller and the buyer are arguments.
pub mod Laws
use stello_kitchens.Prelude.Texts.{same_text}
use stello_kitchens.Prelude.{
  ℕ, ◌+◌, ◌-◌, ◌*◌, ◌/◌, ◌==◌, min, Bool, true, false, not, ◌&&◌, List, [], ◌∷◌, Option, none, some,
  ltb, if◌then◌else◌,
}
use stello_kitchens.Prelude.Rounding.{round_div}
use stello_kitchens.Prelude.Int.{ℤ}
use stello_kitchens.Money.{paisa, from_paise}
use stello_kitchens.Coupon.{CouponRule, evaluate_coupon}
use stello_kitchens.Billing.Bill.{BillTotals, ServiceCharge}
use stello_kitchens.Orders.Rows.{
  OrderRow, Db, AuthUser, Error, Result, ok, err, ◌>>=◌, ◌>>◌, refuse_if, is_open,
}
use stello_kitchens.Prelude.Texts.{Text}
use stello_kitchens.Orders.Store.{truthy, require_order}
use stello_kitchens.Orders.Totals.{
  service_charge_for, bill_for, charge_rate, charge_taxable, given_or,
}

pub record CouponRow : Type 0 where
  pub id : ℕ
  pub outlet_id : ℕ
  pub code : Text
  pub rule : CouponRule

pub record DiscountInput : Type 0 where
  pub discount_amount : Option ℕ
  pub coupon_code : Option Text
  pub redeem_points : Option ℕ
  pub customer_phone : Option Text

pub record Discounts : Type 0 where
  -- The coupon that was used.
  pub coupon : Option CouponRow
  pub coupon_discount : ℕ
  pub redeem_points : ℕ
  pub redeem_discount : ℕ
  pub total_discount : ℕ

unfoldable pub find_coupon : ℕ → Text → List CouponRow → Option CouponRow
unfolding same_text
find_coupon outlet code [] = none
find_coupon outlet code (c ∷ cs) =
    let rest = find_coupon outlet code cs in
    if c.outlet_id == outlet && same_text c.code code then some c else rest

abbrev pub rule_of : Option CouponRow → Option CouponRule
rule_of none = none
rule_of (some c) = some c.rule

abbrev pub empty : Text → Bool
empty [] = true
empty (c ∷ cs) = false

-- `a ?? b ?? ""`.
abbrev pub phone_of : Option Text → Option Text → Text
phone_of (some a) b = a
phone_of none (some b) = b
phone_of none none = []

pub record TaxParts : Type 0 where
  pub cgst : ℕ
  pub sgst : ℕ
  pub igst : ℕ

-- Between two states that are known and differ, the tax is integrated; otherwise it is halved.
abbrev pub inter_state : Option ℕ → Option ℕ → Bool
inter_state (some a) (some b) = not (a == b)
inter_state _ _ = false

unfoldable pub split_tax : ℕ → Option ℕ → Option ℕ → TaxParts
split_tax tax seller buyer =
    let paise = round_div tax paisa in
    if inter_state seller buyer
    then record { cgst = 0; sgst = 0; igst = from_paise paise }
    else record { cgst = from_paise (paise / 2); sgst = from_paise (paise - paise / 2); igst = 0 }

pub record BillPreview : Type 0 where
  pub subtotal : ℕ
  pub discount_amount : ℕ
  pub coupon_discount : ℕ
  pub redeem_discount : ℕ
  pub service_charge_amount : ℕ
  pub service_charge_percent : ℕ
  pub service_charge_taxable : Bool
  pub service_charge_removed : Bool
  pub tax_amount : ℕ
  pub tax_parts : TaxParts
  pub round_off : ℤ
  pub total : ℕ

unfoldable pub preview_of :
    OrderRow → BillTotals → Option ServiceCharge → Discounts → TaxParts → BillPreview
preview_of order bill sc d parts = record {
  subtotal = bill.subtotal;
  discount_amount = bill.discount_amount;
  coupon_discount = d.coupon_discount;
  redeem_discount = d.redeem_discount;
  service_charge_amount = bill.service_charge_amount;
  service_charge_percent = charge_rate sc;
  service_charge_taxable = charge_taxable sc;
  service_charge_removed = order.service_charge_waived;
  tax_amount = bill.tax_amount;
  tax_parts = parts;
  round_off = bill.round_off;
  total = bill.total;
}

-- `toUpperCase`, `trim` and `getTime` are the platform's; `now` is the text of the time.
module _ (upper trim : Text → Text) (get_time : Text → Option ℕ) (now : Text)
    (coupons : List CouponRow) where
  -- The coupon of the input and what it takes off.
  unfoldable pub resolve_coupon : ℕ → ℕ → Option Text → Result (Option CouponRow × ℕ)
  unfolding find_coupon
  resolve_coupon outlet subtotal none = ok (none, 0)
  resolve_coupon outlet subtotal (some []) = ok (none, 0)
  resolve_coupon outlet subtotal (some (c ∷ cs)) =
      let found = find_coupon outlet (upper (c ∷ cs)) coupons in
      let result = evaluate_coupon get_time (rule_of found) subtotal now in
      refuse_if (not result.valid) Error.coupon_refused >> ok (found, result.discount)

  unfoldable pub resolve_discounts : OrderRow → DiscountInput → ℕ → Text → Result Discounts
  unfolding resolve_coupon
  resolve_discounts order input point_value phone = do
    coupon ← resolve_coupon order.outlet_id order.subtotal input.coupon_code
    let points = given_or input.redeem_points 0
    refuse_if (ltb 0 points && empty phone) Error.phone_required
    let redeemed = points * point_value
    let asked = order.allocated_discount + given_or input.discount_amount 0 + coupon.1 + redeemed
    ok (record {
      coupon = coupon.0;
      coupon_discount = coupon.1;
      redeem_points = points;
      redeem_discount = redeemed;
      total_discount = min asked order.subtotal;
    })

  unfoldable pub preview :
      AuthUser → ℕ → DiscountInput → ℕ → Option ℕ → Option ℕ → Db → Result BillPreview
  unfolding resolve_discounts preview_of split_tax
  preview user order_id input point_value seller buyer db = do
    order ← require_order user order_id db
    refuse_if (not (is_open order.status)) Error.not_open
    refuse_if (truthy order.split_count) Error.is_split
    let phone = trim (phone_of input.customer_phone order.customer_phone)
    discounts ← resolve_discounts order input point_value phone
    let bill = bill_for order discounts.total_discount db
    let sc = service_charge_for (db.rules order.tenant_id order.outlet_id) order
    ok (preview_of order bill sc discounts (split_tax bill.tax_amount seller buyer))
