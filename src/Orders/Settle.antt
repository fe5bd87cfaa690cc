-- ===== src/Orders/Settle.antt =====
-- `settle` of apps/api/src/orders/orders.service.ts: the discounts, the payments against the total, gift
-- cards, the bill number, the drawer, loyalty points and the coupon's count, in one transaction. The
-- amount of a payment is in ten-thousandths of a rupee, as the columns of an order are.
pub mod Steps
pub mod Laws
pub mod Tenders
pub mod Coupons
pub mod Points
pub mod Shown
mod Tests
use stello_kitchens.Prelude.{
  ℕ, ◌+◌, ◌*◌, ◌==◌, Bool, true, false, not, List, [], ◌∷◌, ◌++◌, map, Option, none, some, ltb,
  if◌then◌else◌, sum_by, any,
}
use stello_kitchens.Prelude.Rounding.{round_div}
use stello_kitchens.Prelude.Texts.{Text}
use stello_kitchens.Prelude.Int.{ℤ, pos, sub_ℕ}
use stello_kitchens.Money.{paisa}
use stello_kitchens.Coupon.{CouponRule}
use stello_kitchens.GiftCards.{
  Vault, CardPayment, Redemption, MovementType, redeem_gift_cards, pay_into,
}
use stello_kitchens.Loyalty.{
  Otp, Customer, LoyaltyTxn, LoyaltyType, Visit, verify_and_consume, redeem_points, upsert_customer,
  find_customer,
}
use stello_kitchens.Orders.Rows.{
  OrderRow, OrderStatus, Action, Db, AuthUser, Error, Result, ok, err, ◌>>=◌, ◌>>◌, refuse_if,
  or_err,
}
use stello_kitchens.Orders.Store.{find_order, update_order, audit, truthy, lock_open_order}
use stello_kitchens.Orders.Totals.{recompute_totals}
use stello_kitchens.Orders.Merge.{or_else}
use stello_kitchens.Orders.Void.{close_split_parent_if_done}
use stello_kitchens.Orders.Preview.{
  CouponRow, DiscountInput, Discounts, phone_of, empty, resolve_discounts,
}

-- How a payment is made; the request's schema wants a code with a gift card.
pub data PaymentMode : Type 0 where
  cash card upi wallet other : PaymentMode
  gift_card : Text → PaymentMode

pub record Payment : Type 0 where
  pub mode : PaymentMode
  pub amount : ℕ

pub record SettleInput : Type 0 where
  pub payments : List Payment
  pub discounts : DiscountInput
  pub redeem_otp : Option Text
  pub customer_name : Option Text

-- The outlet's settings; a rate and a point's value are in ten-thousandths.
pub record OutletRow : Type 0 where
  pub id : ℕ
  pub loyalty_point_value : ℕ
  pub loyalty_earn_rate : ℕ
  pub next_bill_number : ℕ

pub record OrderPayment : Type 0 where
  pub order_id : ℕ
  pub payment : Payment

pub record Shop : Type 0 where
  pub db : Db
  pub outlets : List OutletRow
  pub coupons : List CouponRow
  pub vault : Vault
  pub otps : List Otp
  pub customers : List Customer
  pub loyalty : List LoyaltyTxn
  pub payments : List OrderPayment

-- What a settlement reads without a lock, before it writes; others may write in between.
pub record Seen : Type 0 where
  pub outlets : List OutletRow
  pub coupons : List CouponRow
  pub otps : List Otp

-- The time of a request: as a text, in milliseconds, and as a day.
pub record Clock : Type 0 where
  pub text : Text
  pub instant : ℕ
  pub day : ℕ

unfoldable pub find_outlet : ℕ → List OutletRow → Option OutletRow
find_outlet id [] = none
find_outlet id (o ∷ os) = let rest = find_outlet id os in if o.id == id then some o else rest

abbrev pub next_bill : OutletRow → OutletRow
next_bill o = record o { next_bill_number = o.next_bill_number + 1 }

unfoldable pub take_bill_number : ℕ → List OutletRow → List OutletRow
take_bill_number id = map (λ o. if o.id == id then next_bill o else o)

-- The payments in paise.
abbrev pub paid_paise : List Payment → ℕ
paid_paise = sum_by (λ p. round_div p.amount paisa)

abbrev pub cash_amount : Payment → ℕ
cash_amount p = elim p.mode [ cash ↦ p.amount | _ ↦ 0 ]

abbrev pub cash_taken : List Payment → ℕ
cash_taken = sum_by cash_amount

unfoldable pub card_payments : List Payment → List CardPayment
card_payments [] = []
card_payments (p ∷ ps) = elim p.mode [
  | gift_card code ↦ record { code = code; amount = p.amount } ∷ card_payments ps
  | _ ↦ card_payments ps
]

-- `Math.round(total * earnRate)`.
abbrev pub points_earned : ℕ → OutletRow → ℕ
points_earned total outlet = round_div (total * outlet.loyalty_earn_rate) 100_000_000

abbrev pub entry_if : Bool → LoyaltyTxn → List LoyaltyTxn
entry_if test entry = if test then entry ∷ [] else []

-- The entries of the points' ledger.
unfoldable pub loyalty_entries : ℕ → ℕ → ℕ → ℕ → List LoyaltyTxn
loyalty_entries customer order earned redeemed =
    entry_if (ltb 0 earned) (record {
      customer_id = customer;
      type = LoyaltyType.earn;
      points = pos earned;
      order_id = order;
    })
    ++ entry_if (ltb 0 redeemed) (record {
      customer_id = customer;
      type = LoyaltyType.redeem;
      points = sub_ℕ 0 redeemed;
      order_id = order;
    })

abbrev pub counted : CouponRow → CouponRow
counted c = record c { rule = record c.rule { used_count = c.rule.used_count + 1 } }

unfoldable pub count_coupon : Option CouponRow → List CouponRow → List CouponRow
count_coupon none cs = cs
count_coupon (some used) cs = map (λ c. if c.id == used.id then counted c else c) cs

-- The coupon to be counted is no longer there.
unfoldable pub coupon_gone : Option CouponRow → List CouponRow → Bool
coupon_gone none cs = false
coupon_gone (some used) cs = not (any (λ c. c.id == used.id) cs)

abbrev pub code_of : Option CouponRow → Option Text
code_of none = none
code_of (some c) = some c.code

abbrev pub text_or : Text → Option Text → Option Text
text_or phone before = if empty phone then before else some phone

-- The columns of a bill that is settled.
unfoldable pub settled_row : ℕ → Option ℕ → Option Text → Text → Option Text → OrderRow → OrderRow
settled_row bill customer name phone coupon o = record o {
  status = OrderStatus.settled;
  bill_number = some bill;
  customer_id = customer;
  customer_name = or_else name o.customer_name;
  customer_phone = text_or phone o.customer_phone;
  coupon_code = coupon;
  version = o.version + 1;
}

-- The customers behind the visit, its customer, and the ledger of the points.
pub record Visited : Type 0 where
  pub customer_id : Option ℕ
  pub customers : List Customer
  pub loyalty : List LoyaltyTxn

abbrev pub customer_or : Option Customer → ℕ → ℕ
customer_or none fresh = fresh
customer_or (some c) fresh = c.id

-- `if (phone)`: the visit is counted, and the points are earned.
unfoldable pub count_visit :
    ℕ → ℕ → ℕ → Text → Visit → ℕ → List Customer → List LoyaltyTxn → Visited
unfolding upsert_customer find_customer loyalty_entries
count_visit fresh outlet order phone visit redeemed customers loyalty =
    if empty phone
    then record { customer_id = none; customers = customers; loyalty = loyalty }
    else (let id = customer_or (find_customer outlet phone customers) fresh in
        record {
          customer_id = some id;
          customers = upsert_customer fresh outlet phone visit customers;
          loyalty = loyalty ++ loyalty_entries id order visit.earned redeemed;
        })

-- The order's row and the audit log; a check that settles may complete its parent bill.
unfoldable pub finish_settlement :
    AuthUser → OrderRow → ℕ → Option ℕ → Option Text → Text → Option Text → Db → Result Db
unfolding settled_row close_split_parent_if_done
finish_settlement user order bill customer name phone coupon db =
    let written = record db {
      orders = update_order order.id (settled_row bill customer name phone coupon) db.orders;
      next_id = db.next_id + 1;
    } in
    let logged = audit user Action.order_settled order.id written in
    elim order.parent_order_id [
      | none ↦ ok logged
      | some parent ↦ close_split_parent_if_done user parent logged
    ]

-- A settlement under way: its bill, the outlet, who pays, and the discounts.
pub record Sale : Type 0 where
  pub order : OrderRow
  pub outlet : OutletRow
  pub phone : Text
  pub name : Option Text
  pub discounts : Discounts

abbrev pub redemption_of : AuthUser → OrderRow → Redemption
redemption_of user order = record {
  outlet_id = order.outlet_id;
  order_id = order.id;
  user_id = some user.id;
}

-- The cash portion goes into the open drawer.
abbrev pub drawer_of : SettleInput → OrderRow → Vault → Vault
drawer_of input order cards =
    let taken = cash_taken input.payments in
    if ltb 0 taken
    then pay_into order.outlet_id MovementType.sale (round_div taken paisa) (some order.id) cards
    else cards

abbrev pub visit_of : Sale → ℕ → Visit
visit_of b total = record { name = b.name; earned = points_earned total b.outlet; spent = total }

-- The part from the points on, once the bill is paid.
unfoldable pub record_sale :
    AuthUser → SettleInput → Sale → ℕ → List Otp → Db → Vault → Shop → Result Shop
unfolding take_bill_number find_outlet count_coupon coupon_gone count_visit finish_settlement
record_sale user input b total otps totalled cards s = do
  let points = b.discounts.redeem_points
  numbered ← or_err (find_outlet b.order.outlet_id s.outlets) Error.not_found
  redeemed ←
      if ltb 0 points
      then redeem_points b.order.outlet_id b.phone points s.customers
      else ok s.customers
  refuse_if (coupon_gone b.discounts.coupon s.coupons) Error.not_found
  let visit =
      count_visit totalled.next_id b.order.outlet_id b.order.id b.phone (visit_of b total) points
        redeemed s.loyalty
  after ←
      finish_settlement user b.order numbered.next_bill_number visit.customer_id b.name b.phone
        (code_of b.discounts.coupon) totalled
  ok (record {
    db = after;
    outlets = take_bill_number b.order.outlet_id s.outlets;
    coupons = count_coupon b.discounts.coupon s.coupons;
    vault = drawer_of input b.order cards;
    otps = otps;
    customers = visit.customers;
    loyalty = visit.loyalty;
    payments =
        s.payments ++ map (λ p. record { order_id = b.order.id; payment = p }) input.payments;
  })

-- `toUpperCase`, `trim` and `getTime` are the platform's.
module _ (upper trim : Text → Text) where
  -- The code of a redemption, the totals, and the payments against them.
  unfoldable pub take_payments :
      AuthUser → SettleInput → Clock → Sale → List Otp → Shop → Result Shop
  unfolding card_payments record_sale
  take_payments user input clock b codes s = do
    otps ←
        if ltb 0 b.discounts.redeem_points
        then verify_and_consume trim clock.instant b.order.outlet_id b.phone input.redeem_otp codes
            s.otps
        else ok s.otps
    totalled ← recompute_totals b.order.id (some b.discounts.total_discount) s.db
    row ← or_err (find_order b.order.id totalled.orders) Error.not_found
    refuse_if (not (paid_paise input.payments == round_div row.total paisa)) Error.payments_differ
    cards ←
        redeem_gift_cards upper clock.day (redemption_of user b.order)
          (card_payments input.payments) s.vault
    record_sale user input b row.total otps totalled cards s

  module _ (get_time : Text → Option ℕ) where
    unfoldable pub settle : AuthUser → ℕ → SettleInput → Clock → Seen → Shop → Result Shop
    unfolding find_outlet take_payments
    settle user order_id input clock seen s = do
      order ← lock_open_order user order_id s.db
      refuse_if (truthy order.split_count) Error.is_split
      outlet ← or_err (find_outlet order.outlet_id seen.outlets) Error.not_found
      let phone = trim (phone_of input.discounts.customer_phone order.customer_phone)
      d ←
          resolve_discounts upper trim get_time clock.text seen.coupons order input.discounts
            outlet.loyalty_point_value phone
      let b : Sale = record {
        order = order;
        outlet = outlet;
        phone = phone;
        name = or_else input.customer_name order.customer_name;
        discounts = d;
      }
      take_payments user input clock b seen.otps s
