-- ===== src/Orders/Settle/Steps.antt =====
-- A settlement that succeeds, taken apart: what each of its steps came to.
use stello_kitchens.Prelude.{
  ℕ, ◌==◌, ◌≡◌, refl, false, not, List, ◌++◌, map, Option, some, arith, ltb, if◌then◌else◌, ==_iff,
}
use stello_kitchens.Prelude.Rounding.{round_div}
use stello_kitchens.Prelude.Texts.{Text}
use stello_kitchens.Money.{paisa}
use stello_kitchens.GiftCards.{Vault, redeem_gift_cards}
use stello_kitchens.Loyalty.{Otp, Customer, verify_and_consume, redeem_points}
use stello_kitchens.Service.{bind_ok, refuse_ok, found_ok, ok_inj}
use stello_kitchens.Orders.Rows.{OrderRow, Db, AuthUser, Error, ok, or_err}
use stello_kitchens.Orders.Store.{find_order, truthy, lock_open_order}
use stello_kitchens.Orders.Totals.{recompute_totals}
use stello_kitchens.Orders.Preview.{phone_of, resolve_discounts}
use stello_kitchens.Orders.Merge.{or_else}
use stello_kitchens.Orders.Settle.{
  SettleInput, OutletRow, Shop, Seen, Clock, Sale, Visited, find_outlet, coupon_gone,
  take_bill_number, paid_paise, card_payments, count_coupon, code_of, count_visit, visit_of,
  redemption_of, drawer_of, finish_settlement, record_sale, take_payments, settle,
}

not_differ : (a b : ℕ) → not (a == b) ≡ false → a ≡ b
not_differ a b h = ground (arith, ==_iff a b)

-- What the visit comes to.
abbrev pub seen_of : Sale → ℕ → Db → List Customer → Shop → Visited
seen_of b total totalled redeemed s =
    count_visit totalled.next_id b.order.outlet_id b.order.id b.phone (visit_of b total)
      b.discounts.redeem_points redeemed s.loyalty

pub record Recorded (user : AuthUser) (input : SettleInput) (b : Sale) (total : ℕ) (otps : List Otp)
    (totalled : Db) (cards : Vault) (s after : Shop) : Type 0 where
  pub numbered : OutletRow
  pub redeemed : List Customer
  pub finished : Db
  pub known : find_outlet b.order.outlet_id s.outlets ≡ some numbered
  pub taken :
      (if ltb 0 b.discounts.redeem_points
        then redeem_points b.order.outlet_id b.phone b.discounts.redeem_points s.customers
        else ok s.customers)
      ≡ ok redeemed
  pub there : coupon_gone b.discounts.coupon s.coupons ≡ false
  pub closed :
      finish_settlement user b.order numbered.next_bill_number
        (seen_of b total totalled redeemed s).customer_id
        b.name
        b.phone
        (code_of b.discounts.coupon)
        totalled
      ≡ ok finished
  pub result : after ≡ record {
    db = finished;
    outlets = take_bill_number b.order.outlet_id s.outlets;
    coupons = count_coupon b.discounts.coupon s.coupons;
    vault = drawer_of input b.order cards;
    otps = otps;
    customers = (seen_of b total totalled redeemed s).customers;
    loyalty = (seen_of b total totalled redeemed s).loyalty;
    payments =
        s.payments ++ map (λ p. record { order_id = b.order.id; payment = p }) input.payments;
  }

pub record_sale-steps :
    (user : AuthUser) (input : SettleInput) (b : Sale) (total : ℕ) (otps : List Otp) (totalled : Db)
    (cards : Vault) (s : Shop) {after : Shop}
    → record_sale user input b total otps totalled cards s ≡ ok after
    → Recorded user input b total otps totalled cards s after
unfolding record_sale
record_sale-steps user input b total otps totalled cards s {after} h =
    let (numbered, known, h0) =
      bind_ok (or_err (find_outlet b.order.outlet_id s.outlets) Error.not_found) h in
    let (redeemed, taken, h1) =
      bind_ok
        (if ltb 0 b.discounts.redeem_points
          then redeem_points b.order.outlet_id b.phone b.discounts.redeem_points s.customers
          else ok s.customers)
        h0 in
    let (there, h2) = refuse_ok (coupon_gone b.discounts.coupon s.coupons) Error.not_found h1 in
    let (finished, closed, h3) =
      bind_ok
        (finish_settlement user b.order numbered.next_bill_number
          (seen_of b total totalled redeemed s).customer_id b.name b.phone
          (code_of b.discounts.coupon) totalled)
        h2 in
    record {
      numbered = numbered;
      redeemed = redeemed;
      finished = finished;
      known = found_ok (find_outlet b.order.outlet_id s.outlets) Error.not_found known;
      taken = taken;
      there = there;
      closed = closed;
      result = ok_inj h3;
    }

module _ (upper trim : Text → Text) where
  pub record Paid (user : AuthUser) (input : SettleInput) (clock : Clock) (b : Sale)
      (codes : List Otp) (s after : Shop) : Type 0 where
    pub otps : List Otp
    pub totalled : Db
    pub row : OrderRow
    pub cards : Vault
    pub verified :
        (if ltb 0 b.discounts.redeem_points
          then verify_and_consume trim clock.instant b.order.outlet_id b.phone input.redeem_otp
              codes s.otps
          else ok s.otps)
        ≡ ok otps
    pub recomputed :
        recompute_totals b.order.id (some b.discounts.total_discount) s.db ≡ ok totalled
    pub found : find_order b.order.id totalled.orders ≡ some row
    pub balanced : paid_paise input.payments ≡ round_div row.total paisa
    pub charged :
        redeem_gift_cards upper clock.day
          (redemption_of user b.order)
          (card_payments input.payments)
          s.vault
        ≡ ok cards
    pub recorded : record_sale user input b row.total otps totalled cards s ≡ ok after

  pub take_payments-steps :
      (user : AuthUser) (input : SettleInput) (clock : Clock) (b : Sale) (codes : List Otp)
      (s : Shop) {after : Shop}
      → take_payments upper trim user input clock b codes s ≡ ok after
      → Paid user input clock b codes s after
  unfolding take_payments
  take_payments-steps user input clock b codes s {after} h =
      let (otps, verified, h1) =
        bind_ok
          (if ltb 0 b.discounts.redeem_points
            then verify_and_consume trim clock.instant b.order.outlet_id b.phone input.redeem_otp
                codes s.otps
            else ok s.otps)
          h in
      let (totalled, recomputed, h2) =
        bind_ok (recompute_totals b.order.id (some b.discounts.total_discount) s.db) h1 in
      let (row, found, h3) =
        bind_ok (or_err (find_order b.order.id totalled.orders) Error.not_found) h2 in
      let (balanced, h4) =
        refuse_ok (not (paid_paise input.payments == round_div row.total paisa))
          Error.payments_differ h3 in
      let (cards, charged, h5) =
        bind_ok
          (redeem_gift_cards upper clock.day (redemption_of user b.order)
            (card_payments input.payments) s.vault)
          h4 in
      record {
        otps = otps;
        totalled = totalled;
        row = row;
        cards = cards;
        verified = verified;
        recomputed = recomputed;
        found = found_ok (find_order b.order.id totalled.orders) Error.not_found found;
        balanced = not_differ (paid_paise input.payments) (round_div row.total paisa) balanced;
        charged = charged;
        recorded = h5;
      }

  module _ (get_time : Text → Option ℕ) where
    pub record Opened (user : AuthUser) (order_id : ℕ) (input : SettleInput) (clock : Clock)
        (seen : Seen) (s after : Shop) : Type 0 where
      pub b : Sale
      pub locked : lock_open_order user order_id s.db ≡ ok b.order
      pub whole : truthy b.order.split_count ≡ false
      pub known : find_outlet b.order.outlet_id seen.outlets ≡ some b.outlet
      pub phone_is : b.phone ≡ trim (phone_of input.discounts.customer_phone b.order.customer_phone)
      pub name_is : b.name ≡ or_else input.customer_name b.order.customer_name
      pub resolved :
          resolve_discounts upper trim get_time clock.text seen.coupons b.order input.discounts
            b.outlet.loyalty_point_value b.phone
          ≡ ok b.discounts
      pub paid : take_payments upper trim user input clock b seen.otps s ≡ ok after

    pub settle-steps :
        (user : AuthUser) (order_id : ℕ) (input : SettleInput) (clock : Clock) (seen : Seen)
        (s : Shop) {after : Shop}
        → settle upper trim get_time user order_id input clock seen s ≡ ok after
        → Opened user order_id input clock seen s after
    unfolding settle
    settle-steps user order_id input clock seen s {after} h =
        let (order, locked, h1) = bind_ok (lock_open_order user order_id s.db) h in
        let (whole, h2) = refuse_ok (truthy order.split_count) Error.is_split h1 in
        let (outlet, known, h3) =
          bind_ok (or_err (find_outlet order.outlet_id seen.outlets) Error.not_found) h2 in
        let phone = trim (phone_of input.discounts.customer_phone order.customer_phone) in
        let (d, resolved, h4) =
          bind_ok
            (resolve_discounts upper trim get_time clock.text seen.coupons order input.discounts
              outlet.loyalty_point_value phone)
            h3 in
        record {
          b = record {
            order = order;
            outlet = outlet;
            phone = phone;
            name = or_else input.customer_name order.customer_name;
            discounts = d;
          };
          locked = locked;
          whole = whole;
          known = found_ok (find_outlet order.outlet_id seen.outlets) Error.not_found known;
          phone_is = refl;
          name_is = refl;
          resolved = resolved;
          paid = h4;
        }

    -- All of a settlement that succeeds.
    pub record Settled (user : AuthUser) (order_id : ℕ) (input : SettleInput) (clock : Clock)
        (seen : Seen) (s after : Shop) : Type 0 where
      pub opened : Opened user order_id input clock seen s after
      pub paid : Paid user input clock opened.b seen.otps s after
      pub done :
          Recorded user input opened.b paid.row.total paid.otps paid.totalled paid.cards s after

    pub settle-all :
        (user : AuthUser) (order_id : ℕ) (input : SettleInput) (clock : Clock) (seen : Seen)
        (s : Shop) {after : Shop}
        → settle upper trim get_time user order_id input clock seen s ≡ ok after
        → Settled user order_id input clock seen s after
    settle-all user order_id input clock seen s {after} h =
        let opened = settle-steps user order_id input clock seen s {after = after} h in
        let paid =
          take_payments-steps user input clock opened.b seen.otps s {after = after} opened.paid in
        record {
          opened = opened;
          paid = paid;
          done =
              record_sale-steps user input opened.b paid.row.total paid.otps paid.totalled
                paid.cards s {after = after} paid.recorded;
        }
