-- ===== src/Orders/Settle/Tests.antt =====
-- A settlement at a run: a bill of 300 rupees at 5% tax, 20 rupees off by a coupon and 10 by points,
-- paid with 100 rupees on a gift card and the rest in cash.
use stello_kitchens.Prelude.{
  ℕ, ◌+◌, ◌≤◌, ◌≡◌, refl, true, [], ◌∷◌, ◌++◌, map, Option, none, some, arith, All, keep,
}
use stello_kitchens.Prelude.Int.{pos}
use stello_kitchens.Prelude.Rounding.{round_div}
use stello_kitchens.Prelude.Texts.{Text, same_text, is_space}
use stello_kitchens.Money.{paisa, clamp_discount, tax_on}
use stello_kitchens.Billing.Bill.{payable, bill_paise, service_charge_on, taxed_charge}
use stello_kitchens.Coupon.{CouponType, evaluate_coupon}
use stello_kitchens.GiftCards.{
  Vault, CardKind, CardStatus, TxnType, redeem_gift_cards, by_code, add_code, normalise_gift_code,
  sort_codes, insert_code, redeem_codes, redeem_code, find_code, charge, update_card, pay_into,
}
use stello_kitchens.GiftCards.Ledger.{IsSound, credits, debits}
use stello_kitchens.GiftCards.Redeem.{CanPay, spent, asked}
use stello_kitchens.Loyalty.{
  Otp, Customer, is_usable, latest_otp, consume_otp, verify_and_consume, is_customer, redeem_points,
}
use stello_kitchens.Loyalty.Laws.{IsSpent}
use stello_kitchens.Orders.Rows.{OrderRow, OrderStatus, Db, Result, ok, err, is_open}
use stello_kitchens.Orders.Store.{
  find_order, update_orders, require_order, tenant_order, lock_open_order,
}
use stello_kitchens.Orders.Totals.{bill_for, recompute_totals}
use stello_kitchens.Orders.Preview.{
  CouponRow, BillPreview, find_coupon, resolve_coupon, resolve_discounts, preview,
}
use stello_kitchens.Orders.Sample.{cashier, restaurant, bill_at}
use stello_kitchens.Orders.Settle.{
  PaymentMode, SettleInput, OutletRow, Shop, Seen, Clock, find_outlet, next_bill, paid_paise,
  card_payments, points_earned, count_visit, coupon_gone, finish_settlement, record_sale,
  take_payments, settle,
}
use stello_kitchens.Orders.Settle.Laws.{settle-paid}
use stello_kitchens.Orders.Settle.Tenders.{settle-cards}
use stello_kitchens.Orders.Settle.Coupons.{WithinBy, settle-WithinLimit}
use stello_kitchens.Orders.Settle.Shown.{settle-shown}
use stello_kitchens.Orders.Settle.Points.{payer, points_asked, settle-points, settle-code}

abbrev as_is : Text → Text
as_is t = t

abbrev no_time : Text → Option ℕ
no_time t = none

abbrev asha : Text
asha = b'9' ∷ (b'8' ∷ [])

abbrev code : Text
code = b'G' ∷ (b'C' ∷ (b'7' ∷ []))

-- The stored subtotal is current.
abbrev totalled : Db
totalled = record restaurant {
  orders = map (λ (o : OrderRow). record o { subtotal = 3_000_000 }) restaurant.orders;
}

abbrev vault : Vault
vault = record {
  cards =
      record {
        id = 1;
        code = code;
        kind = CardKind.gift_card;
        issued_outlet_id = 1;
        initial_value = 50_000;
        balance = 50_000;
        expires_on = none;
        status = CardStatus.active;
      }
      ∷ [];
  txns =
      record {
        gift_card_id = 1;
        outlet_id = 1;
        type = TxnType.issued;
        amount = pos 50_000;
        balance_after = 50_000;
        order_id = none;
        user_id = none;
      }
      ∷ [];
  sessions = record { id = 3; outlet_id = 1; is_open = true } ∷ [];
  movements = [];
  audit_log = [];
  next_id = 2;
}

vault-IsSound : IsSound vault
unfolding credits debits
vault-IsSound = record {
  balanced = (refl, tt);
  card_ids = (omega arith, tt);
  txn_ids = (omega arith, tt);
}

-- 20 rupees off, once.
abbrev coupon : CouponRow
coupon = record {
  id = 5;
  outlet_id = 1;
  code = b'T' ∷ [];
  rule = record {
    type = CouponType.flat;
    value = 200_000;
    min_order = 0;
    max_discount = none;
    valid_from = none;
    valid_to = none;
    usage_limit = some 1;
    used_count = 0;
    is_active = true;
  };
}

abbrev guest : Customer
guest = record {
  id = 6;
  outlet_id = 1;
  phone = asha;
  name = none;
  loyalty_points = 40;
  total_orders = 2;
  total_spent = 0;
}

abbrev shop : Shop
shop = record {
  db = totalled;
  outlets =
      record {
        id = 1;
        loyalty_point_value = 10_000;
        loyalty_earn_rate = 1_000;
        next_bill_number = 17;
      }
      ∷ [];
  coupons = coupon ∷ [];
  vault = vault;
  otps =
      record {
        id = 8;
        outlet_id = 1;
        phone = asha;
        code = b'4' ∷ [];
        expires_at = 300_000;
        consumed_at = none;
        created_at = 0;
      }
      ∷ [];
  customers = guest ∷ [];
  loyalty = [];
  payments = [];
}

-- What it read is as it still is, but for the bill number: another bill has been settled since.
abbrev seen : Seen
seen = record {
  outlets =
      record {
        id = 1;
        loyalty_point_value = 10_000;
        loyalty_earn_rate = 1_000;
        next_bill_number = 16;
      }
      ∷ [];
  coupons = coupon ∷ [];
  otps = shop.otps;
}

abbrev input : SettleInput
input = record {
  payments =
      record { mode = PaymentMode.gift_card code; amount = 1_000_000 }
      ∷ (record { mode = PaymentMode.cash; amount = 1_840_000 } ∷ []);
  discounts = record {
    discount_amount = none;
    coupon_code = some (b'T' ∷ []);
    redeem_points = some 10;
    customer_phone = some asha;
  };
  redeem_otp = some (b'4' ∷ []);
  customer_name = none;
}

abbrev clock : Clock
clock = record { text = []; instant = 60_000; day = 100 }

abbrev shop_of : Result Shop → Shop
shop_of (ok s) = s
shop_of (err e) = shop

abbrev after : Shop
after = shop_of (settle as_is as_is no_time cashier 1 input clock seen shop)

settles : settle as_is as_is no_time cashier 1 input clock seen shop ≡ ok after
unfolding settle lock_open_order require_order tenant_order find_order find_outlet resolve_discounts
    resolve_coupon find_coupon evaluate_coupon take_payments verify_and_consume latest_otp
    consume_otp recompute_totals redeem_gift_cards by_code add_code normalise_gift_code is_space
    same_text sort_codes insert_code redeem_codes redeem_code find_code charge update_card pay_into
    card_payments record_sale coupon_gone redeem_points count_visit finish_settlement round_div
    update_orders payable bill_paise clamp_discount service_charge_on tax_on taxed_charge
settles = refl

settle-paid_example :
    (order : OrderRow) × (outlet : OutletRow) × (row : OrderRow) × (d : ℕ) × (find_order 1
        shop.db.orders
      ≡ some order)
    × (is_open order.status ≡ true)
    × (find_outlet order.outlet_id shop.outlets ≡ some outlet)
    × (find_order 1 after.db.orders ≡ some row)
    × (row.status ≡ OrderStatus.settled)
    × (row.bill_number ≡ some outlet.next_bill_number)
    × (find_outlet order.outlet_id after.outlets ≡ some (next_bill outlet))
    × (d ≤ order.subtotal)
    × (row.total ≡ (bill_for order d shop.db).total)
    × (paid_paise input.payments ≡ round_div row.total paisa)
    × (after.payments
        ≡ shop.payments ++ map (λ p. record { order_id = 1; payment = p }) input.payments)
settle-paid_example = settle-paid as_is as_is no_time cashier 1 input clock seen shop settles

settle-cards_example :
    IsSound after.vault
    × (spent after.vault.txns ≡ spent shop.vault.txns + asked (card_payments input.payments))
    × All
        (λ p.
          CanPay clock.day shop.vault.cards
            (normalise_gift_code as_is p.code)
            (round_div p.amount paisa))
        (card_payments input.payments)
settle-cards_example =
    settle-cards as_is as_is no_time cashier 1 input clock seen shop vault-IsSound settles

settle-WithinLimit_example : All (WithinBy 0) after.coupons
settle-WithinLimit_example =
    settle-WithinLimit as_is as_is no_time 0 cashier 1 input clock seen shop
      (((λ e. (refl, omega arith)), tt), tt) (omega arith, tt) settles

abbrev first_bill : OrderRow
first_bill = record (bill_at 1 11 OrderStatus.open_bill) { subtotal = 3_000_000 }

first_bill_found : find_order 1 shop.db.orders ≡ some first_bill
unfolding find_order
first_bill_found = refl

only_guest : keep (is_customer 1 asha) shop.customers ≡ guest ∷ []
unfolding same_text
only_guest = refl

settle-points_example :
    (outlet : OutletRow) × (row : OrderRow) × (c' : Customer) × (find_outlet 1 seen.outlets
      ≡ some outlet)
    × (find_order 1 after.db.orders ≡ some row)
    × (points_asked input ≤ guest.loyalty_points)
    × (keep (is_customer 1 (payer as_is input first_bill)) after.customers ≡ c' ∷ [])
    × (c'.loyalty_points + points_asked input
        ≡ guest.loyalty_points + points_earned row.total outlet)
    × (c'.total_spent ≡ guest.total_spent + row.total)
    × (c'.total_orders ≡ guest.total_orders + 1)
settle-points_example =
    settle-points as_is as_is no_time cashier 1 input clock seen shop {order = first_bill}
      {c = guest} settles first_bill_found refl only_guest

settle-code_example :
    (otp : Otp) × (given : Text) × (input.redeem_otp ≡ some given)
    × (latest_otp clock.instant 1 (payer as_is input first_bill) seen.otps ≡ some otp)
    × (is_usable clock.instant 1 (payer as_is input first_bill) otp ≡ true)
    × (otp.code ≡ given)
    × All (IsSpent otp.id) after.otps
settle-code_example =
    settle-code as_is as_is no_time cashier 1 input clock seen shop {order = first_bill} settles
      first_bill_found (omega arith)

-- The preview of the same request.
abbrev shown_run : Result BillPreview
shown_run =
    preview as_is as_is no_time clock.text seen.coupons cashier 1 input.discounts 10_000 none none
      shop.db

abbrev preview_of_run : Result BillPreview → BillPreview
preview_of_run (ok p) = p
preview_of_run (err e) = record {
  subtotal = 0;
  discount_amount = 0;
  coupon_discount = 0;
  redeem_discount = 0;
  service_charge_amount = 0;
  service_charge_percent = 0;
  service_charge_taxable = true;
  service_charge_removed = true;
  tax_amount = 0;
  tax_parts = record { cgst = 0; sgst = 0; igst = 0 };
  round_off = pos 0;
  total = 0;
}

previews : shown_run ≡ ok (preview_of_run shown_run)
unfolding preview require_order tenant_order find_order resolve_discounts resolve_coupon find_coupon
    evaluate_coupon same_text
previews = refl

settle-shown_example :
    let p = preview_of_run shown_run in
    (row : OrderRow) × (find_order 1 after.db.orders ≡ some row)
    × (row.subtotal ≡ p.subtotal)
    × (row.discount_amount ≡ p.discount_amount)
    × (row.service_charge_amount ≡ p.service_charge_amount)
    × (row.tax_amount ≡ p.tax_amount)
    × (row.round_off ≡ p.round_off)
    × (row.total ≡ p.total)
    × (paid_paise input.payments ≡ round_div p.total paisa)
unfolding find_outlet
settle-shown_example =
    settle-shown as_is as_is no_time cashier cashier 1 input clock seen shop none none
      {order = first_bill} first_bill_found refl previews settles
