-- ===== src/Orders/Closed/Tests.antt =====
-- The settled bill of the sample.
use stello_kitchens.Prelude.{ℕ, ◌≡◌, refl, Bool, List, [], Option, none}
use stello_kitchens.Prelude.Texts.{Text}
use stello_kitchens.Orders.Rows.{OrderStatus, Error, ok, err}
use stello_kitchens.Orders.Store.{require_order, tenant_order, find_order}
use stello_kitchens.Orders.Void.{set_service_charge, cancel}
use stello_kitchens.Orders.Sample.{cashier, restaurant, bill_at}
use stello_kitchens.Orders.Settle.{SettleInput, Shop, Seen, Clock, settle}
use stello_kitchens.Orders.Split.{SplitInput, split}
use stello_kitchens.Orders.Preview.{DiscountInput, preview}
use stello_kitchens.Orders.Punch.{LineInput, Kitchen}
use stello_kitchens.Orders.Create.{Moment, put_db, add_items}
use stello_kitchens.Orders.Closed.{closed-refused}

abbrev as_is : Text → Text
as_is t = t

abbrev no_time : Text → Option ℕ
no_time t = none

abbrev shop : Shop
shop = record {
  db = restaurant;
  outlets = [];
  coupons = [];
  vault = record {
    cards = [];
    txns = [];
    sessions = [];
    movements = [];
    audit_log = [];
    next_id = 1;
  };
  otps = [];
  customers = [];
  loyalty = [];
  payments = [];
}

third_found : require_order cashier 3 shop.db ≡ ok (bill_at 3 13 OrderStatus.settled)
unfolding require_order tenant_order find_order
third_found = refl

closed-refused_example :
    (cancel cashier 3 restaurant ≡ err Error.not_open)
    × ((waive : Bool) (reason : Option Text)
        → set_service_charge cashier 3 waive reason restaurant ≡ err Error.not_open)
    × ((input : SplitInput) → split cashier 3 input restaurant ≡ err Error.not_open)
    × ((k : Kitchen) (items : List LineInput) (m : Moment)
        → add_items cashier 3 items m restaurant (put_db k restaurant) ≡ err Error.not_open)
    × ((now : Text) (input : DiscountInput) (value : ℕ) (seller buyer : Option ℕ)
        → preview as_is as_is no_time now [] cashier 3 input value seller buyer restaurant
          ≡ err Error.not_open)
    × ((input : SettleInput) (clock : Clock) (seen : Seen)
        → settle as_is as_is no_time cashier 3 input clock seen shop ≡ err Error.not_open)
closed-refused_example =
    closed-refused cashier 3 as_is as_is no_time shop {o = bill_at 3 13 OrderStatus.settled}
      third_found refl
