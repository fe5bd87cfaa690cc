-- ===== src/Orders/Sample.antt =====
-- A small restaurant for the tests of the operations on running bills: two open dine-in bills of 300
-- and 150 rupees at 5% tax, and a settled one.
use stello_kitchens.Prelude.{ℕ, true, false, [], ◌∷◌, none, some}
use stello_kitchens.Orders.Rows.{
  OrderRow, OrderStatus, OrderType, LineRow, BillingRules, Db, AuthUser, Result, ok, err,
}
use stello_kitchens.Orders.Transfer.{new_order}

abbrev pub cashier : AuthUser
cashier = record { id = 9; tenant_id = 1; outlet_ids = 1 ∷ [] }

abbrev pub bill_at : ℕ → ℕ → OrderStatus → OrderRow
bill_at id table s = record (new_order id 1 1 OrderType.dine_in (some table) 9) { status = s }

abbrev pub line_at : ℕ → ℕ → ℕ → LineRow
line_at id order price = record {
  id = id;
  order_id = order;
  item = id;
  quantity = 1;
  unit_price = price;
  line_total = price;
  tax_rate = 500;
  kot_id = none;
  combo_group_id = none;
  is_combo_component = false;
  split_from_item_id = none;
  split_parts = none;
}

abbrev pub no_charge : BillingRules
no_charge = record {
  service_charge_enabled = false;
  service_charge_percent = 0;
  service_charge_taxable = false;
  service_charge_order_types = [];
  round_off_enabled = true;
}

abbrev pub restaurant : Db
restaurant = record {
  orders =
      bill_at 1 11 OrderStatus.open_bill
      ∷ (bill_at 2 12 OrderStatus.open_bill ∷ (bill_at 3 13 OrderStatus.settled ∷ []));
  lines = line_at 21 1 3_000_000 ∷ (line_at 22 2 1_500_000 ∷ (line_at 23 3 990_000 ∷ []));
  kots = [];
  requests = [];
  parked = [];
  tables =
      record { id = 11; tenant_id = 1; outlet_id = 1 }
      ∷ (record { id = 12; tenant_id = 1; outlet_id = 1 } ∷ []);
  rules = λ t o. no_charge;
  audit_log = [];
  next_id = 100;
}

abbrev pub db_of : Result Db → Db
db_of (ok db) = db
db_of (err e) = restaurant
