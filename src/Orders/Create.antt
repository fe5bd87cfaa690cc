-- ===== src/Orders/Create.antt =====
-- How bills begin and grow: `create`, `addItems`, `ingestAggregatorOrderTx` and `ingestScanOrder` of
-- apps/api/src/orders/orders.service.ts, on items without combos.
pub mod Laws
mod Tests
use stello_kitchens.Prelude.{
  ℕ, ◌+◌, Bool, true, false, List, [], ◌∷◌, ◌++◌, Option, none, some, if◌then◌else◌,
}
use stello_kitchens.Prelude.Texts.{Text}
use stello_kitchens.Orders.Rows.{
  OrderRow, OrderType, Action, Db, AuthUser, Error, Result, ok, err, ◌>>=◌, ◌>>◌, refuse_if, or_err,
}
use stello_kitchens.Orders.Store.{
  find_order, audit, truthy, is_some, assert_outlet, assert_not_split, require_order,
  lock_open_order,
}
use stello_kitchens.Orders.Totals.{recompute_totals}
use stello_kitchens.Orders.Merge.{lock_tables}
use stello_kitchens.Orders.Transfer.{find_on_table, new_order}
use stello_kitchens.Orders.Punch.{LineInput, Kitchen, Punching, punch_items}

pub record CreateInput : Type 0 where
  pub outlet_id : ℕ
  pub order_type : OrderType
  pub table_id : Option ℕ
  pub customer_name : Option Text
  pub customer_phone : Option Text
  pub items : List LineInput

-- When, and at what channel prices, as punching has it.
pub record Moment : Type 0 where
  pub minutes : ℕ
  pub channel_price : ℕ → Option ℕ

abbrev pub punch_at : ℕ → ℕ → Moment → Punching
punch_at tenant outlet m = record {
  tenant_id = tenant;
  outlet_id = outlet;
  offline = false;
  minutes = m.minutes;
  channel_price = m.channel_price;
}

-- A dine-in bill needs a table of the outlet without an open bill.
unfoldable pub check_table : AuthUser → ℕ → OrderType → Option ℕ → Db → Result (Option ℕ)
unfolding find_on_table lock_tables
check_table user outlet OrderType.dine_in none db = err Error.table_required
check_table user outlet OrderType.dine_in (some table) db = do
  lock_tables user outlet (some table ∷ []) db
  refuse_if (is_some (find_on_table user outlet table db.orders)) Error.table_taken
  ok (some table)
check_table user outlet _ table db = ok none

unfoldable pub insert_order : OrderRow → Db → Db
insert_order o db = record db { orders = db.orders ++ (o ∷ []); next_id = db.next_id + 1 }

abbrev pub put_db : Kitchen → Db → Kitchen
put_db k db = record k { db = db }

unfoldable pub create : AuthUser → CreateInput → Moment → Kitchen → Result Kitchen
unfolding check_table insert_order
create user input m k = do
  assert_outlet user input.outlet_id
  table ← check_table user input.outlet_id input.order_type input.table_id k.db
  let id = k.db.next_id
  let order : OrderRow =
      record (new_order id user.tenant_id input.outlet_id input.order_type table user.id) {
        customer_name = input.customer_name;
        customer_phone = input.customer_phone;
      }
  punched ←
      punch_items (punch_at user.tenant_id input.outlet_id m) id input.items
        (put_db k (insert_order order k.db))
  done ← recompute_totals id none punched.0.db
  ok (put_db punched.0 (audit user Action.order_created id done))

unfoldable pub add_items : AuthUser → ℕ → List LineInput → Moment → Db → Kitchen → Result Kitchen
add_items user order_id items m seen k = do
  order ← require_order user order_id seen
  locked ← lock_open_order user order_id k.db
  assert_not_split locked
  punched ← punch_items (punch_at user.tenant_id order.outlet_id m) order.id items k
  done ← recompute_totals order.id none punched.0.db
  ok (put_db punched.0 done)

-- An order of an aggregator: a delivery that no user has created.
unfoldable pub ingest_aggregator_order :
    ℕ → ℕ → List LineInput → Option Text → Option Text → Moment → Kitchen → Result Kitchen
unfolding insert_order
ingest_aggregator_order tenant outlet [] name phone m k = err Error.no_items
ingest_aggregator_order tenant outlet (i ∷ is) name phone m k = do
  let id = k.db.next_id
  let order : OrderRow = record (new_order id tenant outlet OrderType.delivery none 0) {
    customer_name = name;
    customer_phone = phone;
    created_by_id = none;
  }
  punched ← punch_items (punch_at tenant outlet m) id (i ∷ is) (put_db k (insert_order order k.db))
  done ← recompute_totals id none punched.0.db
  ok (put_db punched.0 done)

pub data ScanMode : Type 0 where
  dine_in takeaway : ScanMode

-- What is done for a guest is done by no user of the tenant.
abbrev pub no_user : ℕ → AuthUser
no_user tenant = record { id = 0; tenant_id = tenant; outlet_ids = [] }

-- The open bill on the table, if there is one; takeaway always opens a new one.
unfoldable pub running_bill : ℕ → ℕ → ScanMode → Option ℕ → Db → Result (Option OrderRow)
running_bill tenant outlet ScanMode.takeaway table db = ok none
running_bill tenant outlet ScanMode.dine_in none db = err Error.table_required
running_bill tenant outlet ScanMode.dine_in (some table) db = do
  lock_tables (no_user tenant) outlet (some table ∷ []) db
  let found = find_on_table (no_user tenant) outlet table db.orders
  elim found [
    | none ↦ ok none
    | some o ↦ do refuse_if (truthy o.split_count) Error.is_split; ok (some o)
  ]

abbrev pub scan_order : ℕ → ℕ → ℕ → ScanMode → Option ℕ → Option Text → Option Text → OrderRow
scan_order id tenant outlet mode table name phone =
    let type : OrderType = elim mode [
      | dine_in ↦ OrderType.dine_in
      | takeaway ↦ OrderType.takeaway
    ] in
    let seat : Option ℕ = elim mode [ dine_in ↦ table | takeaway ↦ none ] in
    record (new_order id tenant outlet type seat 0) {
      customer_name = name;
      customer_phone = phone;
      created_by_id = none;
    }

-- A request of a guest that the staff have accepted: onto the table's bill, or on a new one.
unfoldable pub ingest_scan_order :
    ℕ
    → ℕ
    → ScanMode
    → Option ℕ
    → List LineInput
    → Option Text
    → Option Text
    → Moment
    → Kitchen
    → Result Kitchen
unfolding running_bill insert_order
ingest_scan_order tenant outlet mode table [] name phone m k = err Error.no_items
ingest_scan_order tenant outlet mode table (i ∷ is) name phone m k = do
  running ← running_bill tenant outlet mode table k.db
  let fresh = scan_order k.db.next_id tenant outlet mode table name phone
  let id : ℕ = elim running [ none ↦ k.db.next_id | some o ↦ o.id ]
  let begun : Kitchen = elim running [ none ↦ put_db k (insert_order fresh k.db) | some o ↦ k ]
  punched ← punch_items (punch_at tenant outlet m) id (i ∷ is) begun
  done ← recompute_totals id none punched.0.db
  ok (put_db punched.0 done)
