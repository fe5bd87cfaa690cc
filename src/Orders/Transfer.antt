-- ===== src/Orders/Transfer.antt =====
-- `transfer`, `resolveMoves`, `moveLine` and `copyLine` of apps/api/src/billing/order-ops.service.ts.
-- `seen` are the rows of the first, unlocked read.
pub mod Resolve
pub mod Update
pub mod Conserves
pub mod Bounds
pub mod Laws
mod Tests
use stello_kitchens.Prelude.{
  ℕ, ◌+◌, ◌-◌, ◌*◌, ◌/◌, ◌%◌, ◌==◌, Bool, true, false, not, ◌&&◌, List, [], ◌∷◌, ◌++◌, map, Option,
  none, some, ltb, if◌then◌else◌, all, keep, length,
}
use stello_kitchens.Prelude.Int.{pos}
use stello_kitchens.Money.{from_paise, line_total_paise}
use stello_kitchens.Orders.Rows.{
  OrderRow, LineRow, Attached, OrderStatus, OrderType, Action, Db, AuthUser, Error, Result, ok, err,
  ◌>>=◌, ◌>>◌, refuse_if, or_err, is_open,
}
use stello_kitchens.Orders.Store.{
  update_order, update_orders, reassign, lines_of, audit, has_id, tenant_order, require_order,
  assert_mergeable,
}
use stello_kitchens.Orders.Totals.{recompute_totals}
use stello_kitchens.Orders.Merge.{lock_tables, lock_orders, move_all}
use stello_kitchens.Orders.Transfer.Resolve.{LineQty, Moves, resolve_moves, qty_of}

-- A new row with the columns of `line`; what the caller writes over comes as arguments.
abbrev pub copy_line : LineRow → ℕ → ℕ → ℕ → ℕ → LineRow
copy_line line id order_id quantity line_total = record {
  id = id;
  order_id = order_id;
  item = line.item;
  quantity = quantity;
  unit_price = line.unit_price;
  line_total = line_total;
  tax_rate = line.tax_rate;
  kot_id = line.kot_id;
  combo_group_id = line.combo_group_id;
  is_combo_component = line.is_combo_component;
  split_from_item_id = none;
  split_parts = none;
}

abbrev pub amount : LineRow → ℕ → ℕ
amount line qty = from_paise (line_total_paise line.unit_price qty)

unfoldable pub update_line : ℕ → (LineRow → LineRow) → List LineRow → List LineRow
update_line id f = map (λ l. if l.id == id then f l else l)

-- The whole row moves, or the row is split.
unfoldable pub move_line : LineRow → ℕ → ℕ → Db → Db
unfolding update_line
move_line line qty target db =
    if qty == line.quantity
    then record db { lines = update_line line.id (λ l. record l { order_id = target }) db.lines }
    else (let left = line.quantity - qty in
        record db {
          lines =
              update_line line.id (λ l. record l { quantity = left; line_total = amount line left })
                db.lines
              ++ (copy_line line db.next_id target qty (amount line qty) ∷ []);
          next_id = db.next_id + 1;
        })

-- The loop over the source's lines.
unfoldable pub move_lines : Moves → ℕ → List LineRow → Db → Db
unfolding move_line
move_lines moves target [] db = db
move_lines moves target (l ∷ ls) db =
    let qty = qty_of moves l.id in
    move_lines moves target ls (if qty == 0 then db else move_line l qty target db)

abbrev pub kot_list : Option ℕ → List ℕ
kot_list none = []
kot_list (some k) = k ∷ []

-- The tickets of the lines that moved.
unfoldable pub touched_kots : Moves → List LineRow → List ℕ
touched_kots moves [] = []
touched_kots moves (l ∷ ls) =
    (if qty_of moves l.id == 0 then [] else kot_list l.kot_id) ++ touched_kots moves ls

-- A ticket follows its items when none is left on the source.
unfoldable pub follow_kots : ℕ → ℕ → List ℕ → Db → Db
follow_kots source target [] db = db
follow_kots source target (k ∷ ks) db =
    let left = keep (λ l. has_id l.kot_id k && l.order_id == source) db.lines in
    let moved = map (λ r. if r.id == k then record r { order_id = target } else r) db.kots in
    follow_kots source target ks (if length left == 0 then record db { kots = moved } else db)

-- The open order on the table.
unfoldable pub find_on_table : AuthUser → ℕ → ℕ → List OrderRow → Option OrderRow
find_on_table user outlet table [] = none
find_on_table user outlet table (o ∷ os) =
    if o.tenant_id == user.tenant_id
      && o.outlet_id == outlet
      && has_id o.table_id table
      && is_open o.status
    then some o
    else find_on_table user outlet table os

-- `tx.order.create` with the columns' defaults.
abbrev pub new_order : ℕ → ℕ → ℕ → OrderType → Option ℕ → ℕ → OrderRow
new_order id tenant outlet type table user = record {
  id = id;
  tenant_id = tenant;
  outlet_id = outlet;
  order_type = type;
  status = OrderStatus.open_bill;
  table_id = table;
  customer_name = none;
  customer_phone = none;
  allocated_discount = 0;
  subtotal = 0;
  discount_amount = 0;
  tax_amount = 0;
  total = 0;
  service_charge_amount = 0;
  service_charge_rate = 0;
  service_charge_taxable = false;
  service_charge_waived = false;
  service_charge_waived_reason = none;
  round_off = pos 0;
  parent_order_id = none;
  split_index = none;
  split_count = none;
  merged_into_order_id = none;
  created_by_id = some user;
  bill_number = none;
  customer_id = none;
  coupon_code = none;
  version = 1;
}

-- The bill that was left, if it stays open on its table, and the one that received.
pub record Transferred : Type 0 where
  pub from_id : Option ℕ
  pub to_id : ℕ
  pub after : Db

-- Every line moves: a merge into the bill there, or the bill changes tables.
unfoldable pub transfer_all : AuthUser → OrderRow → Option OrderRow → ℕ → Db → Result Transferred
unfolding move_all
transfer_all user source (some target) table db = do
  moved ← recompute_totals target.id none (move_all (source.id ∷ []) target db)
  let logged = audit user Action.order_merged target.id moved
  let after = audit user Action.order_merged_into source.id logged
  ok (record { from_id = none; to_id = target.id; after = after })
transfer_all user source none table db = do
  let sit = λ (o : OrderRow). record o {
    table_id = some table;
    order_type = OrderType.dine_in;
    version = o.version + 1;
  }
  moved ←
      recompute_totals source.id none (record db { orders = update_order source.id sit db.orders })
  let after = audit user Action.order_table_transferred source.id moved
  ok (record { from_id = none; to_id = source.id; after = after })

-- Some lines move, onto the bill there or a new one.
unfoldable pub transfer_some : AuthUser → OrderRow → Moves → ℕ → ℕ → Db → Result Transferred
unfolding move_lines follow_kots touched_kots
transfer_some user source moves target table db = do
  let lines = lines_of source.id db.lines
  let kots = touched_kots moves lines
  let moved = follow_kots source.id target kots (move_lines moves target lines db)
  left ← recompute_totals source.id none moved
  given ← recompute_totals target none left
  let after = audit user Action.order_items_transferred source.id given
  ok (record { from_id = some source.id; to_id = target; after = after })

unfoldable pub transfer_part :
    AuthUser → OrderRow → Option OrderRow → ℕ → Moves → Db → Result Transferred
unfolding transfer_some
transfer_part user source (some target) table moves db =
    transfer_some user source moves target.id table db
transfer_part user source none table moves db =
    let id = db.next_id in
    let opened =
      new_order id user.tenant_id source.outlet_id OrderType.dine_in (some table) user.id in
    transfer_some user source moves id table
      (record db { orders = db.orders ++ (opened ∷ []); next_id = id + 1 })

unfoldable pub transfer_moves :
    AuthUser → OrderRow → Option OrderRow → ℕ → Option Moves → Db → Result Transferred
unfolding transfer_all transfer_part
transfer_moves user source target table none db = transfer_all user source target table db
transfer_moves user source target table (some moves) db =
    if all (λ l. qty_of moves l.id == l.quantity) (lines_of source.id db.lines)
    then transfer_all user source target table db
    else transfer_part user source target table moves db

-- The open bill on the table, locked and checked.
unfoldable pub lock_target : AuthUser → ℕ → ℕ → Db → Result (Option OrderRow)
unfolding find_on_table
lock_target user outlet table db = elim (find_on_table user outlet table db.orders) [
  | none ↦ ok none
  | some e ↦ do
    lock_orders user (e.id ∷ []) db
    target ← tenant_order user e.id db
    assert_mergeable target
    ok (some target)
]

unfoldable pub resolve_requested : Option (List LineQty) → List LineRow → Result (Option Moves)
resolve_requested none lines = ok none
resolve_requested (some requested) lines = do moves ← resolve_moves lines requested; ok (some moves)

abbrev pub same_table : Option ℕ → Option ℕ → Bool
same_table none none = true
same_table (some a) (some b) = a == b
same_table _ _ = false

unfoldable pub transfer : AuthUser → ℕ → ℕ → Option (List LineQty) → Db → Db → Result Transferred
unfolding transfer_moves lock_target resolve_requested
transfer user order_id table requested seen db = do
  pre ← require_order user order_id seen
  refuse_if (has_id pre.table_id table) Error.already_there
  lock_tables user pre.outlet_id (pre.table_id ∷ some table ∷ []) db
  lock_orders user (order_id ∷ []) db
  source ← tenant_order user order_id db
  assert_mergeable source
  refuse_if (not (same_table source.table_id pre.table_id)) Error.moved_meanwhile
  target ← lock_target user source.outlet_id table db
  moves ← resolve_requested requested (lines_of source.id db.lines)
  transfer_moves user source target table moves db
