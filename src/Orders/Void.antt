-- ===== src/Orders/Void.antt =====
-- The operations on one row: `setServiceCharge` of apps/api/src/billing/order-ops.service.ts, and
-- `cancel` and `closeSplitParentIfDone` of apps/api/src/orders/orders.service.ts.
use stello_kitchens.Prelude.{ℕ, ◌+◌, Bool, Option, none, if◌then◌else◌, any, ◌&&◌, ◌==◌}
use stello_kitchens.Orders.Rows.{
  OrderRow, OrderStatus, Action, Db, AuthUser, Error, Result, ok, ◌>>=◌, ◌>>◌, refuse_if, is_open,
}
use stello_kitchens.Prelude.Texts.{Text}
use stello_kitchens.Orders.Store.{
  update_order, audit, truthy, has_id, lock_open_order, assert_not_split, tenant_order,
}
use stello_kitchens.Orders.Totals.{recompute_totals}

unfoldable pub set_service_charge : AuthUser → ℕ → Bool → Option Text → Db → Result Db
set_service_charge user order_id waive reason db = do
  order ← lock_open_order user order_id db
  refuse_if (truthy order.split_count) Error.is_split
  let waived = λ (o : OrderRow). record o {
    service_charge_waived = waive;
    service_charge_waived_reason = if waive then reason else none;
  }
  after ←
      recompute_totals order.id none (record db { orders = update_order order.id waived db.orders })
  let action = if waive then Action.service_charge_removed else Action.service_charge_restored
  ok (audit user action order.id after)

abbrev pub with_status : OrderStatus → OrderRow → OrderRow
with_status s o = record o { status = s; version = o.version + 1 }

unfoldable pub cancel : AuthUser → ℕ → Db → Result Db
cancel user order_id db = do
  order ← lock_open_order user order_id db
  assert_not_split order
  ok (
      audit user Action.order_cancelled order.id (record db {
        orders = update_order order.id (with_status OrderStatus.cancelled) db.orders;
      }))

unfoldable pub close_parent : AuthUser → ℕ → Db → Result Db
close_parent user parent_id db = do
  parent ← tenant_order user parent_id db
  ok (
      if is_open parent.status
      then audit user Action.order_split_closed parent_id
          (record db { orders = update_order parent_id (with_status OrderStatus.split) db.orders })
      else db)

-- A parent closes once none of its checks is open.
unfoldable pub close_split_parent_if_done : AuthUser → ℕ → Db → Result Db
unfolding close_parent
close_split_parent_if_done user parent_id db =
    if any
      (λ o. o.tenant_id == user.tenant_id && has_id o.parent_order_id parent_id && is_open o.status)
      db.orders
    then ok db
    else close_parent user parent_id db
