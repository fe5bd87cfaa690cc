-- ===== src/Orders/Merge/Tests.antt =====
-- A merge of two bills at a run.
use stello_kitchens.Prelude.{ℕ, ◌≡◌, refl, List, [], ◌∷◌, map, some, keep}
use stello_kitchens.Orders.Rows.{OrderRow, OrderStatus, Db, ok}
use stello_kitchens.Orders.Store.{
  includes, find_order, update_orders, lines_of, reassign_lines, audit, tenant_order,
}
use stello_kitchens.Orders.Totals.{recompute_totals}
use stello_kitchens.Orders.Merge.{
  dedup, lock_tables, fetch_orders, lock_orders, find_donor, take_customer, close_merged, move_all,
  assert_sources, audit_each, merge_locked, merge_seen, merge,
}
use stello_kitchens.Orders.Merge.Laws.{merge-lines, merge-source, merge-closed}
use stello_kitchens.Orders.Store.Laws.{onto}
use stello_kitchens.Orders.Sample.{cashier, restaurant, db_of, bill_at}

-- Bill 2 into bill 1, with a repeated id.
abbrev both : List ℕ
both = 2 ∷ (2 ∷ [])

abbrev merged_db : Db
merged_db = db_of (merge cashier 1 both restaurant restaurant)

merged_run : merge cashier 1 both restaurant restaurant ≡ ok merged_db
unfolding merge dedup lock_tables fetch_orders lock_orders assert_sources merge_locked merge_seen
    find_order tenant_order audit_each audit recompute_totals move_all find_donor take_customer
    close_merged update_orders reassign_lines
merged_run = refl

merge-lines_example :
    lines_of 1 merged_db.lines
    ≡ map (onto 1) (keep (λ l. includes (1 ∷ both) l.order_id) restaurant.lines)
merge-lines_example = merge-lines cashier 1 both restaurant restaurant merged_run

source_found : find_order 2 restaurant.orders ≡ some (bill_at 2 12 OrderStatus.open_bill)
unfolding find_order
source_found = refl

settled_found : find_order 3 restaurant.orders ≡ some (bill_at 3 13 OrderStatus.settled)
unfolding find_order
settled_found = refl

merge-source_example :
    (lines_of 2 merged_db.lines ≡ [])
    × (closed : OrderRow) × (find_order 2 merged_db.orders ≡ some closed)
    × (closed.status ≡ OrderStatus.merged)
    × (closed.merged_into_order_id ≡ some 1)
    × (closed.subtotal ≡ 0)
    × (closed.discount_amount ≡ 0)
    × (closed.service_charge_amount ≡ 0)
    × (closed.tax_amount ≡ 0)
    × (closed.total ≡ 0)
merge-source_example =
    merge-source cashier 1 both restaurant restaurant merged_run 2 refl source_found

merge-closed_example :
    (lines_of 3 merged_db.lines ≡ lines_of 3 restaurant.lines)
    × (find_order 3 merged_db.orders ≡ some (bill_at 3 13 OrderStatus.settled))
merge-closed_example =
    merge-closed cashier 1 both restaurant restaurant merged_run 3 settled_found refl
