-- ===== src/Orders/Totals/Laws.antt =====
-- What `recomputeTotals` writes.
use stello_kitchens.Prelude.{ℕ, ◌≡◌, Option, some, arith, Option-cases, inl, inr}
use stello_kitchens.Orders.Rows.{OrderRow, Db, ok}
use stello_kitchens.Orders.Store.{find_order, update_order}
use stello_kitchens.Orders.Totals.{
  service_charge_for, bill_for, with_totals, given_or, recompute_totals,
}

-- The order exists, and only its row changes.
pub recompute_totals-eq-ok :
    (id : ℕ) (discount : Option ℕ) (db : Db) {after : Db}
    → recompute_totals id discount db ≡ ok after
    → (o : OrderRow) × (find_order id db.orders ≡ some o)
      × (after ≡ record db {
        orders =
            update_order id
              (with_totals
                (bill_for o (given_or discount o.allocated_discount) db)
                (service_charge_for (db.rules o.tenant_id o.outlet_id) o))
              db.orders;
      })
unfolding recompute_totals
recompute_totals-eq-ok id discount db h = elim (Option-cases (find_order id db.orders)) [
  | inl missing ↦ absurd (ground arith)
  | inr (o, found) ↦ (o, found, ground arith)
]
