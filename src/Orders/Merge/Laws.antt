-- ===== src/Orders/Merge/Laws.antt =====
-- What `merge` does to the lines and the rows.
use stello_kitchens.Prelude.{
  ℕ, inl, inr, ◌==◌, ◌≡◌, ◌∙◌, refl, ap, true, false, List, [], ◌∷◌, map, Option, none, some, arith,
  keep, ◌||◌, Bool-cases, ==_iff, if◌then◌else◌,
}
use mathlib.Core.Path.{fun_ext}
use stello_kitchens.Orders.Rows.{OrderRow, OrderStatus, Action, Db, AuthUser, ok, is_open}
use stello_kitchens.Orders.Store.{
  includes, find_order, update_order, update_orders, reassign_lines, lines_of, audit,
}
use stello_kitchens.Billing.Bill.{BillTotals, ServiceCharge}
use stello_kitchens.Orders.Store.Laws.{
  onto, find-update_ne, find-update_eq, lines_of-reassign, lines_of-reassign_source,
  lines_of-reassign_ne, includes_apart, audit-orders, audit-lines,
}
use stello_kitchens.Orders.Totals.{with_totals, bill_for, service_charge_for}
use stello_kitchens.Orders.Totals.Laws.{recompute_totals-eq-ok}
use stello_kitchens.Orders.Merge.{
  dedup, move_all, blank, find_donor, close_merged, take_customer, merge,
}
use stello_kitchens.Orders.Merge.Steps.{
  Merged, includes-dedup, fetch_orders-open, merge-Merged, audit_each-same, close_merged-id,
}
use stello_kitchens.Orders.Store.Laws.{find_order-id, tenant_order-found}

take_customer-id :
    (target : OrderRow) (donor : Option OrderRow) (o : OrderRow)
    → (take_customer target donor o).id ≡ o.id
unfolding take_customer
take_customer-id target none o = refl
take_customer-id target (some d) o = refl

with_totals-id :
    (b : BillTotals) (sc : Option ServiceCharge) (o : OrderRow) → (with_totals b sc o).id ≡ o.id
unfolding with_totals
with_totals-id b sc o = refl

-- The lines after the merge are the reassigned ones.
Merged-lines :
    (user : AuthUser) (t : ℕ) (sources : List ℕ) (db after : Db)
    → Merged user t sources db after
    → after.lines ≡ reassign_lines sources t db.lines
unfolding move_all
Merged-lines user t sources db after m =
    let (o, found, recomputed) =
      recompute_totals-eq-ok t none (move_all sources m.target db) m.recomputed in
    let logged =
      audit_each-same user Action.order_merged_into sources
        (audit user Action.order_merged t m.moved) in
    let same_id = find_order-id t db.orders (tenant_order-found user t db m.found) in
    ground (
      arith,
      ap Db.lines m.audited,
      logged.1,
      audit-lines user Action.order_merged t m.moved,
      ap Db.lines recomputed,
      same_id,
    )

Merged-orders :
    (user : AuthUser) (t : ℕ) (sources : List ℕ) (db after : Db)
    (m : Merged user t sources db after)
    → (b : BillTotals) × (sc : Option ServiceCharge) × (donor : Option OrderRow) × (after.orders
        ≡ update_order t (with_totals b sc) (
            update_orders sources
              (close_merged t)
              (update_order t (take_customer m.target donor) db.orders)))
unfolding move_all
Merged-orders user t sources db after m =
    let target = m.target in
    let (o, found, recomputed) =
      recompute_totals-eq-ok t none (move_all sources target db) m.recomputed in
    let logged =
      audit_each-same user Action.order_merged_into sources
        (audit user Action.order_merged t m.moved) in
    let same_id = find_order-id t db.orders (tenant_order-found user t db m.found) in
    (
      bill_for o o.allocated_discount (move_all sources target db),
      service_charge_for (db.rules o.tenant_id o.outlet_id) o,
      if blank target.customer_phone || blank target.customer_name
          then find_donor sources db.orders
          else none,
      ground (
        arith,
        ap Db.orders m.audited,
        logged.0,
        audit-orders user Action.order_merged t m.moved,
        ap Db.orders recomputed,
        same_id,
      ),
    )

-- An order that is closed is neither the target nor a source.
closed_elsewhere :
    (user : AuthUser) (t : ℕ) (sources : List ℕ) (db after : Db)
    (m : Merged user t sources db after) (i : ℕ) {o : OrderRow}
    → find_order i db.orders ≡ some o
    → is_open o.status ≡ false
    → includes (t ∷ sources) i ≡ false
closed_elsewhere user t sources db after m i {o} found closed =
    let target_found = tenant_order-found user t db m.found in
    elim (Bool-cases (t == i)) [
      | inl same ↦ absurd (
          ground (
            arith,
            m.target_open,
            target_found,
            ap (λ k. find_order k db.orders) ((==_iff t i).0 same),
          ))
      | inr other ↦ elim (Bool-cases (includes sources i)) [
        | inl source ↦ absurd (
            ground (
              arith,
              fetch_orders-open user sources db m.rows i {o = o} m.fetched m.rows_open source found,
            ))
        | inr unlisted ↦ ground arith
      ]
    ]

module _ (user : AuthUser) (t : ℕ) (ids : List ℕ) (seen db : Db) {after : Db}
    (merged : merge user t ids seen db ≡ ok after) where
  -- The target's lines are then exactly its own and those of the sources, in their order, and each
  -- is unchanged but for its order. That holds whatever the unlocked read has seen.
  pub merge-lines :
      lines_of t after.lines ≡ map (onto t) (keep (λ l. includes (t ∷ ids) l.order_id) db.lines)
  merge-lines =
      let m = (merge-Merged user t ids seen db merged).1 in
      ap (lines_of t) (Merged-lines user t (dedup ids) db after m)
      ∙ lines_of-reassign (dedup ids) t db.lines
      ∙ ap (λ p. map (onto t) (keep p db.lines))
          (fun_ext (λ l. ap (λ b. t == l.order_id || b) (includes-dedup ids l.order_id)))

  merge-source_row :
      (i : ℕ) {o : OrderRow}
      → includes ids i ≡ true
      → find_order i db.orders ≡ some o
      → (lines_of i after.lines ≡ []) × (find_order i after.orders ≡ some (close_merged t o))
  merge-source_row i {o} listed found =
      let (apart, m) = merge-Merged user t ids seen db merged in
      let sources = dedup ids in
      let source : includes sources i ≡ true = includes-dedup ids i ∙ listed in
      let other : includes (t ∷ []) i ≡ false =
        ground (arith, includes_apart sources i t source apart) in
      let (b, sc, donor, rows) = Merged-orders user t sources db after m in
      let kept = update_order t (take_customer m.target donor) db.orders in
      let closed = update_orders sources (close_merged t) kept in
      (
        ap (lines_of i) (Merged-lines user t sources db after m)
            ∙ lines_of-reassign_source sources t i db.lines source apart,
        ap (find_order i) rows
            ∙ find-update_ne (t ∷ []) (with_totals b sc) (with_totals-id b sc) i closed other
            ∙ find-update_eq sources (close_merged t) (close_merged-id t) i kept source (
                find-update_ne (t ∷ []) (take_customer m.target donor)
                  (take_customer-id m.target donor) i db.orders other
                ∙ found),
      )

  -- A source that exists is left with no line and no amount; it is closed as merged into the target.
  pub merge-source :
      (i : ℕ) {o : OrderRow}
      → includes ids i ≡ true
      → find_order i db.orders ≡ some o
      → (lines_of i after.lines ≡ [])
        × (closed : OrderRow) × (find_order i after.orders ≡ some closed)
        × (closed.status ≡ OrderStatus.merged)
        × (closed.merged_into_order_id ≡ some t)
        × (closed.subtotal ≡ 0)
        × (closed.discount_amount ≡ 0)
        × (closed.service_charge_amount ≡ 0)
        × (closed.tax_amount ≡ 0)
        × (closed.total ≡ 0)
  unfolding close_merged
  merge-source i {o} listed found =
      let (bare, closed) = merge-source_row i listed found in
      (bare, close_merged t o, closed, refl, refl, refl, refl, refl, refl, refl)

  -- An order that is no longer open keeps its row and its lines.
  pub merge-closed :
      (i : ℕ) {o : OrderRow}
      → find_order i db.orders ≡ some o
      → is_open o.status ≡ false
      → (lines_of i after.lines ≡ lines_of i db.lines) × (find_order i after.orders ≡ some o)
  merge-closed i {o} found closed =
      let (apart, m) = merge-Merged user t ids seen db merged in
      let sources = dedup ids in
      let elsewhere = closed_elsewhere user t sources db after m i found closed in
      let other : includes (t ∷ []) i ≡ false = ground arith in
      let unlisted : includes sources i ≡ false = ground arith in
      let (b, sc, donor, rows) = Merged-orders user t sources db after m in
      let kept = update_order t (take_customer m.target donor) db.orders in
      let closed_rows = update_orders sources (close_merged t) kept in
      (
        ap (lines_of i) (Merged-lines user t sources db after m)
            ∙ lines_of-reassign_ne sources t i db.lines elsewhere,
        ap (find_order i) rows
            ∙ find-update_ne (t ∷ []) (with_totals b sc) (with_totals-id b sc) i closed_rows other
            ∙ find-update_ne sources (close_merged t) (close_merged-id t) i kept unlisted
            ∙ find-update_ne (t ∷ []) (take_customer m.target donor)
                (take_customer-id m.target donor) i db.orders other
            ∙ found,
      )
