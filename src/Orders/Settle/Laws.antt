-- ===== src/Orders/Settle/Laws.antt =====
-- What a settlement writes: the bill that is paid, and its number.
use mathlib.Core.Path.{subst}
use stello_kitchens.Prelude.{
  ℕ, ◌+◌, ◌==◌, ◌≡◌, ◌≤◌, refl, ap, sym, ◌∙◌, inl, inr, true, false, List, [], ◌∷◌, ◌++◌, map,
  Option, some, arith, Bool-cases, Option-cases, ==_iff,
}
use stello_kitchens.Prelude.Rounding.{round_div}
use stello_kitchens.Prelude.Texts.{Text}
use stello_kitchens.Money.{paisa}
use stello_kitchens.Service.{bind_ok}
use stello_kitchens.Orders.Rows.{OrderRow, OrderStatus, Action, Db, AuthUser, ok, is_open}
use stello_kitchens.Orders.Store.{find_order, update_order, audit, tenant_order}
use stello_kitchens.Orders.Store.Laws.{find-update_eq, find-update_ne}
use stello_kitchens.Orders.Totals.{service_charge_for, bill_for, with_totals, recompute_totals}
use stello_kitchens.Orders.Totals.Laws.{recompute_totals-eq-ok}
use stello_kitchens.Orders.Preview.Laws.{with_totals_found, resolve_discounts-le}
use stello_kitchens.Orders.Void.{close_parent, close_split_parent_if_done, with_status}
use stello_kitchens.Orders.Settle.{
  SettleInput, OutletRow, Shop, Seen, Clock, find_outlet, take_bill_number, next_bill, paid_paise,
  settled_row, finish_settlement, code_of, settle,
}
use stello_kitchens.Orders.Settle.Steps.{Settled, settle-all, seen_of}
use stello_kitchens.Orders.Store.Laws.{find_order-id, tenant_order-found, lock_open_order-found}

pub find_outlet-take :
    (id : ℕ) (os : List OutletRow) {o : OutletRow}
    → find_outlet id os ≡ some o
    → find_outlet id (take_bill_number id os) ≡ some (next_bill o)
unfolding find_outlet take_bill_number
find_outlet-take id [] h = absurd (ground arith)
find_outlet-take id (x ∷ os) {o} h = elim (Bool-cases (x.id == id)) [
  | inl here ↦ ground arith
  | inr other ↦ ground (arith, find_outlet-take id os {o = o} (ground arith))
]

close_parent-find :
    (user : AuthUser) (parent i : ℕ) (db : Db) {o : OrderRow} {after : Db}
    → close_parent user parent db ≡ ok after
    → find_order i db.orders ≡ some o
    → is_open o.status ≡ false
    → find_order i after.orders ≡ some o
unfolding close_parent audit
close_parent-find user parent i db {o} {after} h found closed =
    let (p, locked, h1) = bind_ok (tenant_order user parent db) h in
    let there = tenant_order-found user parent db {o = p} locked in
    elim (Bool-cases (is_open p.status)) [
      | inr shut ↦ ground arith
      | inl opened ↦
          let apart : (parent == i) ≡ false = elim (Bool-cases (parent == i)) [
            | inl same ↦
                absurd (ground (arith, ap (λ j. find_order j db.orders) ((==_iff parent i).0 same)))
            | inr other ↦ other
          ] in
          ground (
            arith,
            find-update_ne (parent ∷ []) (with_status OrderStatus.split) (λ x. refl) i db.orders
                (ground arith),
          )
    ]

-- A parent that closes is open, so a row that is not stays as it is.
pub close_split_parent_if_done-find :
    (user : AuthUser) (parent i : ℕ) (db : Db) {o : OrderRow} {after : Db}
    → close_split_parent_if_done user parent db ≡ ok after
    → find_order i db.orders ≡ some o
    → is_open o.status ≡ false
    → find_order i after.orders ≡ some o
unfolding close_split_parent_if_done
close_split_parent_if_done-find user parent i db {o} {after} h found closed =
    ground (arith, close_parent-find user parent i db {o = o} {after = after})

pub finish_settlement-find :
    (user : AuthUser) (order : OrderRow) (bill : ℕ) (customer : Option ℕ) (name : Option Text)
    (phone : Text) (coupon : Option Text) (db : Db) {row : OrderRow} {after : Db}
    → finish_settlement user order bill customer name phone coupon db ≡ ok after
    → find_order order.id db.orders ≡ some row
    → find_order order.id after.orders ≡ some (settled_row bill customer name phone coupon row)
unfolding finish_settlement settled_row audit
finish_settlement-find user order bill customer name phone coupon db {row} {after} h found =
    let done = settled_row bill customer name phone coupon row in
    let logged : Db = audit user Action.order_settled order.id (record db {
      orders = update_order order.id (settled_row bill customer name phone coupon) db.orders;
      next_id = db.next_id + 1;
    }) in
    let written : find_order order.id logged.orders ≡ some done =
      find-update_eq (order.id ∷ []) (settled_row bill customer name phone coupon) (λ x. refl)
        order.id db.orders {o = row} (ground arith) found in
    elim (Option-cases order.parent_order_id) [
      | inl whole ↦ ground arith
      | inr (parent, check) ↦
          close_split_parent_if_done-find user parent order.id logged {o = done} {after = after}
            (ground arith) written refl
    ]

-- The row of recomputed totals is that of the bill of the order's lines.
pub recompute_totals-row :
    (id d : ℕ) (db : Db) {o row : OrderRow} {after : Db}
    → recompute_totals id (some d) db ≡ ok after
    → find_order id db.orders ≡ some o
    → find_order id after.orders ≡ some row
    → row
      ≡ with_totals (bill_for o d db) (service_charge_for (db.rules o.tenant_id o.outlet_id) o) o
recompute_totals-row id d db {o} {row} {after} h found there =
    let (x, known, wrote) = recompute_totals-eq-ok id (some d) db {after = after} h in
    let same : x ≡ o = ground arith in
    let sc = service_charge_for (db.rules x.tenant_id x.outlet_id) x in
    let written = with_totals_found (bill_for x d db) sc id db.orders {o = x} known in
    let seen : find_order id after.orders ≡ some (with_totals (bill_for x d db) sc x) =
      rw wrote written in
    let kept : row ≡ with_totals (bill_for x d db) sc x = ground arith in
    kept
    ∙ ap
        (λ y.
          with_totals (bill_for y d db) (service_charge_for (db.rules y.tenant_id y.outlet_id) y) y)
        same

module _ (upper trim : Text → Text) (get_time : Text → Option ℕ) where
  -- The row that a settlement leaves of its bill.
  abbrev pub settled_of :
      {user : AuthUser} {id : ℕ} {input : SettleInput} {clock : Clock} {seen : Seen}
      {s after : Shop}
      → Settled upper trim get_time user id input clock seen s after
      → OrderRow
  settled_of {s = s} all =
      let b = all.opened.b in
      let visit = seen_of b all.paid.row.total all.paid.totalled all.done.redeemed s in
      settled_row all.done.numbered.next_bill_number visit.customer_id b.name b.phone
        (code_of b.discounts.coupon) all.paid.row

  pub settled_of-find :
      (user : AuthUser) (id : ℕ) (input : SettleInput) (clock : Clock) (seen : Seen) (s : Shop)
      {after : Shop}
      → (all : Settled upper trim get_time user id input clock seen s after)
      → find_order id after.db.orders ≡ some (settled_of all)
  settled_of-find user id input clock seen s all =
      let b = all.opened.b in
      let paid = all.paid in
      let done = all.done in
      let there = (lock_open_order-found user id s.db {o = b.order} all.opened.locked).0 in
      let own = find_order-id id s.db.orders {o = b.order} there in
      let visit = seen_of b paid.row.total paid.totalled done.redeemed s in
      ap (λ w. find_order id w.db.orders) done.result
      ∙ ap (λ i. find_order i done.finished.orders) (sym own)
      ∙ finish_settlement-find user b.order done.numbered.next_bill_number visit.customer_id b.name
          b.phone (code_of b.discounts.coupon) paid.totalled {row = paid.row}
          {after = done.finished} done.closed paid.found

  -- After a settlement that succeeds, the bill, which was open, is settled; it carries the outlet's next
  -- bill number, which is then the one after; and the payments, which are recorded with the bill's id,
  -- are in paise exactly its total, which is that of the bill of its lines with a discount of at most
  -- its subtotal.
  pub settle-paid :
      (user : AuthUser) (id : ℕ) (input : SettleInput) (clock : Clock) (seen : Seen) (s : Shop)
      {after : Shop}
      → settle upper trim get_time user id input clock seen s ≡ ok after
      → (order : OrderRow) × (outlet : OutletRow) × (row : OrderRow) × (d : ℕ) × (find_order id
            s.db.orders
          ≡ some order)
        × (is_open order.status ≡ true)
        × (find_outlet order.outlet_id s.outlets ≡ some outlet)
        × (find_order id after.db.orders ≡ some row)
        × (row.status ≡ OrderStatus.settled)
        × (row.bill_number ≡ some outlet.next_bill_number)
        × (find_outlet order.outlet_id after.outlets ≡ some (next_bill outlet))
        × (d ≤ order.subtotal)
        × (row.total ≡ (bill_for order d s.db).total)
        × (paid_paise input.payments ≡ round_div row.total paisa)
        × (after.payments
            ≡ s.payments ++ map (λ p. record { order_id = id; payment = p }) input.payments)
  unfolding settled_row with_totals
  settle-paid user id input clock seen s {after} h =
      let all = settle-all upper trim get_time user id input clock seen s {after = after} h in
      let opened = all.opened in
      let b = opened.b in
      let paid = all.paid in
      let done = all.done in
      let (there, is_open) = lock_open_order-found user id s.db {o = b.order} opened.locked in
      let own = find_order-id id s.db.orders {o = b.order} there in
      (
        b.order,
        done.numbered,
        settled_of all,
        b.discounts.total_discount,
        there,
        is_open,
        done.known,
        settled_of-find user id input clock seen s {after = after} all,
        refl,
        refl,
        subst (λ w. find_outlet b.order.outlet_id w.outlets ≡ some (next_bill done.numbered))
            (sym done.result)
            (find_outlet-take b.order.outlet_id s.outlets {o = done.numbered} done.known),
        resolve_discounts-le upper trim get_time clock.text seen.coupons b.order input.discounts
            b.outlet.loyalty_point_value b.phone {d = b.discounts} opened.resolved,
        ap (λ r. r.total)
            (recompute_totals-row b.order.id b.discounts.total_discount s.db {o = b.order}
              {row = paid.row} {after = paid.totalled} paid.recomputed
              (subst (λ i. find_order i s.db.orders ≡ some b.order) (sym own) there) paid.found),
        paid.balanced,
        ap (λ w. w.payments) done.result
            ∙ ap (λ i. s.payments ++ map (λ p. record { order_id = i; payment = p }) input.payments)
                own,
      )
