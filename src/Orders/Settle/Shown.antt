-- ===== src/Orders/Settle/Shown.antt =====
-- A preview and a settlement of the same request: the guest pays what was shown.
use stello_kitchens.Prelude.{ℕ, ◌≡◌, ap, sym, ◌∙◌, Option, some}
use stello_kitchens.Prelude.Rounding.{round_div}
use stello_kitchens.Prelude.Texts.{Text}
use stello_kitchens.Money.{paisa}
use stello_kitchens.Service.{ok_inj}
use stello_kitchens.Orders.Rows.{OrderRow, AuthUser, ok}
use stello_kitchens.Orders.Store.{find_order}
use stello_kitchens.Orders.Store.Laws.{find_order-id, lock_open_order-found, require_order-found}
use stello_kitchens.Orders.Totals.{service_charge_for, bill_for, with_totals}
use stello_kitchens.Orders.Preview.{
  Discounts, BillPreview, phone_of, split_tax, preview_of, resolve_discounts, preview,
}
use stello_kitchens.Orders.Preview.Laws.{preview-eq-ok}
use stello_kitchens.Orders.Settle.{
  SettleInput, OutletRow, Shop, Seen, Clock, find_outlet, paid_paise, settled_row, settle,
}
use stello_kitchens.Orders.Settle.Steps.{Opened, settle-all}
use stello_kitchens.Orders.Settle.Laws.{recompute_totals-row, settled_of, settled_of-find}

some_inj : {A : Type 0} {x y : A} → some x ≡ some y → x ≡ y
some_inj h = cc h

module _ (upper trim : Text → Text) (get_time : Text → Option ℕ) where
  -- The preview of the bill that a settlement has opened.
  preview_of-Opened :
      (viewer user : AuthUser) (id : ℕ) (input : SettleInput) (clock : Clock) (seen : Seen)
      (s : Shop) (seller buyer : Option ℕ) {outlet : OutletRow} {p : BillPreview} {after : Shop}
      → (opened : Opened upper trim get_time user id input clock seen s after)
      → opened.b.outlet ≡ outlet
      → preview upper trim get_time clock.text seen.coupons viewer id input.discounts
          outlet.loyalty_point_value seller buyer s.db
        ≡ ok p
      → let o = opened.b.order in
        let d = opened.b.discounts in
        let bill = bill_for o d.total_discount s.db in
        preview_of o bill
          (service_charge_for (s.db.rules o.tenant_id o.outlet_id) o)
          d
          (split_tax bill.tax_amount seller buyer)
        ≡ p
  preview_of-Opened viewer user id input clock seen s seller buyer {outlet} {p} opened same_outlet
        previewed =
      let b = opened.b in
      let (o, d, found, is_open, resolved, shown) =
        preview-eq-ok upper trim get_time clock.text seen.coupons viewer id input.discounts
          outlet.loyalty_point_value seller buyer s.db {p = p} previewed in
      let locked = (lock_open_order-found user id s.db {o = b.order} opened.locked).0 in
      let same : b.order ≡ o =
        some_inj (sym locked ∙ require_order-found viewer id s.db {o = o} found) in
      let resolve = λ (x : OrderRow) (t : OutletRow) (phone : Text).
        resolve_discounts upper trim get_time clock.text seen.coupons x input.discounts
          t.loyalty_point_value phone in
      let payer =
        λ (x : OrderRow). trim (phone_of input.discounts.customer_phone x.customer_phone) in
      let same_discounts : b.discounts ≡ d = sym (
        ok_inj (
          sym opened.resolved
          ∙ ap (resolve b.order b.outlet) opened.phone_is
          ∙ (λ i. resolve (same i) (same_outlet i) (payer (same i)))
          ∙ resolved)) in
      let written_for = λ (x : OrderRow) (e : Discounts).
        let bill = bill_for x e.total_discount s.db in
        preview_of x bill (service_charge_for (s.db.rules x.tenant_id x.outlet_id) x) e
          (split_tax bill.tax_amount seller buyer) in
      (λ i. written_for (same i) (same_discounts i)) ∙ sym shown

  -- Where a preview of a bill succeeds, and a settlement of the same bill with the same discounts succeeds
  -- at the same time, on the same rows and with the same value of a point: the bill is settled with the
  -- subtotal, the discount, the service charge, the tax, the rounding and the total that the preview shows,
  -- and the payments are that total in paise.
  pub settle-shown :
      (viewer user : AuthUser) (id : ℕ) (input : SettleInput) (clock : Clock) (seen : Seen)
      (s : Shop) (seller buyer : Option ℕ) {order : OrderRow} {outlet : OutletRow} {p : BillPreview}
      {after : Shop}
      → find_order id s.db.orders ≡ some order
      → find_outlet order.outlet_id seen.outlets ≡ some outlet
      → preview upper trim get_time clock.text seen.coupons viewer id input.discounts
          outlet.loyalty_point_value seller buyer s.db
        ≡ ok p
      → settle upper trim get_time user id input clock seen s ≡ ok after
      → (row : OrderRow) × (find_order id after.db.orders ≡ some row)
        × (row.subtotal ≡ p.subtotal)
        × (row.discount_amount ≡ p.discount_amount)
        × (row.service_charge_amount ≡ p.service_charge_amount)
        × (row.tax_amount ≡ p.tax_amount)
        × (row.round_off ≡ p.round_off)
        × (row.total ≡ p.total)
        × (paid_paise input.payments ≡ round_div p.total paisa)
  unfolding settled_row with_totals preview_of
  settle-shown viewer user id input clock seen s seller buyer {order} {outlet} {p} {after} there
        known previewed h =
      let all = settle-all upper trim get_time user id input clock seen s {after = after} h in
      let opened = all.opened in
      let b = opened.b in
      let paid = all.paid in
      let locked = (lock_open_order-found user id s.db {o = b.order} opened.locked).0 in
      let is_order : b.order ≡ order = some_inj (sym locked ∙ there) in
      let same_outlet : b.outlet ≡ outlet =
        some_inj
          (sym opened.known ∙ ap (λ x. find_outlet x.outlet_id seen.outlets) is_order ∙ known) in
      let as_shown =
        preview_of-Opened viewer user id input clock seen s seller buyer {p = p} {after = after}
          opened same_outlet previewed in
      let own = find_order-id id s.db.orders {o = b.order} locked in
      let row_is =
        recompute_totals-row b.order.id b.discounts.total_discount s.db {o = b.order}
          {row = paid.row} {after = paid.totalled} paid.recomputed
          (ap (λ i. find_order i s.db.orders) own ∙ locked) paid.found in
      let total_is = ap (λ r. r.total) row_is ∙ ap (λ q. q.total) as_shown in
      (
        settled_of upper trim get_time all,
        settled_of-find upper trim get_time user id input clock seen s {after = after} all,
        ap (λ r. r.subtotal) row_is ∙ ap (λ q. q.subtotal) as_shown,
        ap (λ r. r.discount_amount) row_is ∙ ap (λ q. q.discount_amount) as_shown,
        ap (λ r. r.service_charge_amount) row_is ∙ ap (λ q. q.service_charge_amount) as_shown,
        ap (λ r. r.tax_amount) row_is ∙ ap (λ q. q.tax_amount) as_shown,
        ap (λ r. r.round_off) row_is ∙ ap (λ q. q.round_off) as_shown,
        total_is,
        paid.balanced ∙ ap (λ t. round_div t paisa) total_is,
      )
