-- ===== src/Orders/Preview/Laws.antt =====
-- What a preview takes off and shows.
use stello_kitchens.Prelude.{
  ℕ, ◌+◌, ◌≤◌, ◌≡◌, inl, inr, refl, true, List, [], ◌∷◌, Option, some, arith,
}
use stello_kitchens.Prelude.Rounding.{round_div}
use stello_kitchens.Money.{paisa, from_paise}
use stello_kitchens.Billing.Bill.{BillTotals, ServiceCharge}
use stello_kitchens.Orders.Rows.{OrderRow, Db, AuthUser, ok, is_open, Result-cases}
use stello_kitchens.Prelude.Texts.{Text}
use stello_kitchens.Orders.Store.{find_order, update_order, require_order}
use stello_kitchens.Orders.Store.Laws.{find-update_eq}
use stello_kitchens.Orders.Totals.{service_charge_for, bill_for, with_totals}
use stello_kitchens.Orders.Preview.{
  CouponRow, DiscountInput, Discounts, BillPreview, phone_of, split_tax, preview_of, resolve_coupon,
  resolve_discounts, preview,
}

-- Whatever the states, the parts of the tax are together the tax in whole paise.
pub split_tax_whole :
    (tax : ℕ) (seller buyer : Option ℕ)
    → let t = split_tax tax seller buyer in
      t.cgst + t.sgst + t.igst ≡ from_paise (round_div tax paisa)
unfolding split_tax from_paise
split_tax_whole tax seller buyer = let paise = round_div tax paisa in ground arith

pub with_totals_found :
    (b : BillTotals) (sc : Option ServiceCharge) (id : ℕ) (os : List OrderRow) {o : OrderRow}
    → find_order id os ≡ some o
    → find_order id (update_order id (with_totals b sc) os) ≡ some (with_totals b sc o)
unfolding with_totals
with_totals_found b sc id os {o} h =
    find-update_eq (id ∷ []) (with_totals b sc) (λ x. refl) id os {o = o} (ground arith) h

module _ (upper trim : Text → Text) (get_time : Text → Option ℕ) (now : Text)
    (coupons : List CouponRow) where
  pub resolve_discounts-le :
      (order : OrderRow) (input : DiscountInput) (value : ℕ) (phone : Text) {d : Discounts}
      → resolve_discounts upper trim get_time now coupons order input value phone ≡ ok d
      → d.total_discount ≤ order.subtotal
  unfolding resolve_discounts
  resolve_discounts-le order input value phone h =
      elim (Result-cases (
        resolve_coupon upper trim get_time now coupons order.outlet_id order.subtotal
          input.coupon_code)) [
            | inl (e, refused) ↦ absurd (ground arith)
            | inr (c, found) ↦ ground arith
          ]

  pub preview-eq-ok :
      (user : AuthUser) (id : ℕ) (input : DiscountInput) (value : ℕ) (seller buyer : Option ℕ)
      (db : Db) {p : BillPreview}
      → preview upper trim get_time now coupons user id input value seller buyer db ≡ ok p
      → (o : OrderRow) × (d : Discounts) × (require_order user id db ≡ ok o)
        × (is_open o.status ≡ true)
        × (resolve_discounts upper trim get_time now coupons o input value
              (trim (phone_of input.customer_phone o.customer_phone))
            ≡ ok d)
        × (let b = bill_for o d.total_discount db in
            p
            ≡ preview_of o b
                (service_charge_for (db.rules o.tenant_id o.outlet_id) o)
                d
                (split_tax b.tax_amount seller buyer))
  unfolding preview
  preview-eq-ok user id input value seller buyer db h =
      elim (Result-cases (require_order user id db)) [
        | inl (e, refused) ↦ absurd (ground arith)
        | inr (o, found) ↦
            let phone = trim (phone_of input.customer_phone o.customer_phone) in
            elim (Result-cases
              (resolve_discounts upper trim get_time now coupons o input value phone)) [
                | inl (e, refused) ↦ absurd (ground arith)
                | inr (d, resolved) ↦ (o, d, found, ground arith, resolved, ground arith)
              ]
      ]
