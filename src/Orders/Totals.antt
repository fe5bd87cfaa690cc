-- ===== src/Orders/Totals.antt =====
-- `billFor` and `recomputeTotals` of apps/api/src/orders/orders.service.ts, with `serviceChargeFor` of
-- apps/api/src/billing/billing-rules.ts.
pub mod Laws
use stello_kitchens.Prelude.{
  ℕ, ◌+◌, Bool, true, false, not, ◌||◌, List, [], ◌∷◌, map, Option, none, some, ltb, if◌then◌else◌,
  any,
}
use stello_kitchens.Prelude.Rounding.{round_div}
use stello_kitchens.Prelude.Int.{pos}
use stello_kitchens.Money.{MoneyLine, paisa}
use stello_kitchens.Billing.Bill.{BillTotals, ServiceCharge, compute_bill}
use stello_kitchens.Orders.Rows.{
  OrderRow, OrderType, LineRow, BillingRules, Db, Error, Result, ok, err, ◌>>=◌, or_err,
}
use stello_kitchens.Orders.Store.{find_order, update_order, update_orders, lines_of}

abbrev pub same_type : OrderType → OrderType → Bool
same_type OrderType.dine_in OrderType.dine_in = true
same_type OrderType.takeaway OrderType.takeaway = true
same_type OrderType.delivery OrderType.delivery = true
same_type _ _ = false

unfoldable pub service_charge_for : BillingRules → OrderRow → Option ServiceCharge
service_charge_for rules o =
    if not rules.service_charge_enabled
      || not (ltb 0 rules.service_charge_percent)
      || o.service_charge_waived
    then none
    else (if not (any (λ t. same_type t o.order_type) rules.service_charge_order_types)
        then none
        else some (record {
          percent = rules.service_charge_percent;
          taxable = rules.service_charge_taxable;
        }))

abbrev pub money_line : LineRow → MoneyLine
money_line l = record { line_total_paise = round_div l.line_total paisa; tax_rate = l.tax_rate }

-- The online bill: an order's lines under the rules of its outlet.
unfoldable pub bill_for : OrderRow → ℕ → Db → BillTotals
unfolding compute_bill service_charge_for
bill_for o discount db =
    let rules = db.rules o.tenant_id o.outlet_id in
    compute_bill (map money_line (lines_of o.id db.lines)) (record {
      discount_rupees = pos discount;
      service_charge = service_charge_for rules o;
      round_off = rules.round_off_enabled;
    })

abbrev pub charge_rate : Option ServiceCharge → ℕ
charge_rate none = 0
charge_rate (some sc) = sc.percent

abbrev pub charge_taxable : Option ServiceCharge → Bool
charge_taxable none = false
charge_taxable (some sc) = sc.taxable

-- The row with its totals written.
unfoldable pub with_totals : BillTotals → Option ServiceCharge → OrderRow → OrderRow
with_totals b sc o = record o {
  subtotal = b.subtotal;
  discount_amount = b.discount_amount;
  service_charge_amount = b.service_charge_amount;
  service_charge_rate = charge_rate sc;
  service_charge_taxable = charge_taxable sc;
  tax_amount = b.tax_amount;
  round_off = b.round_off;
  total = b.total;
  version = o.version + 1;
}

abbrev pub given_or : Option ℕ → ℕ → ℕ
given_or none d = d
given_or (some v) d = v

-- Without a discount argument, the allocated one. The order must exist.
unfoldable pub recompute_totals : ℕ → Option ℕ → Db → Result Db
unfolding with_totals bill_for
recompute_totals id discount db = do
  o ← or_err (find_order id db.orders) Error.not_found
  let d = given_or discount o.allocated_discount
  let sc = service_charge_for (db.rules o.tenant_id o.outlet_id) o
  ok (record db { orders = update_order id (with_totals (bill_for o d db) sc) db.orders })
