-- ===== src/Billing/Bill/Laws.antt =====
-- What `computeBill` promises: the bill adds up, agrees with the offline formula, and moves with the
-- discount.
use native.Mathlib.Nat.{le_refl, mul-le-mul}
use stello_kitchens.Prelude.{
  ℕ, ◌+◌, ◌-◌, ◌*◌, ◌/◌, ◌≤◌, ◌≡◌, ◌∙◌, refl, ap, List, Bool, true, false, none, some, arith,
  Option, All,
}
use stello_kitchens.Prelude.Rounding.{round_div, round_div_nearest, round_div_mono}
use stello_kitchens.Prelude.Int.{pos, pos_part, neg_part, ◌+ℤ◌}
use stello_kitchens.Money.{
  MoneyLine, rate_scale, from_paise, compute_order_totals, clamp_discount, tax_on, subtotal_of,
  raw_tax_of,
}
use stello_kitchens.Money.Totals.{
  clamp_discount-le, tax_on_mono, tax_on_uniform, raw_tax_of_uniform,
}
use stello_kitchens.Billing.Bill.{
  BillOptions, ServiceCharge, bill_paise, compute_bill, payable, whole_rupee, service_charge_on,
  taxed_charge,
}

-- The discount stays within the subtotal, the parts add up to the total before rounding, and the
-- recorded round-off takes that to the payable total.
pub compute_bill_balances :
    (lines : List MoneyLine) (opts : BillOptions)
    → let b = compute_bill lines opts in
      (b.discount_amount ≤ b.subtotal)
      × (b.total_before_round_off + b.discount_amount
          ≡ b.subtotal + b.service_charge_amount + b.tax_amount)
      × (pos b.total_before_round_off +ℤ b.round_off ≡ pos b.total)
unfolding compute_bill bill_paise ◌+ℤ◌
compute_bill_balances lines opts =
    ground (arith, clamp_discount-le opts.discount_rupees (subtotal_of lines))

-- With no service charge and no round-off the bill is that of the offline formula.
pub compute_bill-eq-compute_order_totals :
    (lines : List MoneyLine) (opts : BillOptions)
    → opts.service_charge ≡ none
    → opts.round_off ≡ false
    → let b = compute_bill lines opts in
      let o = compute_order_totals lines opts.discount_rupees in
      (b.subtotal ≡ o.subtotal)
      × (b.discount_amount ≡ o.discount_amount)
      × (b.tax_amount ≡ o.tax_amount)
      × (b.total ≡ o.total)
      × (b.service_charge_amount ≡ 0)
      × (b.round_off ≡ pos 0)
unfolding compute_bill bill_paise compute_order_totals payable service_charge_on taxed_charge
compute_bill-eq-compute_order_totals lines opts no_charge no_rounding =
    rw (no_charge, no_rounding) (ground arith)

-- With round-off the payable total is in whole rupees, and the adjustment lies between -0.49 and
-- +0.50 rupees.
pub compute_bill_rounds :
    (lines : List MoneyLine) (opts : BillOptions)
    → opts.round_off ≡ true
    → let b = compute_bill lines opts in
      (b.total ≡ b.total / 10000 * 10000)
      × (pos_part b.round_off ≤ 5000)
      × (neg_part b.round_off ≤ 4900)
unfolding compute_bill payable whole_rupee from_paise
compute_bill_rounds lines opts on =
    let near = round_div_nearest (bill_paise lines opts).pre_round 100 (omega arith) in
    rw on (ground (arith, near))

payable_mono : (r : Bool) (a b : ℕ) → a ≤ b → payable r a ≤ payable r b
unfolding payable whole_rupee
payable_mono true a b h = omega (arith, round_div_mono a b 100 (omega arith) h)
payable_mono false a b h = h

service_charge_on_mono :
    (sc : Option ServiceCharge) (a b : ℕ) → a ≤ b → service_charge_on sc a ≤ service_charge_on sc b
unfolding service_charge_on
service_charge_on_mono none a b h = omega arith
service_charge_on_mono (some sc) a b h = ground (
  arith,
  round_div_mono (a * sc.percent) (b * sc.percent) rate_scale (omega arith)
      (mul-le-mul h (le_refl sc.percent)),
)

taxed_charge_mono :
    (sc : Option ServiceCharge) (a b : ℕ) → a ≤ b → taxed_charge sc a ≤ taxed_charge sc b
unfolding taxed_charge
taxed_charge_mono none a b h = omega arith
taxed_charge_mono (some sc) a b h = ground arith

pre_round_antitone :
    (lines : List MoneyLine) (less more : BillOptions)
    → less.service_charge ≡ more.service_charge
    → (bill_paise lines less).discount ≤ (bill_paise lines more).discount
    → (bill_paise lines more).pre_round ≤ (bill_paise lines less).pre_round
unfolding bill_paise
pre_round_antitone lines less more same_charge h =
    let s = subtotal_of lines in
    let a = s - clamp_discount more.discount_rupees s in
    let b = s - clamp_discount less.discount_rupees s in
    let sc = more.service_charge in
    let charge = service_charge_on_mono sc a b (omega arith) in
    let taxed = taxed_charge_mono sc (service_charge_on sc a) (service_charge_on sc b) charge in
    rw same_charge (
      omega (
        arith,
        charge,
        tax_on_mono s (raw_tax_of lines) (a + taxed_charge sc (service_charge_on sc a))
            (b + taxed_charge sc (service_charge_on sc b)) (omega arith),
      ))

-- A larger discount never raises the payable total, whatever the service charge and the round-off.
pub compute_bill_antitone :
    (lines : List MoneyLine) (less more : BillOptions)
    → less.service_charge ≡ more.service_charge
    → less.round_off ≡ more.round_off
    → (compute_bill lines less).discount_amount ≤ (compute_bill lines more).discount_amount
    → (compute_bill lines more).total ≤ (compute_bill lines less).total
unfolding compute_bill from_paise
compute_bill_antitone lines less more same_charge same_rounding h =
    let p = bill_paise lines less in
    let q = bill_paise lines more in
    simp same_rounding (
      omega (
        arith,
        payable_mono more.round_off q.pre_round p.pre_round
            (pre_round_antitone lines less more same_charge (omega arith)),
      ))

service_charge_on_zero : (sc : Option ServiceCharge) → service_charge_on sc 0 ≡ 0
unfolding service_charge_on round_div
service_charge_on_zero none = refl
service_charge_on_zero (some sc) = ground arith

zero_sub : (s d : ℕ) → s ≡ 0 → s - d ≡ 0
zero_sub s d e = omega arith

taxed_charge-le : (sc : Option ServiceCharge) (c : ℕ) → taxed_charge sc c ≤ c
unfolding taxed_charge
taxed_charge-le none c = omega arith
taxed_charge-le (some sc) c = ground arith

no_sales_no_base :
    (sc : Option ServiceCharge) (s d : ℕ)
    → s ≡ 0
    → s - d + taxed_charge sc (service_charge_on sc (s - d)) ≡ 0
no_sales_no_base sc s d e = omega (
  arith,
  taxed_charge-le sc (service_charge_on sc (s - d)),
  service_charge_on_zero sc,
  ap (service_charge_on sc) (zero_sub s d e),
)

-- Where every line bears the same rate, the tax is that rate on the discounted subtotal plus the
-- taxed service charge, rounded once to the paisa.
pub compute_bill_uniform_tax :
    (r : ℕ) (lines : List MoneyLine) (opts : BillOptions)
    → All (λ l. l.tax_rate ≡ r) lines
    → let p = bill_paise lines opts in
      let base = p.subtotal - p.discount + taxed_charge opts.service_charge p.charge in
      (compute_bill lines opts).tax_amount ≡ from_paise (round_div (base * r) rate_scale)
unfolding compute_bill bill_paise
compute_bill_uniform_tax r lines opts same =
    let s = subtotal_of lines in
    let d = clamp_discount opts.discount_rupees s in
    let sc = opts.service_charge in
    let base = s - d + taxed_charge sc (service_charge_on sc (s - d)) in
    ap from_paise (
      ap (λ raw. tax_on s raw base) (raw_tax_of_uniform r lines same)
      ∙ tax_on_uniform s r base (no_sales_no_base sc s d))
