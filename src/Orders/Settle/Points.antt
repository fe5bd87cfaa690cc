-- ===== src/Orders/Settle/Points.antt =====
-- The loyalty points of a settlement: the code that allows a redemption, and the balance behind it.
use mathlib.Core.Path.{subst}
use stello_kitchens.Prelude.{
  ℕ, ◌+◌, ◌-◌, ◌≤◌, ◌<◌, ◌≡◌, refl, ap, sym, ◌∙◌, inl, inr, true, false, List, [], ◌∷◌, Option,
  some, arith, All, if◌then◌else◌, Bool-cases, ltb, keep,
}
use stello_kitchens.Prelude.Texts.{Text}
use stello_kitchens.Service.{Result-cases}
use stello_kitchens.Orders.Rows.{OrderRow, Db, AuthUser, Result, ok}
use stello_kitchens.Orders.Store.{find_order}
use stello_kitchens.Orders.Totals.{given_or}
use stello_kitchens.Orders.Preview.{
  DiscountInput, Discounts, phone_of, empty, resolve_coupon, resolve_discounts,
}
use stello_kitchens.Loyalty.{
  Otp, Customer, Visit, is_usable, latest_otp, is_customer, less_points, visited, redeem_points,
  upsert_customer, verify_and_consume,
}
use stello_kitchens.Loyalty.Laws.{
  IsSpent, verify_and_consume-spends, redeem_points-one, upsert_customer-one,
}
use stello_kitchens.Orders.Settle.{
  SettleInput, OutletRow, Shop, Seen, Clock, Sale, find_outlet, settled_row, points_earned,
  count_visit, visit_of, settle,
}
use stello_kitchens.Orders.Settle.Steps.{settle-all, seen_of}
use stello_kitchens.Orders.Settle.Laws.{settled_of, settled_of-find}
use stello_kitchens.Orders.Store.Laws.{find_order-id, lock_open_order-found}

-- Who pays: the phone of the request, or else of the bill.
abbrev pub payer : (Text → Text) → SettleInput → OrderRow → Text
payer trim input order = trim (phone_of input.discounts.customer_phone order.customer_phone)

abbrev pub points_asked : SettleInput → ℕ
points_asked input = given_or input.discounts.redeem_points 0

resolve_discounts-points :
    (upper trim : Text → Text) (get_time : Text → Option ℕ) (now : Text) (seen : Seen)
    (order : OrderRow) (input : DiscountInput) (value : ℕ) (phone : Text) {d : Discounts}
    → resolve_discounts upper trim get_time now seen.coupons order input value phone ≡ ok d
    → d.redeem_points ≡ given_or input.redeem_points 0
unfolding resolve_discounts
resolve_discounts-points upper trim get_time now seen order input value phone h =
    elim (Result-cases (
      resolve_coupon upper trim get_time now seen.coupons order.outlet_id order.subtotal
        input.coupon_code)) [
          | inl (e, refused) ↦ absurd (ground arith)
          | inr (c, found) ↦ ground arith
        ]

count_visit-customers :
    (fresh outlet order : ℕ) (phone : Text) (v : Visit) (n : ℕ) (cs : List Customer) (s : Shop)
    → empty phone ≡ false
    → (count_visit fresh outlet order phone v n cs s.loyalty).customers
      ≡ upsert_customer fresh outlet phone v cs
unfolding count_visit
count_visit-customers fresh outlet order phone v n cs s h = rw h refl

-- No points asked: no row changes.
redeemed-one :
    (outlet : ℕ) (phone : Text) (n : ℕ) (cs : List Customer) {c : Customer} {after : List Customer}
    → keep (is_customer outlet phone) cs ≡ c ∷ []
    → (if ltb 0 n then redeem_points outlet phone n cs else ok cs) ≡ ok after
    → (n ≤ c.loyalty_points) × (keep (is_customer outlet phone) after ≡ less_points n c ∷ [])
redeemed-one outlet phone n cs {c} {after} one h = elim (Bool-cases (ltb 0 n)) [
  | inl asked ↦ redeem_points-one outlet phone n cs {c = c} {after = after} one (simp asked at h)
  | inr unasked ↦
      let h' : ok cs ≡ ok after = simp unasked at h in
      let same : cs ≡ after = cc h' in
      let zero : n ≡ 0 = ground arith in
      (
        omega (arith, zero),
        subst (λ xs. keep (is_customer outlet phone) xs ≡ less_points n c ∷ []) same
            (one ∙ ap (λ x. x ∷ []) (ground (arith, zero))),
      )
]

-- The customer's row behind the visit.
seen_of-one :
    (b : Sale) (total : ℕ) (totalled : Db) (s : Shop) {c : Customer} {redeemed : List Customer}
    → empty b.phone ≡ false
    → keep (is_customer b.order.outlet_id b.phone) s.customers ≡ c ∷ []
    → (if ltb 0 b.discounts.redeem_points
        then redeem_points b.order.outlet_id b.phone b.discounts.redeem_points s.customers
        else ok s.customers)
      ≡ ok redeemed
    → (b.discounts.redeem_points ≤ c.loyalty_points)
      × (keep
            (is_customer b.order.outlet_id b.phone)
            (seen_of b total totalled redeemed s).customers
          ≡ visited (visit_of b total) (less_points b.discounts.redeem_points c) ∷ [])
seen_of-one b total totalled s {c} {redeemed} known one taken =
    let n = b.discounts.redeem_points in
    let (enough, left) =
      redeemed-one b.order.outlet_id b.phone n s.customers {c = c} {after = redeemed} one taken in
    (
      enough,
      ap (keep (is_customer b.order.outlet_id b.phone)) (
            count_visit-customers totalled.next_id b.order.outlet_id b.order.id b.phone
              (visit_of b total) n redeemed s known)
          ∙ upsert_customer-one totalled.next_id b.order.outlet_id b.phone (visit_of b total)
              redeemed {c = less_points n c} left,
    )

some_inj : {x y : OrderRow} → some x ≡ some y → x ≡ y
some_inj h = cc h

moved : (p n m e : ℕ) → n ≡ m → n ≤ p → p - n + e + m ≡ p + e
moved p n m e same enough = omega (arith, same)

verified_by :
    (n : ℕ) (m : Result (List Otp)) (os : List Otp) {after : List Otp}
    → 0 < n
    → (if ltb 0 n then m else ok os) ≡ ok after
    → m ≡ ok after
verified_by n m os redeems h = ground arith

module _ (upper trim : Text → Text) (get_time : Text → Option ℕ) where
  -- For a customer of the outlet with one row, who is known by the phone of the request or of the bill:
  -- a settlement that succeeds takes no more points than there were, and leaves the one row with those
  -- points less, and with what the total of the settled bill earns more.
  pub settle-points :
      (user : AuthUser) (id : ℕ) (input : SettleInput) (clock : Clock) (seen : Seen) (s : Shop)
      {after : Shop} {order : OrderRow} {c : Customer}
      → settle upper trim get_time user id input clock seen s ≡ ok after
      → find_order id s.db.orders ≡ some order
      → empty (payer trim input order) ≡ false
      → keep (is_customer order.outlet_id (payer trim input order)) s.customers ≡ c ∷ []
      → (outlet : OutletRow) × (row : OrderRow) × (c' : Customer) × (find_outlet order.outlet_id
            seen.outlets
          ≡ some outlet)
        × (find_order id after.db.orders ≡ some row)
        × (points_asked input ≤ c.loyalty_points)
        × (keep (is_customer order.outlet_id (payer trim input order)) after.customers ≡ c' ∷ [])
        × (c'.loyalty_points + points_asked input
            ≡ c.loyalty_points + points_earned row.total outlet)
        × (c'.total_spent ≡ c.total_spent + row.total)
        × (c'.total_orders ≡ c.total_orders + 1)
  unfolding settled_row
  settle-points user id input clock seen s {after} {order} {c} h there known one =
      let all = settle-all upper trim get_time user id input clock seen s {after = after} h in
      let opened = all.opened in
      let b = opened.b in
      let paid = all.paid in
      let total = paid.row.total in
      let done = all.done in
      let locked = (lock_open_order-found user id s.db {o = b.order} opened.locked).0 in
      let own = find_order-id id s.db.orders {o = b.order} locked in
      let same : order ≡ b.order = some_inj (sym there ∙ locked) in
      let by_phone : payer trim input order ≡ b.phone =
        ap (payer trim input) same ∙ sym opened.phone_is in
      let theirs : is_customer order.outlet_id (payer trim input order)
          ≡ is_customer b.order.outlet_id b.phone =
        λ i. is_customer (same i).outlet_id (by_phone i) in
      let (enough, left) =
        seen_of-one b total paid.totalled s {c = c} {redeemed = done.redeemed}
          (ap empty (sym by_phone) ∙ known) (ap (λ p. keep p s.customers) (sym theirs) ∙ one)
          done.taken in
      let asked =
        resolve_discounts-points upper trim get_time clock.text seen b.order input.discounts
          b.outlet.loyalty_point_value b.phone {d = b.discounts} opened.resolved in
      (
        b.outlet,
        settled_of upper trim get_time all,
        visited (visit_of b total) (less_points b.discounts.redeem_points c),
        ap (λ o. find_outlet o.outlet_id seen.outlets) same ∙ opened.known,
        settled_of-find upper trim get_time user id input clock seen s {after = after} all,
        subst (λ n. n ≤ c.loyalty_points) asked enough,
        (λ i. keep (theirs i) (done.result i).customers) ∙ left,
        moved c.loyalty_points b.discounts.redeem_points (points_asked input)
            (points_earned total b.outlet) asked enough,
        refl,
        refl,
      )

  -- A settlement that redeems points and succeeds was given a code, which was the latest of the outlet's
  -- codes for the payer's phone that were not consumed and not expired when they were read; from then on
  -- that code is spent.
  pub settle-code :
      (user : AuthUser) (id : ℕ) (input : SettleInput) (clock : Clock) (seen : Seen) (s : Shop)
      {after : Shop} {order : OrderRow}
      → settle upper trim get_time user id input clock seen s ≡ ok after
      → find_order id s.db.orders ≡ some order
      → 0 < points_asked input
      → (otp : Otp) × (given : Text) × (input.redeem_otp ≡ some given)
        × (latest_otp clock.instant order.outlet_id (payer trim input order) seen.otps ≡ some otp)
        × (is_usable clock.instant order.outlet_id (payer trim input order) otp ≡ true)
        × (otp.code ≡ trim given)
        × All (IsSpent otp.id) after.otps
  settle-code user id input clock seen s {after} {order} h there redeems =
      let all = settle-all upper trim get_time user id input clock seen s {after = after} h in
      let opened = all.opened in
      let b = opened.b in
      let paid = all.paid in
      let done = all.done in
      let locked = (lock_open_order-found user id s.db {o = b.order} opened.locked).0 in
      let same : order ≡ b.order = some_inj (sym there ∙ locked) in
      let by_phone : payer trim input order ≡ b.phone =
        ap (payer trim input) same ∙ sym opened.phone_is in
      let asked =
        resolve_discounts-points upper trim get_time clock.text seen b.order input.discounts
          b.outlet.loyalty_point_value b.phone {d = b.discounts} opened.resolved in
      let (otp, given, is_given, latest, usable, matches, spent) =
        verify_and_consume-spends trim clock.instant b.order.outlet_id b.phone input.redeem_otp
          seen.otps s.otps {after = paid.otps}
          (verified_by b.discounts.redeem_points
            (verify_and_consume trim clock.instant b.order.outlet_id b.phone input.redeem_otp
              seen.otps s.otps)
            s.otps (subst (λ n. 0 < n) (sym asked) redeems) paid.verified) in
      (
        otp,
        given,
        is_given,
        (λ i. latest_otp clock.instant (same i).outlet_id (by_phone i) seen.otps) ∙ latest,
        (λ i. is_usable clock.instant (same i).outlet_id (by_phone i) otp) ∙ usable,
        matches,
        subst (All (IsSpent otp.id)) (sym (ap (λ w. w.otps) done.result)) spent,
      )
