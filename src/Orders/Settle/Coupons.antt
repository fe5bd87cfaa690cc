-- ===== src/Orders/Settle/Coupons.antt =====
-- How often a coupon can be used, with its count read before it is raised.
use mathlib.Core.Path.{subst}
use stello_kitchens.Prelude.{
  ℕ, ◌+◌, ◌==◌, ◌≤◌, ◌<◌, ◌≡◌, ap, sym, ◌∙◌, inl, inr, true, not, ◌&&◌, List, [], ◌∷◌, Option, none,
  some, arith, All, Bool-cases, Option-cases, ==_iff,
}
use stello_kitchens.Prelude.Texts.{Text, same_text}
use stello_kitchens.Service.{refuse_ok, ok_inj, Result-cases}
use stello_kitchens.Coupon.{evaluate_coupon}
use stello_kitchens.Coupon.Laws.{UsesLeft, evaluate_coupon-valid_iff}
use stello_kitchens.Orders.Rows.{OrderRow, AuthUser, Error, ok}
use stello_kitchens.Orders.Preview.{
  CouponRow, DiscountInput, Discounts, find_coupon, rule_of, resolve_coupon, resolve_discounts,
}
use stello_kitchens.Orders.Settle.{SettleInput, Shop, Seen, Clock, count_coupon, counted, settle}
use stello_kitchens.Orders.Settle.Steps.{settle-all}

-- A coupon has been used at most k times more than its limit.
abbrev pub WithinBy : ℕ → CouponRow → Type 0
WithinBy k c = elim c.rule.usage_limit [ none ↦ Unit | some limit ↦ c.rule.used_count ≤ limit + k ]

-- Where the row is that of the coupon that was seen, it has the limit that was seen, and at most k uses
-- more.
abbrev pub Behind : ℕ → CouponRow → CouponRow → Type 0
Behind k c was =
    was.id ≡ c.id
    → (c.rule.usage_limit ≡ was.rule.usage_limit) × (c.rule.used_count ≤ was.rule.used_count + k)

find_coupon-All :
    (P : CouponRow → Type 0) (outlet : ℕ) (code : Text) (cs : List CouponRow) {c : CouponRow}
    → All P cs
    → find_coupon outlet code cs ≡ some c
    → P c
unfolding find_coupon
find_coupon-All P outlet code [] h e = absurd (ground arith)
find_coupon-All P outlet code (x ∷ cs) {c} (p, ps) e =
    elim (Bool-cases (x.outlet_id == outlet && same_text x.code code)) [
      | inl here ↦ subst P {x = x} {y = c} (ground arith) p
      | inr there ↦ find_coupon-All P outlet code cs {c = c} ps (ground arith)
    ]

-- A use more, where one was left.
counted-WithinBy :
    (k : ℕ) (c used : CouponRow)
    → c.rule.usage_limit ≡ used.rule.usage_limit
    → c.rule.used_count ≤ used.rule.used_count + k
    → UsesLeft used.rule.usage_limit used.rule.used_count
    → WithinBy k (counted c)
counted-WithinBy k c used same_limit few left = elim (Option-cases used.rule.usage_limit) [
  | inl unlimited ↦ rw (same_limit ∙ unlimited) tt
  | inr (limit, limited) ↦
      let left' : used.rule.used_count < limit = simp limited at left in
      rw (same_limit ∙ limited) (omega arith)
]

count_coupon-WithinBy :
    (k : ℕ) (used : CouponRow) (cs : List CouponRow)
    → All (λ c. Behind k c used) cs
    → UsesLeft used.rule.usage_limit used.rule.used_count
    → All (WithinBy k) cs
    → All (WithinBy k) (count_coupon (some used) cs)
unfolding count_coupon
count_coupon-WithinBy k used [] behind left h = tt
count_coupon-WithinBy k used (c ∷ cs) (lag, lags) left (p, ps) =
    let rest = count_coupon-WithinBy k used cs lags left ps in
    elim (Bool-cases (c.id == used.id)) [
      | inl same ↦
          let (same_limit, few) = lag (sym ((==_iff c.id used.id).0 same)) in
          (rw same (counted-WithinBy k c used same_limit few left), rest)
      | inr other ↦ (rw other p, rest)
    ]

-- The rows as they were seen, one of them used.
Behind-used :
    (k outlet : ℕ) (code : Text) (seen cs : List CouponRow) {used : CouponRow}
    → find_coupon outlet code seen ≡ some used
    → All (λ c. All (Behind k c) seen) cs
    → All (λ c. Behind k c used) cs
Behind-used k outlet code seen [] found h = tt
Behind-used k outlet code seen (c ∷ cs) {used} found (p, ps) = (
  find_coupon-All (Behind k c) outlet code seen {c = used} p found,
  Behind-used k outlet code seen cs {used = used} found ps,
)

module _ (upper : Text → Text) (get_time : Text → Option ℕ) (now : Text)
    (coupons : List CouponRow) where
  resolve_coupon-uses :
      (trim : Text → Text) (outlet subtotal : ℕ) (code : Option Text) {used : CouponRow} {off : ℕ}
      → resolve_coupon upper trim get_time now coupons outlet subtotal code ≡ ok (some used, off)
      → (key : Text) × (find_coupon outlet key coupons ≡ some used)
        × UsesLeft used.rule.usage_limit used.rule.used_count
  unfolding resolve_coupon
  resolve_coupon-uses trim outlet subtotal none h = absurd (cc h)
  resolve_coupon-uses trim outlet subtotal (some []) h = absurd (cc h)
  resolve_coupon-uses trim outlet subtotal (some (c ∷ cs)) {used} {off} h =
      let key = upper (c ∷ cs) in
      let found = find_coupon outlet key coupons in
      let result = evaluate_coupon get_time (rule_of found) subtotal now in
      let (valid, h1) = refuse_ok (not result.valid) Error.coupon_refused h in
      let same : found ≡ some used = ap (λ q. q.0) (sym (ok_inj h1)) in
      let accepted : (evaluate_coupon get_time (some used.rule) subtotal now).valid ≡ true =
        subst (λ r. (evaluate_coupon get_time (rule_of r) subtotal now).valid ≡ true) same
          (ground arith) in
      (key, same, ((evaluate_coupon-valid_iff get_time used.rule subtotal now).0 accepted).3)

  resolve_discounts-coupon :
      (trim : Text → Text) (order : OrderRow) (input : DiscountInput) (value : ℕ) (phone : Text)
      {d : Discounts}
      → resolve_discounts upper trim get_time now coupons order input value phone ≡ ok d
      → (off : ℕ) × (resolve_coupon upper trim get_time now coupons order.outlet_id order.subtotal
            input.coupon_code
          ≡ ok (d.coupon, off))
  unfolding resolve_discounts
  resolve_discounts-coupon trim order input value phone {d} h =
      elim (Result-cases (
        resolve_coupon upper trim get_time now coupons order.outlet_id order.subtotal
          input.coupon_code)) [
            | inl (e, refused) ↦ absurd (ground arith)
            | inr (c, found) ↦ (c.1, ground arith)
          ]

module _ (upper trim : Text → Text) (get_time : Text → Option ℕ) where
  -- Where others have counted each coupon at most k times since the settlement read it, and left its
  -- limit as it was, a settlement that succeeds keeps every coupon within k uses of its limit: within the
  -- limit itself where nobody came in between.
  pub settle-WithinLimit :
      (k : ℕ) (user : AuthUser) (id : ℕ) (input : SettleInput) (clock : Clock) (seen : Seen)
      (s : Shop) {after : Shop}
      → All (λ c. All (Behind k c) seen.coupons) s.coupons
      → All (WithinBy k) s.coupons
      → settle upper trim get_time user id input clock seen s ≡ ok after
      → All (WithinBy k) after.coupons
  unfolding count_coupon
  settle-WithinLimit k user id input clock seen s {after} behind within h =
      let all = settle-all upper trim get_time user id input clock seen s {after = after} h in
      let opened = all.opened in
      let b = opened.b in
      let paid = all.paid in
      let done = all.done in
      let written = sym (ap (λ w. w.coupons) done.result) in
      let (off, used_by) =
        resolve_discounts-coupon upper get_time clock.text seen.coupons trim b.order input.discounts
          b.outlet.loyalty_point_value b.phone {d = b.discounts} opened.resolved in
      subst (All (WithinBy k)) written (elim (Option-cases b.discounts.coupon) [
        | inl unused ↦ subst (λ c. All (WithinBy k) (count_coupon c s.coupons)) (sym unused) within
        | inr (used, is_used) ↦
            let (key, found, left) =
              resolve_coupon-uses upper get_time clock.text seen.coupons trim b.order.outlet_id
                b.order.subtotal input.discounts.coupon_code {used = used} {off = off}
                (used_by ∙ ap (λ c. ok (c, off)) is_used) in
            let behind' =
              Behind-used k b.order.outlet_id key seen.coupons s.coupons {used = used} found
                behind in
            subst (λ c. All (WithinBy k) (count_coupon c s.coupons)) (sym is_used)
              (count_coupon-WithinBy k used s.coupons behind' left within)
      ])
