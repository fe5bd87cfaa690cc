-- ===== src/Loyalty/Laws.antt =====
-- A code is good for one redemption, and a customer's points are what the redemption and the visit leave.
use mathlib.Core.Path.{subst}
use stello_kitchens.Prelude.{
  ℕ, ◌==◌, ◌≤◌, ◌≡◌, refl, ap, sym, ◌∙◌, inl, inr, Bool, true, false, not, List, [], ◌∷◌, map,
  Option, none, some, arith, All, if◌then◌else◌, Bool-cases, ==_iff, ltb, any, keep,
}
use stello_kitchens.Prelude.Texts.{Text, same_text, same_text-eq}
use stello_kitchens.Service.{Error, ok, or_err, bind_ok, refuse_ok, found_ok, ok_inj}
use stello_kitchens.Loyalty.{
  Otp, Customer, Visit, is_usable, newer, latest_otp, consume_otp, given_code, verify_and_consume,
  is_customer, has_points, less_points, redeem_points, visited, upsert_customer,
}

newer-usable :
    (now outlet : ℕ) (phone : Text) (o : Otp) (rest : Option Otp)
    → is_usable now outlet phone o ≡ true
    → ((p : Otp) → rest ≡ some p → is_usable now outlet phone p ≡ true)
    → is_usable now outlet phone (newer o rest) ≡ true
newer-usable now outlet phone o none h k = h
newer-usable now outlet phone o (some p) h k = elim (Bool-cases (ltb o.created_at p.created_at)) [
  | inl later ↦ rw later (k p refl)
  | inr older ↦ rw older h
]

-- The code that is looked up can be used.
pub latest_otp-usable :
    (now outlet : ℕ) (phone : Text) (os : List Otp) {otp : Otp}
    → latest_otp now outlet phone os ≡ some otp
    → is_usable now outlet phone otp ≡ true
unfolding latest_otp
latest_otp-usable now outlet phone [] h = absurd (cc h)
latest_otp-usable now outlet phone (o ∷ os) {otp} h =
    elim (Bool-cases (is_usable now outlet phone o)) [
      | inl usable ↦
          subst (λ x. is_usable now outlet phone x ≡ true)
            {x = newer o (latest_otp now outlet phone os)} {y = otp} (ground arith)
            (newer-usable now outlet phone o (latest_otp now outlet phone os) usable
              (λ p e. latest_otp-usable now outlet phone os {otp = p} e))
      | inr not_usable ↦ latest_otp-usable now outlet phone os {otp = otp} (simp not_usable at h)
    ]

-- No entry of this id can be used, at any time, for any phone.
abbrev pub IsSpent : ℕ → Otp → Type 0
IsSpent id o = o.id ≡ id → (t outlet : ℕ) (phone : Text) → is_usable t outlet phone o ≡ false

consume_otp-IsSpent : (now id : ℕ) (os : List Otp) → All (IsSpent id) (consume_otp now id os)
unfolding consume_otp
consume_otp-IsSpent now id [] = tt
consume_otp-IsSpent now id (o ∷ os) = (
  λ e t outlet phone. elim (Bool-cases (o.id == id)) [
    | inl same ↦ ground arith
    | inr other ↦ absurd (ground (arith, ==_iff o.id id))
  ],
  consume_otp-IsSpent now id os,
)

given_code-given :
    (code : Option Text) {given : Text} → given_code code ≡ some given → code ≡ some given
given_code-given none h = absurd (cc h)
given_code-given (some []) h = absurd (cc h)
given_code-given (some (c ∷ cs)) h = h

-- A code that is accepted is the given one, and among the rows that were read it was not consumed and
-- not expired; from then on it is spent.
pub verify_and_consume-spends :
    (trim : Text → Text) (now outlet : ℕ) (phone : Text) (code : Option Text) (seen os : List Otp)
    {after : List Otp}
    → verify_and_consume trim now outlet phone code seen os ≡ ok after
    → (otp : Otp) × (given : Text) × (code ≡ some given)
      × (latest_otp now outlet phone seen ≡ some otp)
      × (is_usable now outlet phone otp ≡ true)
      × (otp.code ≡ trim given)
      × All (IsSpent otp.id) after
unfolding verify_and_consume
verify_and_consume-spends trim now outlet phone code seen os {after} h =
    let (given, is_given, h1) = bind_ok (or_err (given_code code) Error.otp_required) h in
    let (otp, found, h2) =
      bind_ok (or_err (latest_otp now outlet phone seen) Error.otp_missing) h1 in
    let (same, h3) = refuse_ok (not (same_text otp.code (trim given))) Error.otp_wrong h2 in
    let (kept, h4) = refuse_ok (not (any (λ o. o.id == otp.id) os)) Error.not_found h3 in
    let there = found_ok (latest_otp now outlet phone seen) Error.otp_missing found in
    (
      otp,
      given,
      given_code-given code (found_ok (given_code code) Error.otp_required is_given),
      there,
      latest_otp-usable now outlet phone seen {otp = otp} there,
      same_text-eq otp.code (trim given) (ground arith),
      subst (All (IsSpent otp.id)) (sym (ok_inj h4)) (consume_otp-IsSpent now otp.id os),
    )

-- The conditional decrement of one row.
abbrev pub redeemed_by : ℕ → Text → ℕ → Customer → Customer
redeemed_by outlet phone n c = if has_points outlet phone n c then less_points n c else c

redeemed_by-same :
    (outlet : ℕ) (phone : Text) (n : ℕ) (c : Customer)
    → is_customer outlet phone (redeemed_by outlet phone n c) ≡ is_customer outlet phone c
redeemed_by-same outlet phone n c = elim (Bool-cases (has_points outlet phone n c)) [
  | inl enough ↦ rw enough refl
  | inr short ↦ rw short refl
]

no_points :
    (outlet : ℕ) (phone : Text) (n : ℕ) (cs : List Customer)
    → keep (is_customer outlet phone) cs ≡ []
    → (any (has_points outlet phone n) cs ≡ false)
      × (keep (is_customer outlet phone) (map (redeemed_by outlet phone n) cs) ≡ [])
no_points outlet phone n [] h = (refl, refl)
no_points outlet phone n (c ∷ cs) h = elim (Bool-cases (is_customer outlet phone c)) [
  | inl here ↦ absurd (cc (simp here at h))
  | inr other ↦
      let (a, b) = no_points outlet phone n cs (simp other at h) in
      let same = redeemed_by-same outlet phone n c in (simp (other, a), simp (same, other, b))
]

keep_here :
    (p : Customer → Bool) (x : Customer) (xs : List Customer)
    → p x ≡ true
    → keep p xs ≡ []
    → keep p (x ∷ xs) ≡ x ∷ []
keep_here p x xs h none_left = simp (h, none_left)

-- The one row of a customer, behind a redemption: there were enough points, and they are taken.
pub redeem_points-one :
    (outlet : ℕ) (phone : Text) (n : ℕ) (cs : List Customer) {c : Customer} {after : List Customer}
    → keep (is_customer outlet phone) cs ≡ c ∷ []
    → redeem_points outlet phone n cs ≡ ok after
    → (n ≤ c.loyalty_points) × (keep (is_customer outlet phone) after ≡ less_points n c ∷ [])
unfolding redeem_points
redeem_points-one outlet phone n cs {c} {after} one h =
    let (enough, h1) = refuse_ok (not (any (has_points outlet phone n) cs)) Error.points_short h in
    let (a, b) = go cs {c = c} one (ground arith) in
    (a, subst (λ xs. keep (is_customer outlet phone) xs ≡ less_points n c ∷ []) (sym (ok_inj h1)) b)
  where
    taken :
        (x : Customer)
        → has_points outlet phone n x ≡ true
        → redeemed_by outlet phone n x ≡ less_points n x
    taken x there = rw there refl

    go :
        (cs : List Customer) {c : Customer}
        → keep (is_customer outlet phone) cs ≡ c ∷ []
        → any (has_points outlet phone n) cs ≡ true
        → (n ≤ c.loyalty_points)
          × (keep (is_customer outlet phone) (map (redeemed_by outlet phone n) cs)
              ≡ less_points n c ∷ [])
    go [] one enough = absurd (cc one)
    go (x ∷ cs) {c} one enough = elim (Bool-cases (is_customer outlet phone x)) [
      | inl here ↦
          let one' : x ∷ keep (is_customer outlet phone) cs ≡ c ∷ [] = simp here at one in
          let same : x ≡ c = cc one' in
          let (a, b) = no_points outlet phone n cs (cc one') in
          let there : has_points outlet phone n x ≡ true = ground (arith, a) in
          let kept : is_customer outlet phone (redeemed_by outlet phone n x) ≡ true =
            redeemed_by-same outlet phone n x ∙ here in
          (
            subst (λ y. n ≤ y.loyalty_points) same (ground arith),
            keep_here (is_customer outlet phone) (redeemed_by outlet phone n x)
                  (map (redeemed_by outlet phone n) cs) kept b
                ∙ ap (λ y. y ∷ []) (taken x there ∙ ap (less_points n) same),
          )
      | inr other ↦
          let same = redeemed_by-same outlet phone n x in
          let (a, b) = go cs {c = c} (simp other at one) (simp other at enough) in
          (a, simp (same, other, b))
    ]

-- The one row of a customer, behind a visit.
pub upsert_customer-one :
    (id outlet : ℕ) (phone : Text) (v : Visit) (cs : List Customer) {c : Customer}
    → keep (is_customer outlet phone) cs ≡ c ∷ []
    → keep (is_customer outlet phone) (upsert_customer id outlet phone v cs) ≡ visited v c ∷ []
unfolding upsert_customer
upsert_customer-one id outlet phone v [] one = absurd (cc one)
upsert_customer-one id outlet phone v (x ∷ cs) {c} one =
    elim (Bool-cases (is_customer outlet phone x)) [
      | inl here ↦
          let one' : x ∷ keep (is_customer outlet phone) cs ≡ c ∷ [] = simp here at one in
          let same : x ≡ c = cc one' in
          let none_left : keep (is_customer outlet phone) cs ≡ [] = cc one' in
          let kept : is_customer outlet phone (visited v x) ≡ true = here in
          let first : upsert_customer id outlet phone v (x ∷ cs) ≡ visited v x ∷ cs =
            rw here refl in
          ap (keep (is_customer outlet phone)) first
          ∙ keep_here (is_customer outlet phone) (visited v x) cs kept none_left
          ∙ ap (λ y. visited v y ∷ []) same
      | inr other ↦
          let rest = upsert_customer-one id outlet phone v cs {c = c} (simp other at one) in
          simp (other, rest)
    ]
