-- ===== src/Loyalty.antt =====
-- apps/api/src/loyalty/loyalty-otp.service.ts, and the customers of apps/api/prisma/schema.prisma with
-- their points, as a settlement reads and writes them. A time is a number of milliseconds.
pub mod Laws
use stello_kitchens.Prelude.{
  ℕ, ◌+◌, ◌-◌, ◌==◌, Bool, true, false, not, ◌&&◌, List, [], ◌∷◌, ◌++◌, map, Option, none, some,
  ltb, leb, if◌then◌else◌, any,
}
use stello_kitchens.Prelude.Texts.{Text, same_text}
use stello_kitchens.Prelude.Int.{ℤ}
use stello_kitchens.Service.{AuthUser, Error, Result, ok, err, ◌>>=◌, ◌>>◌, refuse_if, or_err}

pub record Otp : Type 0 where
  pub id : ℕ
  pub outlet_id : ℕ
  pub phone : Text
  pub code : Text
  pub expires_at : ℕ
  pub consumed_at : Option ℕ
  pub created_at : ℕ

pub record Customer : Type 0 where
  pub id : ℕ
  pub outlet_id : ℕ
  pub phone : Text
  pub name : Option Text
  pub loyalty_points : ℕ
  pub total_orders : ℕ
  pub total_spent : ℕ

pub data LoyaltyType : Type 0 where
  earn redeem : LoyaltyType

pub record LoyaltyTxn : Type 0 where
  pub customer_id : ℕ
  pub type : LoyaltyType
  pub points : ℤ
  pub order_id : ℕ

abbrev pub is_none {ℓ} : {A : Type ℓ} → Option A → Bool
is_none none = true
is_none (some _) = false

-- `{ outletId, phone, consumedAt: null, expiresAt: { gt: now } }`.
abbrev pub is_usable : ℕ → ℕ → Text → Otp → Bool
is_usable now outlet phone o =
    o.outlet_id == outlet
    && same_text o.phone phone
    && is_none o.consumed_at
    && ltb now o.expires_at

abbrev pub newer : Otp → Option Otp → Otp
newer o none = o
newer o (some p) = if ltb o.created_at p.created_at then p else o

-- The last that was created of those that can be used.
unfoldable pub latest_otp : ℕ → ℕ → Text → List Otp → Option Otp
latest_otp now outlet phone [] = none
latest_otp now outlet phone (o ∷ os) =
    let rest = latest_otp now outlet phone os in
    if is_usable now outlet phone o then some (newer o rest) else rest

abbrev pub consumed : ℕ → Otp → Otp
consumed now o = record o { consumed_at = some now }

unfoldable pub consume_otp : ℕ → ℕ → List Otp → List Otp
consume_otp now id = map (λ o. if o.id == id then consumed now o else o)

-- `code` as a condition: a code that is missing or empty is none.
abbrev pub given_code : Option Text → Option Text
given_code none = none
given_code (some []) = none
given_code (some (c ∷ cs)) = some (c ∷ cs)

-- `verifyAndConsume`; `trim` is the platform's. The code is looked up among the rows `seen`, which are
-- read without a lock, and consumed in the table, which must still have it.
unfoldable pub verify_and_consume :
    (Text → Text) → ℕ → ℕ → Text → Option Text → List Otp → List Otp → Result (List Otp)
unfolding latest_otp consume_otp
verify_and_consume trim now outlet phone code seen otps = do
  given ← or_err (given_code code) Error.otp_required
  otp ← or_err (latest_otp now outlet phone seen) Error.otp_missing
  refuse_if (not (same_text otp.code (trim given))) Error.otp_wrong
  refuse_if (not (any (λ o. o.id == otp.id) otps)) Error.not_found
  ok (consume_otp now otp.id otps)

abbrev pub is_customer : ℕ → Text → Customer → Bool
is_customer outlet phone c = c.outlet_id == outlet && same_text c.phone phone

unfoldable pub find_customer : ℕ → Text → List Customer → Option Customer
find_customer outlet phone [] = none
find_customer outlet phone (c ∷ cs) =
    let rest = find_customer outlet phone cs in if is_customer outlet phone c then some c else rest

abbrev pub has_points : ℕ → Text → ℕ → Customer → Bool
has_points outlet phone n c = is_customer outlet phone c && leb n c.loyalty_points

abbrev pub less_points : ℕ → Customer → Customer
less_points n c = record c { loyalty_points = c.loyalty_points - n }

-- The conditional decrement: it writes only where there are enough points, and it must write.
unfoldable pub redeem_points : ℕ → Text → ℕ → List Customer → Result (List Customer)
redeem_points outlet phone n cs = do
  refuse_if (not (any (has_points outlet phone n) cs)) Error.points_short
  ok (map (λ c. if has_points outlet phone n c then less_points n c else c) cs)

-- What a settled bill adds to its customer.
pub record Visit : Type 0 where
  pub name : Option Text
  pub earned : ℕ
  pub spent : ℕ

abbrev pub visited : Visit → Customer → Customer
visited v c = record c {
  name = elim v.name [ none ↦ c.name | some n ↦ some n ];
  loyalty_points = c.loyalty_points + v.earned;
  total_orders = c.total_orders + 1;
  total_spent = c.total_spent + v.spent;
}

abbrev pub first_visit : ℕ → ℕ → Text → Visit → Customer
first_visit id outlet phone v = record {
  id = id;
  outlet_id = outlet;
  phone = phone;
  name = v.name;
  loyalty_points = v.earned;
  total_orders = 1;
  total_spent = v.spent;
}

-- `customer.upsert` on the outlet and the phone, of which there is one row at most.
unfoldable pub upsert_customer : ℕ → ℕ → Text → Visit → List Customer → List Customer
upsert_customer id outlet phone v [] = first_visit id outlet phone v ∷ []
upsert_customer id outlet phone v (c ∷ cs) =
    let rest = upsert_customer id outlet phone v cs in
    if is_customer outlet phone c then visited v c ∷ cs else c ∷ rest

-- `OTP_TTL_MS`.
abbrev pub otp_lifetime : ℕ
otp_lifetime = 300_000

-- `requestOtp`, up to the message that tells the customer the code, which is random.
unfoldable pub request_otp :
    AuthUser → ℕ → Text → ℕ → ℕ → Text → List Customer → List Otp → Result (List Otp)
unfolding find_customer
request_otp user outlet phone now id code customers otps = do
  refuse_if (not (any (λ o. o == outlet) user.outlet_ids)) Error.forbidden
  customer ← or_err (find_customer outlet phone customers) Error.no_account
  refuse_if (leb customer.loyalty_points 0) Error.no_points
  let otp : Otp = record {
    id = id;
    outlet_id = outlet;
    phone = phone;
    code = code;
    expires_at = now + otp_lifetime;
    consumed_at = none;
    created_at = now;
  }
  ok (otps ++ (otp ∷ []))
