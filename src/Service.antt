-- ===== src/Service.antt =====
-- What the services of apps/api share: the user of a request, the exceptions, the audit log and the
-- checks that throw.
use stello_kitchens.Prelude.{
  ℕ, Bool, true, false, List, Option, none, some, ◌≡◌, ◌⊎◌, inl, inr, refl, if◌then◌else◌,
}

pub data Action : Type 0 where
  service_charge_removed service_charge_restored order_merged order_merged_into : Action
  order_table_transferred order_items_transferred order_split order_unsplit : Action
  order_cancelled order_split_closed order_settled order_created : Action
  gift_card_issued gift_card_voided : Action

-- An entry of the audit log: the user, what was done, and to which order.
pub record AuditEntry : Type 0 where
  pub user_id : ℕ
  pub action : Action
  pub entity_id : ℕ

pub record AuthUser : Type 0 where
  pub id : ℕ
  pub tenant_id : ℕ
  pub outlet_ids : List ℕ

-- The exceptions, with the reason of a `BadRequestException`.
pub data Error : Type 0 where
  not_found forbidden not_open is_split is_check into_itself different_outlets no_table : Error
  already_there moved_meanwhile not_on_bill is_component selected_twice too_many indivisible : Error
  already_split check_split nothing_to_split unassigned not_split split_changed : Error
  check_settled coupon_refused phone_required : Error
  card_not_found card_void card_expired card_balance code_taken expiry_past : Error
  otp_required otp_missing otp_wrong points_short payments_differ table_required table_taken : Error
  no_account no_points : Error
  item_not_found out_of_stock not_available bad_variation duplicate_addons bad_addon_group : Error
  addon_count bad_addon no_items : Error

-- What a request comes to: the exception that it throws, or its value.
pub data Result {κ} (V : Type κ) : Type κ where
  err : Error → Result V
  ok : V → Result V

infixl 5 ◌>>◌ ◌>>=◌
-- `if (test) throw e`.
abbrev pub refuse_if : Bool → Error → Result (Unit {0})
refuse_if test e = if test then err e else ok tt

abbrev pub ◌>>◌ {μ κ} : {W : Type μ} {V : Type κ} → Result W → Result V → Result V
err e >> next = err e
ok done >> next = next

abbrev pub or_err {κ} : {V : Type κ} → Option V → Error → Result V
or_err found e = elim found [ Option.none ↦ err e | Option.some v ↦ ok v ]

abbrev pub ◌>>=◌ {κ μ} : {V : Type κ} {W : Type μ} → Result V → (V → Result W) → Result W
err e >>= next = err e
ok v >>= next = next v

pub Result-cases {κ} :
    {V : Type κ} (m : Result V) → ((e : Error) × (m ≡ err e)) ⊎ ((v : V) × (m ≡ ok v))
Result-cases (err e) = inl (e, refl)
Result-cases (ok v) = inr (v, refl)

-- A chain that comes to a value: each of its parts does.
pub bind_ok {κ μ} :
    {V : Type κ} {W : Type μ} (m : Result V) {f : V → Result W} {w : W}
    → (m >>= f) ≡ ok w
    → (v : V) × (m ≡ ok v) × (f v ≡ ok w)
bind_ok (err e) h = absurd (cc h)
bind_ok (ok v) h = (v, refl, h)

pub then_ok {κ} :
    {V : Type κ} (m : Result (Unit {0})) {next : Result V} {w : V}
    → (m >> next) ≡ ok w
    → (m ≡ ok tt) × (next ≡ ok w)
then_ok (err e) h = absurd (cc h)
then_ok (ok done) h = (refl, h)

pub refuse_ok {κ} :
    {V : Type κ} (test : Bool) (e : Error) {next : Result V} {w : V}
    → (refuse_if test e >> next) ≡ ok w
    → (test ≡ false) × (next ≡ ok w)
refuse_ok true e h = absurd (cc h)
refuse_ok false e h = (refl, h)

pub found_ok {κ} : {V : Type κ} (o : Option V) (e : Error) {v : V} → or_err o e ≡ ok v → o ≡ some v
found_ok none e h = absurd (cc h)
found_ok (some x) e h = cc h

pub ok_inj {κ} : {V : Type κ} {v w : V} → ok v ≡ ok w → w ≡ v
ok_inj h = cc h

pub after_ok {κ μ} :
    {W : Type κ} {V : Type μ} (m : Result W) {next : Result V} {w : V}
    → (m >> next) ≡ ok w
    → next ≡ ok w
after_ok (err e) h = absurd (cc h)
after_ok (ok done) h = h
