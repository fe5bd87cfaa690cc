-- ===== src/Subscription.antt =====
-- packages/shared/src/growth.ts: the life of a tenant's subscription, the limits of its plan, and the
-- amounts of its invoices (in paise).
pub mod Laws
pub mod Platform
mod Tests
use stello_kitchens.Prelude.{
  ℕ, ◌+◌, ◌*◌, Bool, true, false, not, ◌&&◌, List, [], ◌∷◌, Option, none, some, ltb, if◌then◌else◌,
  keep,
}
use stello_kitchens.Prelude.Rounding.{round_div}

pub data SubscriptionStatus : Type 0 where
  trial active past_due suspended cancelled : SubscriptionStatus

pub data SubscriptionEvent : Type 0 where
  payment_succeeded payment_failed trial_expired grace_expired : SubscriptionEvent
  cancel period_ended admin_suspend admin_reactivate : SubscriptionEvent

-- The table of the allowed moves, a row for each status.
unfoldable pub transitions : SubscriptionStatus → SubscriptionEvent → Option SubscriptionStatus
transitions trial payment_succeeded = some active
transitions trial trial_expired = some suspended
transitions trial cancel = some cancelled
transitions trial admin_suspend = some suspended
transitions trial admin_reactivate = some active
transitions trial _ = none
transitions active payment_succeeded = some active
transitions active payment_failed = some past_due
transitions active cancel = some active
transitions active period_ended = some cancelled
transitions active admin_suspend = some suspended
transitions active _ = none
transitions past_due payment_succeeded = some active
transitions past_due payment_failed = some past_due
transitions past_due grace_expired = some suspended
transitions past_due cancel = some cancelled
transitions past_due admin_suspend = some suspended
transitions past_due admin_reactivate = some active
transitions past_due _ = none
transitions suspended payment_succeeded = some active
transitions suspended cancel = some cancelled
transitions suspended admin_reactivate = some active
transitions suspended _ = none
transitions cancelled payment_succeeded = some active
transitions cancelled admin_reactivate = some active
transitions cancelled _ = none

unfoldable pub can_transition : SubscriptionStatus → SubscriptionEvent → Bool
unfolding transitions
can_transition from event = elim (transitions from event) [ none ↦ false | some _ ↦ true ]

-- `InvalidSubscriptionTransition`, with the status and the event.
pub data Outcome : Type 0 where
  moved : SubscriptionStatus → Outcome
  invalid : SubscriptionStatus → SubscriptionEvent → Outcome

unfoldable pub next_subscription_status : SubscriptionStatus → SubscriptionEvent → Outcome
unfolding transitions
next_subscription_status from event = elim (transitions from event) [
  | none ↦ invalid from event
  | some to ↦ moved to
]

pub data TenantStatus : Type 0 where
  trial active suspended : TenantStatus

unfoldable pub tenant_status_for : SubscriptionStatus → TenantStatus
tenant_status_for SubscriptionStatus.trial = TenantStatus.trial
tenant_status_for SubscriptionStatus.active = TenantStatus.active
tenant_status_for SubscriptionStatus.past_due = TenantStatus.active
tenant_status_for SubscriptionStatus.suspended = TenantStatus.suspended
tenant_status_for SubscriptionStatus.cancelled = TenantStatus.suspended

pub data PlanResource : Type 0 where
  outlets terminals users : PlanResource

-- `none` is unlimited.
abbrev pub PlanLimits : Type 0
PlanLimits = PlanResource → Option ℕ

abbrev pub exceeds : Option ℕ → ℕ → Bool
exceeds none used = false
exceeds (some limit) used = ltb limit used

unfoldable pub limit_blockers : PlanLimits → (PlanResource → ℕ) → List PlanResource
limit_blockers limits usage =
    keep (λ r. exceeds (limits r) (usage r)) (outlets ∷ terminals ∷ users ∷ [])

abbrev pub room_under : Option ℕ → ℕ → Bool
room_under none used = true
room_under (some limit) used = ltb used limit

unfoldable pub within_limit : PlanLimits → (PlanResource → ℕ) → PlanResource → Bool
within_limit limits usage r = room_under (limits r) (usage r)

-- GST in basis points.
abbrev pub saas_gst_bps : ℕ
saas_gst_bps = 1800

pub record InvoiceAmounts : Type 0 where
  pub subtotal : ℕ
  pub tax_amount : ℕ
  pub total : ℕ

unfoldable pub saas_invoice_amounts : ℕ → InvoiceAmounts
saas_invoice_amounts subtotal =
    let tax = round_div (subtotal * saas_gst_bps) 10000 in
    record { subtotal = subtotal; tax_amount = tax; total = subtotal + tax }
