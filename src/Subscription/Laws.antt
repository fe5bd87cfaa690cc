-- ===== src/Subscription/Laws.antt =====
-- Who lets a tenant in again, and the limits of a plan.
use stello_kitchens.Prelude.{
  ℕ, ◌+◌, ◌*◌, ◌<◌, ◌≤◌, ◌≡◌, ◌≢◌, ◌↔◌, ◌⊎◌, refl, Bool, true, false, arith, any, if◌then◌else◌,
}
use stello_kitchens.Prelude.Rounding.{round_div_nearest}
use stello_kitchens.Subscription.{
  SubscriptionStatus, SubscriptionEvent, TenantStatus, PlanResource, PlanLimits, moved,
  next_subscription_status, tenant_status_for, limit_blockers, within_limit, saas_invoice_amounts,
}

-- A tenant is let in again, from whatever status, by a payment; and a tenant that is shut out can
-- come back by a payment or by an administrator alone.
pub next_subscription_status-readmits :
    (s : SubscriptionStatus) (event : SubscriptionEvent) (t : SubscriptionStatus)
    → next_subscription_status s event ≡ moved t
    → tenant_status_for s ≡ TenantStatus.suspended
    → tenant_status_for t ≢ TenantStatus.suspended
    → (t ≡ SubscriptionStatus.active)
      × ((event ≡ SubscriptionEvent.payment_succeeded)
          ⊎ (event ≡ SubscriptionEvent.admin_reactivate))
unfolding next_subscription_status tenant_status_for
next_subscription_status-readmits s event t moves out back = ground arith

pub payment-active :
    (s : SubscriptionStatus)
    → next_subscription_status s SubscriptionEvent.payment_succeeded
      ≡ moved SubscriptionStatus.active
unfolding next_subscription_status
payment-active s = ground arith

abbrev pub same : PlanResource → PlanResource → Bool
same PlanResource.outlets PlanResource.outlets = true
same PlanResource.terminals PlanResource.terminals = true
same PlanResource.users PlanResource.users = true
same _ _ = false

-- One more of a resource.
abbrev pub one_more : PlanResource → (PlanResource → ℕ) → PlanResource → ℕ
one_more r usage q = if same q r then usage q + 1 else usage q

-- One more may be added exactly when the addition would not block the plan.
pub within_limit_iff :
    (limits : PlanLimits) (usage : PlanResource → ℕ) (r : PlanResource)
    → (within_limit limits usage r ≡ true)
      ↔ (any (same r) (limit_blockers limits (one_more r usage)) ≡ false)
unfolding within_limit limit_blockers
within_limit_iff limits usage PlanResource.outlets = ground arith
within_limit_iff limits usage PlanResource.terminals = ground arith
within_limit_iff limits usage PlanResource.users = ground arith

-- The invoice's tax is 18% of its subtotal to the nearest paisa, and its total is the two together.
pub saas_invoice_amounts_lem :
    (subtotal : ℕ)
    → let a = saas_invoice_amounts subtotal in
      (a.total ≡ a.subtotal + a.tax_amount)
      × (100 * a.tax_amount ≤ 18 * subtotal + 50)
      × (18 * subtotal < 100 * a.tax_amount + 50)
unfolding saas_invoice_amounts
saas_invoice_amounts_lem subtotal =
    let near = round_div_nearest (subtotal * 1800) 10000 (omega arith) in
    (refl, omega arith, omega arith)
