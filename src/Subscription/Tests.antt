-- ===== src/Subscription/Tests.antt =====
-- Subscriptions at a run.
use stello_kitchens.Prelude.{ℕ, ◌≡◌, ◌⊎◌, refl, some, arith}
use stello_kitchens.Subscription.{
  SubscriptionStatus, SubscriptionEvent, TenantStatus, PlanResource, PlanLimits, moved, transitions,
  next_subscription_status, tenant_status_for,
}
use stello_kitchens.Subscription.Laws.{next_subscription_status-readmits}

payment_moves :
    next_subscription_status SubscriptionStatus.suspended SubscriptionEvent.payment_succeeded
    ≡ moved SubscriptionStatus.active
unfolding next_subscription_status transitions
payment_moves = refl

shut_out : tenant_status_for SubscriptionStatus.suspended ≡ TenantStatus.suspended
unfolding tenant_status_for
shut_out = refl

next_subscription_status-readmits_example :
    (SubscriptionStatus.active ≡ SubscriptionStatus.active)
    × ((SubscriptionEvent.payment_succeeded ≡ SubscriptionEvent.payment_succeeded)
        ⊎ (SubscriptionEvent.payment_succeeded ≡ SubscriptionEvent.admin_reactivate))
next_subscription_status-readmits_example =
    next_subscription_status-readmits SubscriptionStatus.suspended
      SubscriptionEvent.payment_succeeded SubscriptionStatus.active payment_moves shut_out
      (unfold tenant_status_for in (ground arith))

-- Two terminals at most.
abbrev limits : PlanLimits
limits PlanResource.terminals = some 2
limits _ = some 9

abbrev usage : PlanResource → ℕ
usage r = 2
