-- ===== src/Subscription/Platform/Tests.antt =====
-- A subscription that is active, is suspended, and is put on trial for ten days.
use stello_kitchens.Prelude.{ℕ, ◌+◌, ◌*◌, ◌≡◌, ◌⊎◌, refl, true, [], none, some, any}
use stello_kitchens.Subscription.{
  SubscriptionStatus, SubscriptionEvent, TenantStatus, next_subscription_status, transitions,
  tenant_status_for,
}
use stello_kitchens.Subscription.Platform.{
  BillingCycle, Account, PlatformAction, Reply, done, unpatched, transition, platform_action,
}
use stello_kitchens.Subscription.Platform.Laws.{
  is_extension, Lives, here, event, acted, Lives-trial,
}

-- Calendars of thirty days and of 365.
abbrev thirty_days : ℕ → ℕ
thirty_days t = t + 30 * 86_400_000

abbrev year_on : ℕ → ℕ
year_on t = t + 365 * 86_400_000

abbrev at_first : Account
at_first = record {
  status = SubscriptionStatus.active;
  plan_id = 1;
  billing_cycle = BillingCycle.monthly;
  trial_ends_at = some 1_000;
  current_period_start = none;
  current_period_end = none;
  grace_ends_at = none;
  tenant_status = TenantStatus.active;
  tenant_trial_ends_at = some 1_000;
  events = [];
}

abbrev account_of : Reply → Account
account_of (done a) = a
account_of _ = at_first

abbrev shut_out : Account
shut_out = account_of (transition unpatched SubscriptionEvent.admin_suspend at_first)

abbrev extended_again : Account
extended_again = account_of (
    platform_action year_on thirty_days [] 2_000 shut_out (PlatformAction.extend_trial 10) shut_out)

shuts_out : transition unpatched SubscriptionEvent.admin_suspend at_first ≡ done shut_out
unfolding transition next_subscription_status transitions tenant_status_for
shuts_out = refl

extends :
    platform_action year_on thirty_days [] 2_000 shut_out (PlatformAction.extend_trial 10) shut_out
    ≡ done extended_again
unfolding platform_action transition next_subscription_status transitions
extends = refl

life : Lives year_on thirty_days [] at_first extended_again
life =
    acted 2_000 shut_out (PlatformAction.extend_trial 10)
      (event unpatched SubscriptionEvent.admin_suspend here shuts_out) extends

now_on_trial : extended_again.status ≡ SubscriptionStatus.trial
unfolding platform_action transition next_subscription_status transitions
now_on_trial = refl

Lives-trial_example :
    (at_first.status ≡ SubscriptionStatus.trial) ⊎ (any is_extension extended_again.events ≡ true)
Lives-trial_example = Lives-trial year_on thirty_days [] life now_on_trial
