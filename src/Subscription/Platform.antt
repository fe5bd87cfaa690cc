-- ===== src/Subscription/Platform.antt =====
-- apps/api/src/saas-billing/billing.service.ts: transition, through which every event of the lifecycle
-- goes, and platformAction, with the tenant's copy of the status and the log of events. A time is a number
-- of milliseconds. The subscription's row is there already.
pub mod Laws
mod Tests
use stello_kitchens.Prelude.{
  ℕ, ◌+◌, ◌*◌, ◌==◌, Bool, true, false, not, ◌||◌, List, [], ◌∷◌, ◌++◌, Option, none, some, ltb,
  if◌then◌else◌,
}
use stello_kitchens.Prelude.Texts.{Text, same_text}
use stello_kitchens.Subscription.{
  SubscriptionStatus, SubscriptionEvent, TenantStatus, moved, invalid, next_subscription_status,
  tenant_status_for,
}

pub data BillingCycle : Type 0 where
  monthly yearly : BillingCycle

pub data EventType : Type 0 where
  lifecycle : SubscriptionEvent → EventType
  trial_extended plan_changed : EventType

-- A row of the log of events.
pub record EventRow : Type 0 where
  pub type : EventType
  pub from_status : SubscriptionStatus
  pub to_status : SubscriptionStatus

-- The rows of a tenant: its subscription, its own copy of the status, and the log.
pub record Account : Type 0 where
  pub status : SubscriptionStatus
  pub plan_id : ℕ
  pub billing_cycle : BillingCycle
  pub trial_ends_at : Option ℕ
  pub current_period_start : Option ℕ
  pub current_period_end : Option ℕ
  pub grace_ends_at : Option ℕ
  pub tenant_status : TenantStatus
  pub tenant_trial_ends_at : Option ℕ
  pub events : List EventRow

pub record PlanRow : Type 0 where
  pub id : ℕ
  pub code : Text

pub data PlatformAction : Type 0 where
  extend_trial : ℕ → PlatformAction
  suspend reactivate cancel : PlatformAction
  change_plan : Text → PlatformAction

-- What a request comes to: `InvalidSubscriptionTransition`, `BadRequestException` on an extension,
-- `NotFoundException` on a plan, or the rows that it leaves.
pub data Reply : Type 0 where
  invalid_transition : SubscriptionStatus → SubscriptionEvent → Reply
  not_extendable plan_not_found : Reply
  done : Account → Reply

abbrev pub day : ℕ
day = 86_400_000

abbrev pub log_event :
    EventType → SubscriptionStatus → SubscriptionStatus → List EventRow → List EventRow
log_event type from to events =
    events ++ (record { type = type; from_status = from; to_status = to } ∷ [])

-- `transition`, with the other columns that it patches.
unfoldable pub transition : (Account → Account) → SubscriptionEvent → Account → Reply
transition patch event a = elim (next_subscription_status a.status event) [
  | invalid from e ↦ invalid_transition from e
  | moved to ↦ done (record (patch a) {
    status = to;
    tenant_status = tenant_status_for to;
    events = log_event (lifecycle event) a.status to a.events;
  })
]

abbrev pub unpatched : Account → Account
unpatched a = a

abbrev pub is_after : Option ℕ → ℕ → Bool
is_after none now = false
is_after (some t) now = ltb now t

abbrev pub time_or : Option ℕ → ℕ → ℕ
time_or none now = now
time_or (some t) now = t

abbrev pub can_extend : SubscriptionStatus → Bool
can_extend SubscriptionStatus.trial = true
can_extend SubscriptionStatus.suspended = true
can_extend _ = false

-- The days are added to the trial's end, where that is to come, or else to now.
abbrev pub extended : ℕ → ℕ → Account → ℕ
extended now days seen =
    (if is_after seen.trial_ends_at now then time_or seen.trial_ends_at now else now) + days * day

unfoldable pub find_plan : Text → List PlanRow → Option ℕ
unfolding same_text
find_plan code [] = none
find_plan code (p ∷ ps) =
    let rest = find_plan code ps in if same_text p.code code then some p.id else rest

-- The same date and time a year on and a month on are the platform's: `setUTCFullYear`, `setUTCMonth`.
-- The row `seen` is read without a lock.
module _ (next_year next_month : ℕ → ℕ) (plans : List PlanRow) where
  unfoldable pub add_cycle : ℕ → BillingCycle → ℕ
  add_cycle from yearly = next_year from
  add_cycle from monthly = next_month from

  -- The columns that a reactivation patches.
  unfoldable pub renewed : ℕ → Account → Account → Account
  unfolding add_cycle
  renewed now seen a =
      let running = is_after seen.current_period_end now in
      record a {
        grace_ends_at = none;
        current_period_start = if running then a.current_period_start else some now;
        current_period_end =
            if running then a.current_period_end else some (add_cycle now seen.billing_cycle);
      }

  unfoldable pub platform_action : ℕ → Account → PlatformAction → Account → Reply
  unfolding transition find_plan renewed
  platform_action now seen (extend_trial days) a =
      if not (can_extend seen.status)
      then not_extendable
      else done (record a {
        status = SubscriptionStatus.trial;
        trial_ends_at = some (extended now days seen);
        tenant_status = TenantStatus.trial;
        tenant_trial_ends_at = some (extended now days seen);
        events = log_event trial_extended seen.status SubscriptionStatus.trial a.events;
      })
  platform_action now seen suspend a = transition unpatched SubscriptionEvent.admin_suspend a
  platform_action now seen reactivate a =
      transition (renewed now seen) SubscriptionEvent.admin_reactivate a
  platform_action now seen cancel a = transition unpatched SubscriptionEvent.cancel a
  platform_action now seen (change_plan code) a = elim (find_plan code plans) [
    | none ↦ plan_not_found
    | some plan ↦ done (record a {
      plan_id = plan;
      events = log_event plan_changed seen.status seen.status a.events;
    })
  ]
