-- ===== src/Subscription/Platform/Laws.antt =====
-- The life of an account, under the events of its lifecycle and the actions of the platform.
use mathlib.Core.Path.{subst}
use stello_kitchens.Prelude.{
  ℕ, ◌≡◌, ◌≢◌, ◌⊎◌, refl, ap, ◌∙◌, inl, inr, Bool, true, false, ◌||◌, List, [], ◌∷◌, ◌++◌, arith,
  All, any, Bool-cases, Option-cases,
}
use stello_kitchens.Subscription.{
  SubscriptionStatus, SubscriptionEvent, Outcome, moved, invalid, next_subscription_status,
  tenant_status_for,
}
use stello_kitchens.Subscription.Platform.{
  lifecycle, trial_extended, plan_changed, EventRow, Account, PlanRow, PlatformAction, extend_trial,
  suspend, reactivate, cancel, change_plan, done, log_event, unpatched, renewed, transition,
  can_extend, find_plan, platform_action,
}

-- A row of the log is a move that the rules allow.
abbrev pub IsAllowed : EventRow → Type 0
IsAllowed r = elim r.type [
  | lifecycle event ↦ next_subscription_status r.from_status event ≡ moved r.to_status
  | trial_extended ↦ (can_extend r.from_status ≡ true) × (r.to_status ≡ SubscriptionStatus.trial)
  | plan_changed ↦ r.from_status ≡ r.to_status
]

pub record IsConsistent (a : Account) : Type 0 where
  pub mirrored : a.tenant_status ≡ tenant_status_for a.status
  pub allowed : All IsAllowed a.events

abbrev pub is_extension : EventRow → Bool
is_extension r = elim r.type [ trial_extended ↦ true | _ ↦ false ]

any-append :
    (xs : List EventRow) (y : EventRow)
    → any is_extension (xs ++ (y ∷ [])) ≡ (any is_extension xs || is_extension y)
any-append [] y = ground arith
any-append (x ∷ xs) y = ground (arith, any-append xs y)

Outcome-cases :
    (o : Outcome)
    → ((t : SubscriptionStatus) × (o ≡ moved t))
      ⊎ ((s : SubscriptionStatus) × (e : SubscriptionEvent) × (o ≡ invalid s e))
Outcome-cases (moved t) = inl (t, refl)
Outcome-cases (invalid s e) = inr (s, e, refl)

-- What a write leaves: its status, the copy, and one row more of the log.
record Written (a b : Account) : Type 0 where
  row : EventRow
  copied :
      (b.tenant_status ≡ tenant_status_for b.status)
      ⊎ ((b.status ≡ a.status) × (b.tenant_status ≡ a.tenant_status))
  logged : b.events ≡ a.events ++ (row ∷ [])
  rule : IsAllowed row
  entered :
      b.status ≡ SubscriptionStatus.trial
      → (a.status ≡ SubscriptionStatus.trial) ⊎ (is_extension row ≡ true)

never_to_trial :
    (s : SubscriptionStatus) (event : SubscriptionEvent)
    → next_subscription_status s event ≢ moved SubscriptionStatus.trial
unfolding next_subscription_status
never_to_trial s event = ground arith

done_inj : {x y : Account} → done x ≡ done y → x ≡ y
done_inj h = cc h

transition-Written :
    (patch : Account → Account) (event : SubscriptionEvent) (a : Account) {b : Account}
    → transition patch event a ≡ done b
    → Written a b
unfolding transition
transition-Written patch event a {b} h =
    elim (Outcome-cases (next_subscription_status a.status event)) [
      | inr (s, e, refused) ↦ absurd (ground arith)
      | inl (to, moves) ↦
          let left : Account = record (patch a) {
            status = to;
            tenant_status = tenant_status_for to;
            events = log_event (lifecycle event) a.status to a.events;
          } in
          let h' : done left ≡ done b = ground arith in
          subst (Written a) (done_inj h') (record {
            row = record { type = lifecycle event; from_status = a.status; to_status = to };
            copied = inl refl;
            logged = refl;
            rule = moves;
            entered = λ e. absurd (never_to_trial a.status event (moves ∙ ap moved e));
          })
    ]

module _ (next_year next_month : ℕ → ℕ) (plans : List PlanRow) where
  platform_action-Written :
      (now : ℕ) (seen : Account) (action : PlatformAction) (a : Account) {b : Account}
      → platform_action next_year next_month plans now seen action a ≡ done b
      → Written a b
  unfolding platform_action
  platform_action-Written now seen (extend_trial days) a {b} h =
      elim (Bool-cases (can_extend seen.status)) [
        | inr other ↦ absurd (cc (simp other at h))
        | inl may ↦ subst (Written a) (done_inj (simp may at h)) (record {
          row = record {
            type = trial_extended;
            from_status = seen.status;
            to_status = SubscriptionStatus.trial;
          };
          copied = inl (unfold tenant_status_for in refl);
          logged = refl;
          rule = (may, refl);
          entered = λ e. inr refl;
        })
      ]
  platform_action-Written now seen suspend a h =
      transition-Written unpatched SubscriptionEvent.admin_suspend a h
  platform_action-Written now seen reactivate a h =
      transition-Written (renewed next_year next_month plans now seen)
        SubscriptionEvent.admin_reactivate a h
  platform_action-Written now seen cancel a h =
      transition-Written unpatched SubscriptionEvent.cancel a h
  platform_action-Written now seen (change_plan code) a {b} h =
      elim (Option-cases (find_plan code plans)) [
        | inl missing ↦ absurd (ground arith)
        | inr (plan, found) ↦
            let left : Account = record a {
              plan_id = plan;
              events = log_event plan_changed seen.status seen.status a.events;
            } in
            let planned : done left ≡ done b = ground arith in
            subst (Written a) (done_inj planned) (record {
              row = record {
                type = plan_changed;
                from_status = seen.status;
                to_status = seen.status;
              };
              copied = inr (refl, refl);
              logged = refl;
              rule = refl;
              entered = λ e. inl e;
            })
      ]

  -- The account after any sequence of events and actions, an action having read any row before.
  pub data Lives (from : Account) : Account → Type 0 where
    here : Lives from from
    event :
        {a b : Account} (patch : Account → Account) (e : SubscriptionEvent)
        → Lives from a
        → transition patch e a ≡ done b
        → Lives from b
    acted :
        {a b : Account} (now : ℕ) (seen : Account) (action : PlatformAction)
        → Lives from a
        → platform_action next_year next_month plans now seen action a ≡ done b
        → Lives from b

  Written-trial :
      {a b : Account} {P : Type 0}
      → Written a b
      → b.status ≡ SubscriptionStatus.trial
      → (a.status ≡ SubscriptionStatus.trial → P ⊎ (any is_extension a.events ≡ true))
      → P ⊎ (any is_extension b.events ≡ true)
  Written-trial {a} {b} w on_trial before =
      let logged = ap (any is_extension) w.logged ∙ any-append a.events w.row in
      elim (w.entered on_trial) [
        | inr extension ↦ inr (ground (arith, logged))
        | inl was ↦ elim (before was) [ inl p ↦ inl p | inr earlier ↦ inr (ground (arith, logged)) ]
      ]

  -- A subscription that is on trial has been so from the start, or the log has an extension of its trial
  -- by the platform: no event of the lifecycle and no other action leads to a trial.
  pub Lives-trial :
      {from to : Account}
      → Lives from to
      → to.status ≡ SubscriptionStatus.trial
      → (from.status ≡ SubscriptionStatus.trial) ⊎ (any is_extension to.events ≡ true)
  Lives-trial here e = inl e
  Lives-trial (event {a = a} {b = b} patch e l moves) on_trial =
      Written-trial {a = a} {b = b} (transition-Written patch e a moves) on_trial (Lives-trial l)
  Lives-trial (acted {a = a} {b = b} now seen action l moves) on_trial =
      Written-trial {a = a} {b = b} (platform_action-Written now seen action a moves) on_trial
        (Lives-trial l)
