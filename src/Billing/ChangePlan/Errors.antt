-- ===== src/Billing/ChangePlan/Errors.antt =====
-- What a call of Stripe that fails leaves of a change of plan.
use traceroot.Billing.Subscription.{Item}
use traceroot.Prelude.{
  if◌then◌else◌, Bool-cases, non_empty, Option-cases, String, none, any, refl, ◌≡◌, Option, inl,
  some, inr, true, ℕ,
}
use traceroot.Billing.ChangePlan.{
  change_paid, plan_item, change_workspace, step_if_some, PlanRow, reply, step, cancel_plan,
  Changed, downgrade_plan, ChangeEnv, StripeCall, upgrade_plan, retrieve, release_schedule,
  set_cancel_at_period_end, create_schedule,
}
use traceroot.Billing.Plans.{free, is_upgrade, plan_eq, PlanType}

module _ (env : ChangeEnv) (row : PlanRow) where
  -- the answer and the row of a run that makes a call which fails
  abbrev FailsSafe : Changed → Type 0
  FailsSafe run = any env.fails run.calls ≡ true → (run.status ≡ 500) × (run.row ≡ row)

  reply-FailsSafe : (status : ℕ) (new : PlanRow) → FailsSafe (reply status new)
  reply-FailsSafe status new h = cc

  step-FailsSafe :
      (call : StripeCall) (rest : Changed) → FailsSafe rest → FailsSafe (step env call row rest)
  step-FailsSafe call rest h = elim (Bool-cases (env.fails call)) [
    | inl e ↦ rw e (λ _. (refl, refl))
    | inr e ↦ rw e (rw e h)
  ]

  step_if_some-FailsSafe :
      (id : Option String) (call : String → StripeCall) (rest : Changed)
      → FailsSafe rest
      → FailsSafe (step_if_some env id call row rest)
  step_if_some-FailsSafe none call rest h = h
  step_if_some-FailsSafe (some id) call rest h = step-FailsSafe (call id) rest h

  cancel_plan-FailsSafe : FailsSafe (cancel_plan env row)
  unfolding cancel_plan
  cancel_plan-FailsSafe = elim (Option-cases (non_empty row.subscription_id)) [
    | inl e ↦ rw (cancel_plan, e) (reply-FailsSafe 200 row)
    | inr (id, e) ↦
        rw (cancel_plan, e)
          (step-FailsSafe (retrieve id) _ (
            step_if_some-FailsSafe (non_empty (env.subscription_of id).schedule) release_schedule _
              (step-FailsSafe (set_cancel_at_period_end id true) _ (reply-FailsSafe 200 row))))
  ]

  upgrade_plan-FailsSafe :
      (plan : PlanType) (id : String) (item : Item) → FailsSafe (upgrade_plan env plan row id item)
  unfolding upgrade_plan
  upgrade_plan-FailsSafe plan id item =
      step_if_some-FailsSafe (non_empty (env.subscription_of id).schedule) release_schedule _
        (step-FailsSafe _ _ (reply-FailsSafe 200 _))

  downgrade_plan-FailsSafe :
      (plan : PlanType) (id : String) (item : Item)
      → FailsSafe (downgrade_plan env plan row id item)
  unfolding downgrade_plan
  downgrade_plan-FailsSafe plan id item =
      step_if_some-FailsSafe (non_empty (env.subscription_of id).schedule) release_schedule _
        (step-FailsSafe (create_schedule id) _ (step-FailsSafe _ _ (reply-FailsSafe 200 row)))

  change_paid-FailsSafe : (plan : PlanType) (id : String) → FailsSafe (change_paid env plan row id)
  unfolding change_paid
  change_paid-FailsSafe plan id =
      elim (Option-cases (plan_item env (env.subscription_of id).items)) [
        | inl e ↦ rw (change_paid, e) (reply-FailsSafe 500 row)
        | inr (item, e) ↦ rw (change_paid, e) (step_if_some-FailsSafe _ _ _ (by_order item))
      ]
    where
      by_order :
          (item : Item)
          → FailsSafe (
              if is_upgrade row.billing_plan plan
              then upgrade_plan env plan row id item
              else downgrade_plan env plan row id item)
      by_order item = elim (Bool-cases (is_upgrade row.billing_plan plan)) [
        | inl e ↦ rw e (upgrade_plan-FailsSafe plan id item)
        | inr e ↦ rw e (downgrade_plan-FailsSafe plan id item)
      ]

  -- If a call of Stripe fails, at whatever point of a change of plan, the reply is 500 and the
  -- workspace keeps its plan, price and status.
  pub failed_change :
      (plan : PlanType)
      → any env.fails (change_workspace env plan row).calls ≡ true
      → ((change_workspace env plan row).status ≡ 500) × ((change_workspace env plan row).row ≡ row)
  unfolding change_workspace
  failed_change plan = elim (Bool-cases (plan_eq row.billing_plan plan)) [
    | inl e ↦ rw (change_workspace, e) (reply-FailsSafe 200 row)
    | inr e ↦ elim (Bool-cases (plan_eq plan free)) [
      | inl f ↦ rw (change_workspace, e, f) cancel_plan-FailsSafe
      | inr f ↦ elim (Option-cases (non_empty row.subscription_id)) [
        | inl g ↦ rw (change_workspace, e, f, g) (reply-FailsSafe 400 row)
        | inr (id, g) ↦
            rw (change_workspace, e, f, g)
              (step-FailsSafe (retrieve id) _ (change_paid-FailsSafe plan id))
      ]
    ]
  ]
