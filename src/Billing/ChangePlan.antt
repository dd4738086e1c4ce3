-- ===== src/Billing/ChangePlan.antt =====
-- The change of plan of frontend/ui/src/app/api/billing/change-plan/route.ts. A call of Stripe is
-- recorded when it is made and fails or not by the argument `fails`; Stripe's answers are fields of
-- `ChangeEnv`. The key of Stripe is taken to be set.
use traceroot.Access.Authority.{admin_workspace}
pub mod Meters
pub mod Errors
pub mod Tests
use traceroot.Prelude.{
  not, none, non_empty, Bool, any, [], Option, true, false, find, str_eq, get_or, some, String,
  if◌then◌else◌, List, ◌∷◌, ℕ,
}
use traceroot.Billing.Subscription.{Item}
use traceroot.Billing.Plans.{free, PlanType, PriceIds, billing_price_id, is_upgrade, plan_eq}

-- a line of a phase of a subscription schedule
pub record PhaseItem : Type 0 where
  pub price : String
  pub quantity : Option ℕ

pub data StripeCall : Type 0 where
  retrieve : String → StripeCall
  release_schedule : String → StripeCall
  set_cancel_at_period_end : String → Bool → StripeCall
  update_item : String → String → String → ℕ → StripeCall
  create_schedule : String → StripeCall
  update_phases : String → List (List PhaseItem) → StripeCall

pub record StripeState : Type 0 where
  pub items : List Item
  pub schedule : Option String
  pub cancel_at_period_end : Bool

-- The columns that the handler reads and writes.
pub record PlanRow : Type 0 where
  pub billing_plan : PlanType
  pub subscription_id : Option String
  pub price_id : Option String
  pub status : Option String

pub record ChangeEnv : Type 0 where
  pub price_ids : PriceIds
  pub metered_prices : List (Option String)  -- of the environment
  pub fails : StripeCall → Bool
  pub subscription_of : String → StripeState
  pub updated_status : String  -- of the subscription that an update answers with
  pub schedule_id : String  -- of the schedule that is created

-- The calls that were made, the row behind them and the status of the reply.
pub record Changed : Type 0 where
  pub calls : List StripeCall
  pub row : PlanRow
  pub status : ℕ

abbrev pub reply : ℕ → PlanRow → Changed
reply status row = record { calls = []; row = row; status = status }

-- A call, and the rest of the handler where it does not throw; the outer `catch` answers 500.
abbrev pub step : ChangeEnv → StripeCall → PlanRow → Changed → Changed
step env call row rest =
    if env.fails call
    then record { calls = call ∷ []; row = row; status = 500 }
    else record { calls = call ∷ rest.calls; row = rest.row; status = rest.status }

abbrev step_if_some :
    ChangeEnv → Option String → (String → StripeCall) → PlanRow → Changed → Changed
step_if_some env none call row rest = rest
step_if_some env (some id) call row rest = step env (call id) row rest

abbrev metered_ids : List (Option String) → List String
metered_ids [] = []
metered_ids (p ∷ ps) = elim (non_empty p) [ none ↦ metered_ids ps | some id ↦ id ∷ metered_ids ps ]

abbrev pub is_metered : ChangeEnv → String → Bool
is_metered env price = any (λ (p : String). str_eq p price) (metered_ids env.metered_prices)

unfoldable pub plan_item : ChangeEnv → List Item → Option Item
plan_item env items = find (λ (i : Item). not (is_metered env i.price)) items

-- the metered lines that a phase has to repeat
unfoldable pub metered_phase_items : ChangeEnv → List Item → List PhaseItem
metered_phase_items env [] = []
metered_phase_items env (i ∷ items) =
    let rest = metered_phase_items env items in
    if is_metered env i.price then record { price = i.price; quantity = none } ∷ rest else rest

unfoldable pub cancel_plan : ChangeEnv → PlanRow → Changed
cancel_plan env row = elim (non_empty row.subscription_id) [
  | none ↦ reply 200 row
  | some id ↦ step env (retrieve id) row (
      step_if_some env (non_empty (env.subscription_of id).schedule) release_schedule row
        (step env (set_cancel_at_period_end id true) row (reply 200 row)))
]

unfoldable pub upgrade_plan : ChangeEnv → PlanType → PlanRow → String → Item → Changed
upgrade_plan env new_plan row id item =
    step_if_some env (non_empty (env.subscription_of id).schedule) release_schedule row (
      step env
        (update_item id item.id (billing_price_id env.price_ids new_plan) (get_or item.quantity 1))
        row
        (reply 200 (record row {
          price_id = some (billing_price_id env.price_ids new_plan);
          billing_plan = new_plan;
          status = some env.updated_status;
        })))

-- the two phases of a scheduled downgrade
unfoldable pub downgrade_phases : ChangeEnv → PlanType → List Item → Item → List (List PhaseItem)
unfolding metered_phase_items
downgrade_phases env new_plan items item =
    (record { price = item.price; quantity = some (get_or item.quantity 1) }
      ∷ metered_phase_items env items)
    ∷ (record { price = billing_price_id env.price_ids new_plan; quantity = some 1 }
        ∷ metered_phase_items env items)
    ∷ []

unfoldable pub downgrade_plan : ChangeEnv → PlanType → PlanRow → String → Item → Changed
unfolding downgrade_phases
downgrade_plan env new_plan row id item =
    step_if_some env (non_empty (env.subscription_of id).schedule) release_schedule row (
      step env (create_schedule id) row (
        step env
          (update_phases env.schedule_id
            (downgrade_phases env new_plan (env.subscription_of id).items item))
          row (reply 200 row)))

-- a change between paid plans, once the subscription is read
unfoldable pub change_paid : ChangeEnv → PlanType → PlanRow → String → Changed
unfolding plan_item upgrade_plan downgrade_plan
change_paid env new_plan row id = elim (plan_item env (env.subscription_of id).items) [
  | none ↦ reply 500 row
  | some item ↦
      step_if_some env (if (env.subscription_of id).cancel_at_period_end then some id else none)
        (λ s. set_cancel_at_period_end s false) row
        (if is_upgrade row.billing_plan new_plan
          then upgrade_plan env new_plan row id item
          else downgrade_plan env new_plan row id item)
]

unfoldable pub change_workspace : ChangeEnv → PlanType → PlanRow → Changed
unfolding cancel_plan change_paid
change_workspace env new_plan row =
    if plan_eq row.billing_plan new_plan
    then reply 200 row
    else if plan_eq new_plan free
    then cancel_plan env row
    else elim (non_empty row.subscription_id) [
      | none ↦ reply 400 row
      | some id ↦ step env (retrieve id) row (change_paid env new_plan row id)
    ]

-- A refusal, or the run of a request that passes the guards.
pub data ChangeAnswer : Type 0 where
  refused : ℕ → ChangeAnswer
  served : Changed → ChangeAnswer

-- The handler: the user of the session, the workspace that they are an admin of, and the plan, which is
-- missing where the request names none of the four.
unfoldable pub change_plan :
    ChangeEnv → Option ℕ → (ℕ → Option PlanRow) → Option PlanType → ChangeAnswer
unfolding change_workspace
change_plan env user admin_workspace new_plan = elim user [
  | none ↦ refused 401
  | some u ↦ elim (admin_workspace u) [
    | none ↦ refused 404
    | some row ↦ elim new_plan [
      | none ↦ refused 500
      | some plan ↦ served (change_workspace env plan row)
    ]
  ]
]
