-- ===== src/Billing/Stripe.antt =====
-- The calls that the billing job makes to Stripe, of
-- frontend/worker/src/ee/billing/usageMetering.ts: the subscription quantity and the meter events.
pub mod Quantity
pub mod Tests
use traceroot.Billing.Meters.{ceil_div, Reported, last_reported_units}
use traceroot.Billing.Plans.{enterprise, plan_eq, PlanType, event_quota}
use traceroot.Prelude.{
  find, not, [], if◌then◌else◌, ltb, max, Option, ◌-◌, ◌∷◌, opt_eq, ◌/◌, List, some, none, any,
  ◌==◌, ℕ,
}

-- a line of a Stripe subscription
pub record SubscriptionItem : Type 0 where
  pub id : ℕ
  pub price : ℕ
  pub quantity : Option ℕ

-- The calls to Stripe that a run makes.
pub data StripeCall : Type 0 where
  set_quantity : ℕ → StripeCall
  ai_usage rca_usage detector_usage : ℕ → StripeCall

-- The item whose quantity is set: the first that is none of the metered prices.
unfoldable pub plan_item : List ℕ → List SubscriptionItem → Option SubscriptionItem
plan_item metered items = find (λ item. not (any (λ p. p == item.price) metered)) items

-- the new quantity of the plan's item, if it is written
abbrev pub quantity_for : Option SubscriptionItem → ℕ → Option (ℕ × ℕ)
quantity_for none quantity = none
quantity_for (some item) quantity =
    if opt_eq item.quantity (some quantity) then none else some (item.id, quantity)

-- `updateStripeQuantity`, after the subscription is read
unfoldable pub update_stripe_quantity : List ℕ → List SubscriptionItem → ℕ → Option (ℕ × ℕ)
unfolding plan_item
update_stripe_quantity metered items quantity = quantity_for (plan_item metered items) quantity

abbrev pub events_per_block : ℕ
events_per_block = 50000

-- the quantity of 50k blocks; it is not reported for the enterprise plan
unfoldable pub event_blocks : ℕ → Option ℕ → Option ℕ
unfolding ceil_div
event_blocks total_events none = none
event_blocks total_events (some included) =
    some (max (included / events_per_block) (ceil_div total_events events_per_block))

unfoldable pub quantity_calls : PlanType → ℕ → List StripeCall
unfolding event_blocks event_quota
quantity_calls plan total_events =
    if plan_eq plan enterprise then [] else elim (event_blocks total_events (event_quota plan)) [
      | none ↦ []
      | some blocks ↦ set_quantity blocks ∷ []
    ]

-- A report call is made for a positive delta only, whether or not it is accepted.
abbrev pub meter_call : (ℕ → StripeCall) → Reported → Option ℕ → ℕ → List StripeCall
meter_call call previous period total =
    if ltb (last_reported_units previous period) total
    then call (total - last_reported_units previous period) ∷ []
    else []
