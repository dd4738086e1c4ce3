-- ===== src/Billing/ChangePlan/Meters.antt =====
-- A change of plan keeps the metered lines of the subscription.
use traceroot.Billing.Plans.{PlanType, billing_price_id}
use traceroot.Billing.Subscription.{Item}
use traceroot.Prelude.{some, [], ◌∷◌, All, keep, List, false, ◌≡◌, map, String}
use traceroot.Billing.ChangePlan.{
  plan_item, PlanRow, Changed, StripeCall, ChangeEnv, is_metered, PhaseItem, retrieve,
  release_schedule, set_cancel_at_period_end, update_item, create_schedule, update_phases,
}

abbrev phase_price : PhaseItem → String
phase_price i = i.price

abbrev item_price : Item → String
item_price i = i.price

module _ (env : ChangeEnv) (plan : PlanType) (items : List Item) where
  -- the prices of the subscription's metered lines, in their order
  abbrev pub metered_lines : List String
  metered_lines = keep (is_metered env) (map item_price items)

  -- The line that is updated is the subscription's line of a plan, which is no metered one, and gets
  -- the new plan's price. The phases that are written are two: the price of that line and the new
  -- plan's price, each in front of the metered lines and of nothing else.
  abbrev pub KeepsMeters : StripeCall → Type 0
  KeepsMeters (retrieve id) = Unit
  KeepsMeters (release_schedule id) = Unit
  KeepsMeters (set_cancel_at_period_end id flag) = Unit
  KeepsMeters (update_item id item price quantity) =
      (i : Item) × (plan_item env items ≡ some i)
      × (i.id ≡ item)
      × (is_metered env i.price ≡ false)
      × (price ≡ billing_price_id env.price_ids plan)
  KeepsMeters (create_schedule id) = Unit
  KeepsMeters (update_phases id phases) =
      (i : Item) × (plan_item env items ≡ some i)
      × (map (map phase_price) phases
          ≡ (i.price ∷ metered_lines) ∷ (billing_price_id env.price_ids plan ∷ metered_lines) ∷ [])

  abbrev Keeps : Changed → Type 0
  Keeps run = All KeepsMeters run.calls

module _ (env : ChangeEnv) (row : PlanRow) (plan : PlanType) (id : String) where
  abbrev lines : List Item
  lines = (env.subscription_of id).items

  abbrev Kept : Changed → Type 0
  Kept run = Keeps env plan lines run
