-- ===== src/Billing/Subscription/Replay.antt =====
-- What a sequence of verified events leaves of a workspace.
use traceroot.Prelude.{
  sym, Bool-cases, refl, ◌≡◌, List, ap, some, [], if◌then◌else◌, ◌∷◌, none, Option-cases, str_eq,
  inr, get_or, inl, non_empty, Option, false, eq_iff, true, Bool, String, ◌∙◌,
}
use traceroot.Billing.Subscription.{
  store_subscription, subscribed, unsubscribed, on_event, first_price, Workspaces, Subscription,
  BillingRow, with_period, update_workspace, Event, has_period, subscription_set,
  subscription_deleted, unhandled,
}
use traceroot.Billing.Plans.{free, PlanType, PriceIds, map_price_id_to_plan}

abbrev kept : Option Workspaces → Workspaces → Workspaces
kept none table = table
kept (some new) table = new

-- what an event's workspace makes of it for another one
abbrev given : String → Option String → Option PlanType → Option PlanType
given id none plan = none
given id (some w) plan = if str_eq id w then plan else none

module _ (env : PriceIds) (retrieve : String → Option Subscription) where
  -- Events handled one after another; one whose handling throws leaves the table.
  unfoldable pub handle_all : List Event → Workspaces → Workspaces
  unfolding on_event
  handle_all [] table = table
  handle_all (event ∷ events) table =
      handle_all events (kept (on_event env retrieve event table) table)

  abbrev plan_of : Option Subscription → Option PlanType
  plan_of none = none
  plan_of (some s) =
      if has_period s then some (map_price_id_to_plan env (first_price s.items)) else none

  -- the plan that an event gives a workspace, if it gives one
  abbrev pub plan_given : String → Event → Option PlanType
  plan_given id (subscription_set s) =
      given id (non_empty s.workspace_id) (plan_of (with_period retrieve s))
  plan_given id (subscription_deleted s) = given id (non_empty s.workspace_id) (some free)
  plan_given id unhandled = none

  -- the last plan that the events give, or else the old one
  abbrev pub last_plan : String → List Event → PlanType → PlanType
  last_plan id [] plan = plan
  last_plan id (event ∷ events) plan = last_plan id events (get_or (plan_given id event) plan)

  abbrev HasPlan : Workspaces → String → PlanType → Type 0
  HasPlan table id plan = (row : BillingRow) × (table id ≡ some row) × (row.plan ≡ plan)

  update_workspace-other :
      (id w : String) (f : BillingRow → BillingRow) (table : Workspaces) (plan : PlanType)
      → str_eq id w ≡ false
      → HasPlan table id plan
      → HasPlan (kept (update_workspace w f table) table) id plan
  update_workspace-other id w f table plan apart (row, e, p) = elim (Option-cases (table w)) [
    | inl g ↦ rw (update_workspace, g) (row, e, p)
    | inr (row', g) ↦ rw (update_workspace, g) (row, rw apart e, p)
  ]

  update_workspace-same :
      (id w : String) (f : BillingRow → BillingRow) (table : Workspaces) (plan new : PlanType)
      → str_eq id w ≡ true
      → ((row : BillingRow) → (f row).plan ≡ new)
      → HasPlan table id plan
      → HasPlan (kept (update_workspace w f table) table) id new
  update_workspace-same id w f table plan new same h (row, e, p) =
      let there : table w ≡ some row = ap table (sym ((eq_iff id w).0 same)) ∙ e in
      rw (update_workspace, there) (f row, rw same refl, h row)

  -- an update that gives a plan to the workspace that it names
  update_workspace_lem :
      (id w : String) (f : BillingRow → BillingRow) (table : Workspaces) (plan new : PlanType)
      → ((row : BillingRow) → (f row).plan ≡ new)
      → HasPlan table id plan
      → HasPlan
          (kept (update_workspace w f table) table)
          id
          (get_or (if str_eq id w then some new else none) plan)
  update_workspace_lem id w f table plan new h there = elim (Bool-cases (str_eq id w)) [
    | inl e ↦ rw e (update_workspace-same id w f table plan new e h there)
    | inr e ↦ rw e (update_workspace-other id w f table plan e there)
  ]

  same_choice : (b : Bool) (plan : PlanType) → get_or (if b then none else none) plan ≡ plan
  same_choice true plan = refl
  same_choice false plan = refl

  store_subscription_lem :
      (id w : String) (s : Option Subscription) (table : Workspaces) (plan : PlanType)
      → HasPlan table id plan
      → HasPlan
          (kept (store_subscription env w s table) table)
          id
          (get_or (if str_eq id w then plan_of s else none) plan)
  unfolding subscribed
  store_subscription_lem id w none table plan there = rw (same_choice (str_eq id w) plan) there
  store_subscription_lem id w (some s) table plan there = elim (Bool-cases (has_period s)) [
    | inl e ↦
        rw (store_subscription, e)
          (update_workspace_lem id w (subscribed env s) table plan
            (map_price_id_to_plan env (first_price s.items)) (λ row. refl) there)
    | inr e ↦ rw (store_subscription, e) (rw (same_choice (str_eq id w) plan) there)
  ]

  on_event_lem :
      (id : String) (event : Event) (table : Workspaces) (plan : PlanType)
      → HasPlan table id plan
      → HasPlan
          (kept (on_event env retrieve event table) table)
          id
          (get_or (plan_given id event) plan)
  unfolding on_event unsubscribed
  on_event_lem id (subscription_set s) table plan there =
      elim (Option-cases (non_empty s.workspace_id)) [
        | inl e ↦ rw (on_event, e) there
        | inr (w, e) ↦
            rw (on_event, e) (store_subscription_lem id w (with_period retrieve s) table plan there)
      ]
  on_event_lem id (subscription_deleted s) table plan there =
      elim (Option-cases (non_empty s.workspace_id)) [
        | inl e ↦ rw (on_event, e) there
        | inr (w, e) ↦
            rw (on_event, e)
              (update_workspace_lem id w unsubscribed table plan free (λ row. refl) there)
      ]
  on_event_lem id unhandled table plan there = there

  -- The webhook refines a register of plans: after any sequence of events a workspace is on the plan of
  -- the last event that names it and can be stored, a deletion giving the free plan, and on its old
  -- plan if there is none; events of other workspaces and events whose handling throws do not
  -- touch it.
  pub handle_all-plan :
      (id : String) (events : List Event) (table : Workspaces) (row : BillingRow)
      → table id ≡ some row
      → (new : BillingRow) × (handle_all events table id ≡ some new)
        × (new.plan ≡ last_plan id events row.plan)
  unfolding handle_all
  handle_all-plan id events table row e = all events table row.plan (row, e, refl)
    where
      all :
          (events : List Event) (table : Workspaces) (plan : PlanType)
          → HasPlan table id plan
          → HasPlan (handle_all events table) id (last_plan id events plan)
      all [] table plan there = there
      all (event ∷ events) table plan there =
          all events (kept (on_event env retrieve event table) table)
            (get_or (plan_given id event) plan) (on_event_lem id event table plan there)
