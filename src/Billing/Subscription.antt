-- ===== src/Billing/Subscription.antt =====
-- The Stripe webhook of frontend/ui/src/app/api/billing/webhook/route.ts. The check of the signature
-- and a second read of the subscription are answers of Stripe; a time of 0 stands for a missing one.
-- The key of Stripe is taken to be set.
pub mod Replay
pub mod Items
pub mod Tests
use traceroot.Prelude.{
  non_empty, coalesce, String, ltb, none, List, ◌∷◌, if◌then◌else◌, Option, some, ◌&&◌, [], str_eq,
  Bool, ◌*◌, ℕ,
}
use traceroot.Billing.Plans.{free, PlanType, PriceIds, map_price_id_to_plan}

pub record Item : Type 0 where
  pub id : String
  pub price : String
  pub quantity : Option ℕ

pub record Subscription : Type 0 where
  pub id : String
  pub customer : String
  pub workspace_id : Option String  -- in its metadata
  pub status : String
  pub items : List Item
  pub period_start : ℕ
  pub period_end : ℕ

pub data Event : Type 0 where
  subscription_set : Subscription → Event  -- created or updated
  subscription_deleted : Subscription → Event
  unhandled : Event

-- The billing columns of a workspace.
pub record BillingRow : Type 0 where
  pub customer_id : Option String
  pub subscription_id : Option String
  pub price_id : Option String
  pub status : Option String
  pub plan : PlanType
  pub period_start : Option ℕ
  pub period_end : Option ℕ

-- the workspaces, by id
abbrev pub Workspaces : Type 0
Workspaces = String → Option BillingRow

abbrev pub first_price : List Item → Option String
first_price [] = none
first_price (item ∷ items) = some item.price

unfoldable pub subscribed : PriceIds → Subscription → BillingRow → BillingRow
subscribed env s row = record {
  customer_id = some s.customer;
  subscription_id = some s.id;
  -- `undefined` leaves the column as it is
  price_id = coalesce (first_price s.items) row.price_id;
  status = some s.status;
  plan = map_price_id_to_plan env (first_price s.items);
  period_start = some (s.period_start * 1000);
  period_end = some (s.period_end * 1000);
}

unfoldable pub unsubscribed : BillingRow → BillingRow
unsubscribed row = record row {
  subscription_id = none;
  price_id = none;
  status = none;
  plan = free;
  period_start = none;
  period_end = none;
}

-- `workspace.update`, which throws for an id that is not there
abbrev update_workspace : String → (BillingRow → BillingRow) → Workspaces → Option Workspaces
update_workspace id f table = elim (table id) [
  | none ↦ none
  | some row ↦ some (λ key. if str_eq key id then some (f row) else table key)
]

abbrev has_period : Subscription → Bool
has_period s = ltb 0 s.period_start && ltb 0 s.period_end

-- the subscription with its period, read again where the event lacks it
abbrev with_period : (String → Option Subscription) → Subscription → Option Subscription
with_period retrieve s = if has_period s then some s else retrieve s.id

-- An update with a missing date throws.
abbrev store_subscription : PriceIds → String → Option Subscription → Workspaces → Option Workspaces
store_subscription env id none table = none
store_subscription env id (some s) table =
    if has_period s then update_workspace id (subscribed env s) table else none

-- The body of the `try`; `none` if it throws.
unfoldable pub on_event :
    PriceIds → (String → Option Subscription) → Event → Workspaces → Option Workspaces
unfolding subscribed unsubscribed
on_event env retrieve (subscription_set s) table = elim (non_empty s.workspace_id) [
  | none ↦ some table
  | some id ↦ store_subscription env id (with_period retrieve s) table
]
on_event env retrieve (subscription_deleted s) table = elim (non_empty s.workspace_id) [
  | none ↦ some table
  | some id ↦ update_workspace id unsubscribed table
]
on_event env retrieve unhandled table = some table

pub record WebhookRequest : Type 0 where
  pub signature : Option String
  pub body : String

pub record WebhookEnv : Type 0 where
  pub price_ids : PriceIds
  pub signing_secret : Option String
  pub construct_event : String → String → String → Option Event  -- `none` if it throws
  pub retrieve : String → Option Subscription

abbrev answered : Option Workspaces → Workspaces → ℕ × Workspaces
answered none table = (500, table)
answered (some new) table = (200, new)

unfoldable pub post : WebhookEnv → WebhookRequest → Workspaces → ℕ × Workspaces
unfolding on_event
post env r table = elim (non_empty r.signature) [
  | none ↦ (400, table)
  | some signature ↦ elim (non_empty env.signing_secret) [
    | none ↦ (400, table)
    | some secret ↦ elim (env.construct_event r.body signature secret) [
      | none ↦ (400, table)
      | some event ↦ answered (on_event env.price_ids env.retrieve event table) table
    ]
  ]
]
