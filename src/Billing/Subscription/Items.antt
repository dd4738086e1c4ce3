-- ===== src/Billing/Subscription/Items.antt =====
-- Which line of a subscription the webhook takes for the plan.
use traceroot.Prelude.{
  String, non_empty, true, ◌∙◌, get_or, ◌∷◌, Option, some, arith, [], List, ◌≡◌, eq_iff,
}
use traceroot.Billing.Subscription.{
  Workspaces, Item, Subscription, has_period, BillingRow, subscription_set,
}
use traceroot.Billing.Subscription.Replay.{handle_all-plan, handle_all, plan_given}
use traceroot.Billing.Plans.{free, PriceIds, map_price_id_to_plan}

-- Where the first line of a subscription is not a plan's price, such as that of a meter, the webhook
-- records the free plan, whatever paid plan another line has.
pub metered_first :
    (env : PriceIds) (read_again : String → Option Subscription) (s : Subscription) (w : String)
    (item : Item) (items : List Item) (table : Workspaces) (row : BillingRow)
    → non_empty s.workspace_id ≡ some w
    → has_period s ≡ true
    → s.items ≡ item ∷ items
    → map_price_id_to_plan env (some item.price) ≡ free
    → table w ≡ some row
    → (new : BillingRow) × (handle_all env read_again (subscription_set s ∷ []) table w ≡ some new)
      × (new.plan ≡ free)
metered_first env read_again s w item items table row named whole lines unpriced e =
    let (new, found, p) = handle_all-plan env read_again w (subscription_set s ∷ []) table row e in
    (new, found, p ∙ given_plan)
  where
    given_plan : get_or (plan_given env read_again w (subscription_set s)) row.plan ≡ free
    given_plan = rw (named, whole, lines, unpriced) (ground (arith, eq_iff w w))
