-- ===== src/Billing/Subscription/Tests.antt =====
-- A subscription that is created, deleted, and created again with a metered line in front.

use traceroot.Prelude.{String, ◌≡◌, some, if◌then◌else◌, ◌∷◌, str_eq, List, refl, [], Option, none}
use traceroot.Billing.Subscription.{
  Workspaces, BillingRow, subscribed, WebhookEnv, Subscription, Item, post, Event, subscription_set,
  subscription_deleted, unhandled,
}
use traceroot.Billing.Subscription.Replay.{last_plan, handle_all, handle_all-plan}
use traceroot.Billing.Plans.{free, pro, PriceIds, map_price_id_to_plan}

abbrev prices : PriceIds
prices = record { starter_price = "price_s"; pro_price = "price_p" }

abbrev line : String → Item
line price = record { id = "si"; price = price; quantity = some 1 }

abbrev paid : Subscription
paid = record {
  id = "sub";
  customer = "cus";
  workspace_id = some "w";
  status = "active";
  items = line "price_p" ∷ line "price_ai" ∷ [];
  period_start = 1000;
  period_end = 2000;
}

abbrev metered_paid : Subscription
metered_paid = record paid { items = line "price_ai" ∷ line "price_p" ∷ [] }

abbrev never : String → Option Subscription
never id = none

abbrev fresh : BillingRow
fresh = record {
  customer_id = none;
  subscription_id = none;
  price_id = none;
  status = none;
  plan = free;
  period_start = none;
  period_end = none;
}

abbrev table : Workspaces
table id = if str_eq id "w" then some fresh else none

abbrev trusting : WebhookEnv
trusting = record {
  price_ids = prices;
  signing_secret = some "whsec";
  construct_event = λ body signature secret. some (subscription_set paid);
  retrieve = never;
}

unsigned_result : (post trusting (record { signature = none; body = "" }) table).0 ≡ 400
unfolding post
unsigned_result = refl

paid_result :
    (new : BillingRow) × ((post trusting (record { signature = some "v1"; body = "" }) table).1 "w"
      ≡ some new)
    × (new.plan ≡ pro)
unfolding post map_price_id_to_plan
paid_result = (subscribed prices paid fresh, refl, refl)

abbrev events : List Event
events = subscription_set paid ∷ subscription_deleted paid ∷ subscription_set paid ∷ unhandled ∷ []

last_plan_result : last_plan prices never "w" events free ≡ pro
unfolding map_price_id_to_plan
last_plan_result = refl

handle_all-plan_example :
    (new : BillingRow) × (handle_all prices never events table "w" ≡ some new)
    × (new.plan ≡ last_plan prices never "w" events free)
handle_all-plan_example = handle_all-plan prices never "w" events table fresh refl
