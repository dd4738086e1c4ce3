-- ===== src/Billing/ChangePlan/Tests.antt =====
-- A downgrade from pro to starter of a subscription with a meter, and one whose last call fails.
use traceroot.Prelude.{◌≡◌, [], some, none, false, length, ◌∷◌, refl, Bool, true}
use traceroot.Billing.ChangePlan.{
  StripeCall, ChangeEnv, change_plan, PlanRow, StripeState, change_workspace, update_phases,
  refused,
}
use traceroot.Billing.ChangePlan.Errors.{failed_change}
use traceroot.Billing.Plans.{pro, starter, is_upgrade}

abbrev no_call : StripeCall → Bool
no_call call = false

abbrev phases_call : StripeCall → Bool
phases_call call = elim call [ update_phases id phases ↦ true | _ ↦ false ]

abbrev on_pro : StripeState
on_pro = record {
  items =
      record { id = "si_ai"; price = "price_ai"; quantity = none }
      ∷ record { id = "si_plan"; price = "price_p"; quantity = some 3 }
      ∷ [];
  schedule = some "sched_old";
  cancel_at_period_end = true;
}

abbrev env_with : (StripeCall → Bool) → ChangeEnv
env_with fails = record {
  price_ids = record { starter_price = "price_s"; pro_price = "price_p" };
  metered_prices = some "price_ai" ∷ none ∷ none ∷ [];
  fails = fails;
  subscription_of = λ id. on_pro;
  updated_status = "active";
  schedule_id = "sched_new";
}

abbrev pro_row : PlanRow
pro_row = record {
  billing_plan = pro;
  subscription_id = some "sub";
  price_id = some "price_p";
  status = some "active";
}

downgrade_calls : length (change_workspace (env_with no_call) starter pro_row).calls ≡ 5
unfolding change_workspace is_upgrade
downgrade_calls = refl

stranger_result : change_plan (env_with no_call) (some 1) (λ u. none) (some starter) ≡ refused 404
unfolding change_plan
stranger_result = refl

failed_change_example :
    ((change_workspace (env_with phases_call) starter pro_row).status ≡ 500)
    × ((change_workspace (env_with phases_call) starter pro_row).row ≡ pro_row)
unfolding change_workspace is_upgrade
failed_change_example = failed_change (env_with phases_call) pro_row starter refl
