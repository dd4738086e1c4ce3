-- ===== src/Billing/Plans/Tests.antt =====
-- Tests of the plan tables.
use traceroot.Billing.Plans.{
  is_ai_run_blocked, get_retention_days, PriceIds, billing_price_id, map_price_id_to_plan, PlanType,
}
use traceroot.Billing.Plans.Laws.{map_price_id_lem}
use traceroot.Prelude.{true, ◌≡◌, some, String, refl, ◌≢◌, eq_iff, false≢true, Option}

cap_reached : is_ai_run_blocked true PlanType.free 30 ≡ true
unfolding is_ai_run_blocked
cap_reached = refl

unknown_plan : get_retention_days "constructor" ≡ some 15
unfolding get_retention_days
unknown_plan = refl

abbrev prices : PriceIds
prices = record { starter_price = "price_s"; pro_price = "price_p" }

map_price_id_lem_example :
    (map_price_id_to_plan prices (some (billing_price_id prices PlanType.starter))
      ≡ PlanType.starter)
    × (map_price_id_to_plan prices (some (billing_price_id prices PlanType.pro)) ≡ PlanType.pro)
    × ((s : Option String)
        → s ≢ some "price_s"
        → s ≢ some "price_p"
        → map_price_id_to_plan prices s ≡ PlanType.free)
map_price_id_lem_example =
    map_price_id_lem prices (λ e. false≢true ((eq_iff "price_s" "").1 e))
      (λ e. false≢true ((eq_iff "price_p" "").1 e))
      (λ e. false≢true ((eq_iff "price_s" "price_p").1 e))
