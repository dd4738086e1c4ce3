-- ===== src/Billing/Metering/Tests.antt =====
-- One run of the billing job on a paid and on a free workspace; a cost is a fraction.

use traceroot.Billing.Meters.{
  detector_billable_units, ai_billable_units, rca_billable_units, Double, last_reported_units,
  Reported,
}
use traceroot.Billing.Stripe.{set_quantity, detector_usage, ai_usage}
use traceroot.Billing.Metering.Skips.{second, skipped_run_charges_again}
use traceroot.Billing.Metering.Flags.{flags_exact}
use traceroot.Billing.Plans.{
  rca_run_quota, ai_run_quota, is_rca_run_blocked, PlanType, is_ai_run_blocked,
  is_ingestion_blocked, is_detector_run_blocked,
}
use traceroot.Billing.Metering.Calls.{rca_units, calls_report_delta, detector_units, ai_units}
use traceroot.Billing.Metering.{
  Clock, Workspace, stripe_calls, ai_total, Answers, usage_of, detector_total, meters_to_stripe,
  rca_total, process_workspace,
}
use traceroot.Prelude.{◌/◌, ◌+◌, [], true, Bool, some, ◌*◌, ◌≡◌, ◌-◌, false, refl, ◌∷◌, ℕ}

abbrev times_fraction : ℕ × ℕ → ℕ × ℕ → ℕ × ℕ
times_fraction (a, b) (c, d) = (a * c, b * d)

abbrev round_fraction : ℕ × ℕ → ℕ
round_fraction (a, b) = (2 * a + b) / (2 * b)

abbrev fractions : Double
fractions = record {
  Number = ℕ × ℕ;
  zero_cost = (0, 1);
  times = times_fraction;
  ratio = λ a b. (a, b);
  markup = (105, 100);
  hundred = (100, 1);
  round = round_fraction;
}

abbrev clock : Clock
clock = record { now = 500; month_start = 400; next_month_start = 700 }

abbrev reported : ℕ → Reported
reported n = record { units = some n; period_start = some 450 }

abbrev customer : PlanType → Workspace
customer plan = record {
  billing_plan = plan;
  billing_customer_id = some 1;
  billing_subscription_id = some 2;
  billing_period_start = some 450;
  billing_period_end = some 650;
  ingestion_blocked = true;
  ai_blocked = true;
  rca_blocked = false;
  detector_blocked = false;
  current_usage = record { ai = reported 1000; rca = reported 0; detector = reported 7 };
  project_ids = 8 ∷ [];
}

abbrev answers : Bool → Answers fractions
answers configured = record {
  usage_details = λ ids w. record { traces = 60000; spans = 150000; detector_runs = 200 };
  ai_runs = λ w. 205;
  rca_runs = λ w. 20;
  overage_cost = λ included w. (2, 1);
  rca_cost = λ w. (1, 1);
  detector_cost = λ w. (3, 1);
  stripe_configured = configured;
  accepts_ai = true;
  accepts_rca = true;
  accepts_detector = true;
}

paid_calls :
    (process_workspace fractions true clock (answers true) (customer PlanType.pro)).calls
    ≡ set_quantity 5 ∷ ai_usage 1210 ∷ detector_usage 151 ∷ []
unfolding process_workspace stripe_calls usage_of ai_billable_units ai_run_quota rca_billable_units
    rca_run_quota detector_billable_units
paid_calls = refl

flags_exact_example :
    ((process_workspace fractions true clock
        (answers true)
        (customer PlanType.pro)).workspace.ingestion_blocked
      ≡ is_ingestion_blocked true PlanType.pro 210000)
    × ((process_workspace fractions true clock
          (answers true)
          (customer PlanType.pro)).workspace.ai_blocked
        ≡ is_ai_run_blocked true PlanType.pro 205)
    × ((process_workspace fractions true clock
          (answers true)
          (customer PlanType.pro)).workspace.rca_blocked
        ≡ is_rca_run_blocked true PlanType.pro 20)
    × ((process_workspace fractions true clock
          (answers true)
          (customer PlanType.pro)).workspace.detector_blocked
        ≡ is_detector_run_blocked true PlanType.pro 200)
unfolding usage_of
flags_exact_example = flags_exact fractions true clock (answers true) (customer PlanType.pro)

skipped_run_charges_again_example :
    (ai_units
        (second fractions true clock clock
          (answers false)
          (answers true)
          (customer PlanType.pro)).calls
      ≡ ai_total fractions clock (answers true) (customer PlanType.pro))
    × (rca_units
          (second fractions true clock clock
            (answers false)
            (answers true)
            (customer PlanType.pro)).calls
        ≡ rca_total fractions clock (answers true) (customer PlanType.pro))
    × (detector_units
          (second fractions true clock clock
            (answers false)
            (answers true)
            (customer PlanType.pro)).calls
        ≡ detector_total fractions clock (answers true) (customer PlanType.pro)
          - last_reported_units (reported 7) (some 450))
unfolding meters_to_stripe
skipped_run_charges_again_example =
    skipped_run_charges_again fractions true clock clock (answers false) (answers true)
      (customer PlanType.pro) refl refl

calls_report_delta_example :
    (ai_units (process_workspace fractions true clock (answers true) (customer PlanType.pro)).calls
      ≡ ai_total fractions clock (answers true) (customer PlanType.pro)
        - last_reported_units (reported 1000) (some 450))
    × (rca_units
          (process_workspace fractions true clock (answers true) (customer PlanType.pro)).calls
        ≡ rca_total fractions clock (answers true) (customer PlanType.pro)
          - last_reported_units (reported 0) (some 450))
    × (detector_units
          (process_workspace fractions true clock (answers true) (customer PlanType.pro)).calls
        ≡ detector_total fractions clock (answers true) (customer PlanType.pro)
          - last_reported_units (reported 7) (some 450))
unfolding meters_to_stripe
calls_report_delta_example =
    calls_report_delta fractions true clock (answers true) (customer PlanType.pro) refl
