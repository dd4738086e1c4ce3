-- ===== src/Billing/Metering.antt =====
-- `processWorkspace` and `updateStripeQuantity` of frontend/worker/src/ee/billing/usageMetering.ts:
-- one workspace in one run of the hourly billing job.
-- What ClickHouse, Postgres and Stripe answer is the record `Answers`; the calendar month of the
-- fallback window is `Clock`. Only the parts of `currentUsage` that a later run reads are kept.
use traceroot.Billing.Stripe.{
  detector_usage, ai_usage, quantity_calls, StripeCall, meter_call, rca_usage,
}
use traceroot.Billing.Notifications.{
  detector, rca, events, run_usage_quota_notifications, Mailbox, Services, Reading,
}
use traceroot.Billing.Meters.{
  settle_ai, Reported, initial_rca, settle_rca, detector_billable_units, Double, initial_detector,
  last_reported_units, ai_billable_units, ceil_div, initial_ai, settle_detector, rca_billable_units,
}
use traceroot.Billing.Plans.{
  is_detector_run_blocked, ai_run_quota, detector_run_quota, is_rca_run_blocked,
  is_ingestion_blocked, plan_eq, rca_run_quota, enterprise, is_ai_run_blocked, event_quota,
  PlanType, free,
}
pub mod Flags
pub mod Calls
pub mod Skips
pub mod Rounds
pub mod Tests
use traceroot.Prelude.{
  differs, none, is_some, some, ◌+◌, ◌∷◌, get_or, ltb, find, ◌==◌, Option, Bool, ◌-◌, [], ◌&&◌,
  ◌++◌, max, List, any, if◌then◌else◌, not, opt_eq, ◌/◌, false, ℕ,
}

pub record Clock : Type 0 where
  pub now : ℕ
  pub month_start : ℕ
  pub next_month_start : ℕ

pub record CurrentUsage : Type 0 where
  pub ai : Reported
  pub rca : Reported
  pub detector : Reported

pub record Workspace : Type 0 where
  pub billing_plan : PlanType
  pub billing_customer_id : Option ℕ
  pub billing_subscription_id : Option ℕ
  pub billing_period_start : Option ℕ
  pub billing_period_end : Option ℕ
  pub ingestion_blocked : Bool
  pub ai_blocked : Bool
  pub rca_blocked : Bool
  pub detector_blocked : Bool
  pub current_usage : CurrentUsage
  pub project_ids : List ℕ

pub record Window : Type 0 where
  pub start : ℕ
  pub finish : ℕ

-- the billing period if both ends are set, else the calendar month
period_or_month : Clock → Option ℕ → Option ℕ → Window
period_or_month c (some s) (some e) = record { start = s; finish = e }
period_or_month c _ _ = record { start = c.month_start; finish = c.next_month_start }

-- the window of the ClickHouse query
unfoldable pub usage_window : Clock → Workspace → Window
unfolding period_or_month
usage_window c w =
    if plan_eq w.billing_plan free
    then record { start = 0; finish = c.now }
    else period_or_month c w.billing_period_start w.billing_period_end

-- the window of the Postgres queries
unfoldable pub ai_window : Clock → Workspace → Window
ai_window c w =
    if plan_eq w.billing_plan free then record { start = 0; finish = c.now } else record {
      start = get_or w.billing_period_start c.month_start;
      finish = get_or w.billing_period_end c.next_month_start;
    }

pub record Usage : Type 0 where
  pub traces : ℕ
  pub spans : ℕ
  pub detector_runs : ℕ

module _ (d : Double) where
  -- What the services answer to the queries of one run.
  pub record Answers : Type 0 where
    pub usage_details : List ℕ → Window → Usage
    pub ai_runs : Window → ℕ
    pub rca_runs : Window → ℕ
    pub overage_cost : Option ℕ → Window → d.Number
    pub rca_cost : Window → d.Number
    pub detector_cost : Window → d.Number
    pub stripe_configured : Bool
    pub accepts_ai : Bool
    pub accepts_rca : Bool
    pub accepts_detector : Bool

pub record Outcome : Type 0 where
  pub workspace : Workspace
  pub calls : List StripeCall

-- A flag is written when it differs, and a paid plan unblocks.
abbrev next_flag : Bool → Bool → Bool → Bool
next_flag is_free_plan old should_block =
    if is_free_plan
    then (if differs old should_block then should_block else old)
    else if not is_free_plan && old
    then false
    else old

abbrev next_ingestion : Bool → Bool → Bool
next_ingestion old should_block = if differs old should_block then should_block else old

module _ (d : Double) where
  unfoldable pub usage_of : Clock → Answers d → Workspace → Usage
  unfolding usage_window
  usage_of c a w = elim w.project_ids [
    | [] ↦ record { traces = 0; spans = 0; detector_runs = 0 }
    | p ∷ ps ↦ a.usage_details (p ∷ ps) (usage_window c w)
  ]

  -- step 4: the four flags
  unfoldable pub update_flags : Bool → Clock → Answers d → Workspace → Workspace
  unfolding ai_window
  update_flags billing c a w =
      let usage = usage_of c a w in
      let is_free = plan_eq w.billing_plan free in
      record w {
        ingestion_blocked =
            next_ingestion w.ingestion_blocked
              (is_ingestion_blocked billing w.billing_plan (usage.traces + usage.spans));
        ai_blocked =
            next_flag is_free w.ai_blocked
              (is_ai_run_blocked billing w.billing_plan (a.ai_runs (ai_window c w)));
        rca_blocked =
            next_flag is_free w.rca_blocked
              (is_rca_run_blocked billing w.billing_plan (a.rca_runs (ai_window c w)));
        detector_blocked =
            next_flag is_free w.detector_blocked
              (is_detector_run_blocked billing w.billing_plan usage.detector_runs);
      }

  abbrev pub ai_total : Clock → Answers d → Workspace → ℕ
  ai_total c a w =
      ai_billable_units d (a.ai_runs (ai_window c w)) (ai_run_quota w.billing_plan)
        (a.overage_cost (ai_run_quota w.billing_plan) (ai_window c w))

  abbrev pub rca_total : Clock → Answers d → Workspace → ℕ
  rca_total c a w =
      rca_billable_units d (a.rca_runs (ai_window c w)) (rca_run_quota w.billing_plan)
        (a.rca_cost (ai_window c w))

  abbrev pub detector_total : Clock → Answers d → Workspace → ℕ
  detector_total c a w =
      detector_billable_units d (usage_of c a w).detector_runs (a.detector_cost (ai_window c w))

  -- the test of step 5
  unfoldable pub meters_to_stripe : Answers d → Workspace → Bool
  meters_to_stripe a w =
      not (plan_eq w.billing_plan free)
      && is_some w.billing_subscription_id
      && is_some w.billing_customer_id
      && a.stripe_configured

  unfoldable pub settled_usage : Clock → Answers d → Workspace → CurrentUsage
  unfolding settle_ai settle_rca settle_detector initial_ai initial_rca initial_detector
      meters_to_stripe
  settled_usage c a w =
      if meters_to_stripe a w
      then record {
        ai =
            (settle_ai w.current_usage.ai w.billing_period_start (ai_total c a w)
              a.accepts_ai).stored;
        rca =
            (settle_rca w.current_usage.rca w.billing_period_start (rca_total c a w)
              a.accepts_rca).stored;
        detector =
            (settle_detector w.current_usage.detector w.billing_period_start (detector_total c a w)
              a.accepts_detector).stored;
      }
      else record {
        ai = initial_ai;
        rca = initial_rca;
        detector = initial_detector w.current_usage.detector;
      }

  unfoldable pub stripe_calls : Clock → Answers d → Workspace → List StripeCall
  unfolding quantity_calls meters_to_stripe
  stripe_calls c a w =
      if meters_to_stripe a w
      then quantity_calls w.billing_plan ((usage_of c a w).traces + (usage_of c a w).spans)
        ++ meter_call ai_usage w.current_usage.ai w.billing_period_start (ai_total c a w)
        ++ meter_call rca_usage w.current_usage.rca w.billing_period_start (rca_total c a w)
        ++ meter_call detector_usage w.current_usage.detector w.billing_period_start
            (detector_total c a w)
      else []

  -- Steps 1 to 6: what is written to the workspace, and what Stripe is sent.
  unfoldable pub process_workspace : Bool → Clock → Answers d → Workspace → Outcome
  unfolding update_flags settled_usage stripe_calls
  process_workspace billing c a w = record {
    workspace = record (update_flags billing c a w) { current_usage = settled_usage c a w };
    calls = stripe_calls c a w;
  }

  -- Step 7: the readings that the free plan's notifications are run on.
  unfoldable pub quota_readings : Clock → Answers d → Workspace → List Reading
  quota_readings c a w =
      record {
        meter = events;
        used = (usage_of c a w).traces + (usage_of c a w).spans;
        cap = event_quota w.billing_plan;
      }
      ∷ record {
        meter = rca;
        used = a.rca_runs (ai_window c w);
        cap = rca_run_quota w.billing_plan;
      }
      ∷ record {
        meter = detector;
        used = (usage_of c a w).detector_runs;
        cap = detector_run_quota w.billing_plan;
      }
      ∷ []

  unfoldable pub notify_workspace :
      Bool → Clock → Answers d → Services → Workspace → Mailbox → Mailbox
  unfolding quota_readings
  notify_workspace billing c a s w box =
      if plan_eq w.billing_plan free
      then run_usage_quota_notifications billing 0 c.now s (quota_readings c a w) box
      else box
