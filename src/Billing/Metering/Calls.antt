-- ===== src/Billing/Metering/Calls.antt =====
-- What a run of the billing job sends to Stripe, and what it remembers of it.

use traceroot.Billing.Plans.{PlanType}
use traceroot.Billing.Meters.{Reported, Double, last_reported_units}
use traceroot.Billing.Stripe.{
  set_quantity, meter_call, quantity_calls, ai_usage, StripeCall, rca_usage, event_blocks,
  detector_usage, events_per_block,
}
use traceroot.Billing.Metering.{
  usage_of, stripe_calls, ai_total, detector_total, Workspace, rca_total, Outcome, Clock,
  meters_to_stripe, Answers, process_workspace,
}
use traceroot.Prelude.{
  sum_by-append, ◌++◌, arith, refl, ltb, if◌then◌else◌, sum_by, ◌⊎◌, true, ◌*◌, ◌+◌, ◌≤◌, some, ◌<◌,
  Option, Bool, ◌-◌, ◌/◌, ◌≡◌, List, ℕ,
}

-- The quantity of event blocks covers the events, is at least what the plan includes, and is no
-- larger than one of the two needs.
pub event_blocks_exact :
    (total included : ℕ) (q : ℕ)
    → event_blocks total (some included) ≡ some q
    → (total ≤ q * events_per_block)
      × (included / events_per_block ≤ q)
      × ((q ≡ included / events_per_block) ⊎ (q * events_per_block < total + events_per_block))
unfolding event_blocks
event_blocks_exact total included q h = ground arith

-- the units that a call reports to each meter
abbrev pub ai_unit : StripeCall → ℕ
ai_unit (ai_usage n) = n
ai_unit _ = 0

abbrev pub rca_unit : StripeCall → ℕ
rca_unit (rca_usage n) = n
rca_unit _ = 0

abbrev pub detector_unit : StripeCall → ℕ
detector_unit (detector_usage n) = n
detector_unit _ = 0

abbrev pub ai_units : List StripeCall → ℕ
ai_units calls = sum_by ai_unit calls

abbrev pub rca_units : List StripeCall → ℕ
rca_units calls = sum_by rca_unit calls

abbrev pub detector_units : List StripeCall → ℕ
detector_units calls = sum_by detector_unit calls

sum_by-meter_call :
    (f : StripeCall → ℕ) (call : ℕ → StripeCall) (previous : Reported) (period : Option ℕ)
    (total : ℕ)
    → sum_by f (meter_call call previous period total) ≡ (
        if ltb (last_reported_units previous period) total
        then f (call (total - last_reported_units previous period))
        else 0)
sum_by-meter_call f call previous period total = ground arith

sum_by-quantity_calls :
    (f : StripeCall → ℕ) (plan : PlanType) (total : ℕ)
    → ((q : ℕ) → f (set_quantity q) ≡ 0)
    → sum_by f (quantity_calls plan total) ≡ 0
unfolding quantity_calls
sum_by-quantity_calls f PlanType.free total h = omega (arith, h)
sum_by-quantity_calls f PlanType.starter total h = omega (arith, h)
sum_by-quantity_calls f PlanType.pro total h = omega (arith, h)
sum_by-quantity_calls f PlanType.enterprise total h = refl

module _ (d : Double) (billing : Bool) (c : Clock) (a : Answers d) (w : Workspace) where
  abbrev pub outcome : Outcome
  outcome = process_workspace d billing c a w

  abbrev events_used : ℕ
  events_used = (usage_of d c a w).traces + (usage_of d c a w).spans

  abbrev ai_calls : List StripeCall
  ai_calls = meter_call ai_usage w.current_usage.ai w.billing_period_start (ai_total d c a w)

  abbrev rca_calls : List StripeCall
  rca_calls = meter_call rca_usage w.current_usage.rca w.billing_period_start (rca_total d c a w)

  abbrev detector_calls : List StripeCall
  detector_calls =
      meter_call detector_usage w.current_usage.detector w.billing_period_start
        (detector_total d c a w)

  all_calls :
      meters_to_stripe d a w ≡ true
      → outcome.calls
        ≡ quantity_calls w.billing_plan events_used ++ ai_calls ++ rca_calls ++ detector_calls
  unfolding process_workspace stripe_calls
  all_calls h = rw h refl

  sum_by-calls :
      (f : StripeCall → ℕ)
      → ((q : ℕ) → f (set_quantity q) ≡ 0)
      → meters_to_stripe d a w ≡ true
      → sum_by f outcome.calls ≡ sum_by f ai_calls + sum_by f rca_calls + sum_by f detector_calls
  sum_by-calls f q h = rw (all_calls h) (
      omega (
        arith,
        sum_by-append f (quantity_calls w.billing_plan events_used ++ ai_calls ++ rca_calls)
            detector_calls,
        sum_by-append f (quantity_calls w.billing_plan events_used ++ ai_calls) rca_calls,
        sum_by-append f (quantity_calls w.billing_plan events_used) ai_calls,
        sum_by-quantity_calls f w.billing_plan events_used q,
      ))

  -- A run that meters to Stripe reports to each meter what is owed beyond what was reported before,
  -- and to no meter anything else.
  pub calls_report_delta :
      meters_to_stripe d a w ≡ true
      → (ai_units outcome.calls
          ≡ ai_total d c a w - last_reported_units w.current_usage.ai w.billing_period_start)
        × (rca_units outcome.calls
            ≡ rca_total d c a w - last_reported_units w.current_usage.rca w.billing_period_start)
        × (detector_units outcome.calls
            ≡ detector_total d c a w
              - last_reported_units w.current_usage.detector w.billing_period_start)
  calls_report_delta h = (
    rw (sum_by-calls ai_unit (λ q. refl) h) (ground arith),
    rw (sum_by-calls rca_unit (λ q. refl) h) (ground arith),
    rw (sum_by-calls detector_unit (λ q. refl) h) (ground arith),
  )
