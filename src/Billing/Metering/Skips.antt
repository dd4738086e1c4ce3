-- ===== src/Billing/Metering/Skips.antt =====
-- A run of the billing job that does not meter to Stripe, and the run that follows it.

use traceroot.Billing.Metering.{
  ai_total, usage_of, Workspace, usage_window, ai_window, Clock, settled_usage, meters_to_stripe,
  update_flags, Outcome, detector_total, process_workspace, Answers, rca_total,
}
use traceroot.Billing.Meters.{last_reported_units, Double}
use traceroot.Billing.Metering.Calls.{ai_units, rca_units, detector_units, calls_report_delta}
use traceroot.Prelude.{ap, ◌∙◌, if◌then◌else◌, ℕ, ◌-◌, arith, false, Option, true, refl, Bool, ◌≡◌}

if_same : (b : Bool) (n : ℕ) → (if b then n else n) ≡ n
if_same true n = refl
if_same false n = refl

module _ (d : Double) (billing : Bool) (c c' : Clock) (a a' : Answers d) (w : Workspace) where
  -- the workspace after a first run, and what a second run does on it
  abbrev pub between : Workspace
  between = (process_workspace d billing c a w).workspace

  abbrev pub second : Outcome
  second = process_workspace d billing c' a' between

  skipped_usage :
      (period : Option ℕ)
      → meters_to_stripe d a w ≡ false
      → (last_reported_units between.current_usage.ai period ≡ 0)
        × (last_reported_units between.current_usage.rca period ≡ 0)
        × (last_reported_units between.current_usage.detector period
            ≡ last_reported_units w.current_usage.detector period)
  unfolding process_workspace last_reported_units settled_usage
  skipped_usage period h = rw h (if_same _ 0, if_same _ 0, refl)

  -- If a run of a paid workspace does not meter to Stripe and the next one does (Stripe was not
  -- configured and now is), then the next one reports to the AI and to the RCA meter all that the
  -- period owes, whatever these had reported of it before; to the detector meter it reports only
  -- what is owed beyond what was reported before the skipped run.
  pub skipped_run_charges_again :
      meters_to_stripe d a w ≡ false
      → meters_to_stripe d a' w ≡ true
      → (ai_units second.calls ≡ ai_total d c' a' w)
        × (rca_units second.calls ≡ rca_total d c' a' w)
        × (detector_units second.calls
            ≡ detector_total d c' a' w
              - last_reported_units w.current_usage.detector w.billing_period_start)
  unfolding process_workspace update_flags meters_to_stripe ai_window usage_of usage_window
  skipped_run_charges_again skipped metered =
      let (ai0, rca0, kept) = skipped_usage w.billing_period_start skipped in
      let (ai1, rca1, delta) = calls_report_delta d billing c' a' between metered in
      (
        omega (arith, ai0, ai1),
        omega (arith, rca0, rca1),
        delta ∙ ap (λ n. detector_total d c' a' w - n) kept,
      )
