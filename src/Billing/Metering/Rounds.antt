-- ===== src/Billing/Metering/Rounds.antt =====
-- A run of the billing job is a round of each meter.

use traceroot.Billing.Meters.Conservation.{Round, settle_round}
use traceroot.Billing.Metering.{
  ai_total, detector_total, CurrentUsage, Clock, rca_total, meters_to_stripe, Answers,
  settled_usage, Workspace, process_workspace,
}
use traceroot.Billing.Meters.{
  initial_detector, initial_rca, settle_detector, Double, settle_rca, initial_ai, settle_ai,
}
use traceroot.Prelude.{refl, Bool-cases, ℕ, Bool, ◌≡◌, true, inl, inr}

module _ (d : Double) (billing : Bool) (c : Clock) (a : Answers d) (w : Workspace) where
  abbrev round : ℕ → Bool → Round
  round total accepted = record {
    total = total;
    metered = meters_to_stripe d a w;
    accepted = accepted;
    written = true;
  }

  abbrev usage : CurrentUsage
  usage = (process_workspace d billing c a w).workspace.current_usage

  -- What `process_workspace` writes for a meter is what the meter's round stores, with what the
  -- workspace owes, whether the run meters and whether Stripe accepts.
  run_is_round :
      (usage.ai
        ≡ (settle_round
            (λ previous. initial_ai)
            settle_ai
            w.billing_period_start
            (round (ai_total d c a w) a.accepts_ai)
            w.current_usage.ai).stored)
      × (usage.rca
          ≡ (settle_round
              (λ previous. initial_rca)
              settle_rca
              w.billing_period_start
              (round (rca_total d c a w) a.accepts_rca)
              w.current_usage.rca).stored)
      × (usage.detector
          ≡ (settle_round initial_detector settle_detector w.billing_period_start
              (round (detector_total d c a w) a.accepts_detector)
              w.current_usage.detector).stored)
  unfolding process_workspace settled_usage
  run_is_round = elim (Bool-cases (meters_to_stripe d a w)) [
    | inl e ↦ rw e (refl, refl, refl)
    | inr e ↦ rw e (refl, refl, refl)
  ]
