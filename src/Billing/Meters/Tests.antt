-- ===== src/Billing/Meters/Tests.antt =====
-- A billing period in which Stripe refuses a report.

use traceroot.Billing.Meters.AiReset.{ai_charged_once, failed_report_charges_twice}
use traceroot.Billing.Meters.{initial_rca, settle_detector, settle_rca, last_reported_units}
use traceroot.Billing.Meters.Conservation.{
  Round, Account, rca_charged_once, detector_charged_once, most_accepted, bill, bill_ai, bill_rca,
  bill_detector, IsSettled,
}
use traceroot.Prelude.{inr, inl, ◌∷◌, true, List, Bool, arith, refl, some, max, [], ◌≡◌, false, ℕ}

-- a run of which Stripe accepts a report or not, if it meters
abbrev round_of : ℕ → Bool → Bool → Round
round_of total metered accepted = record {
  total = total;
  metered = metered;
  accepted = accepted;
  written = true;
}

abbrev period_rounds : List Round
period_rounds =
    round_of 1000 true true
    ∷ round_of 2000 true false
    ∷ round_of 2000 true true
    ∷ round_of 1500 true true
    ∷ []

abbrev rounds_with_skip : List Round
rounds_with_skip = round_of 1000 true true ∷ round_of 1500 false true ∷ round_of 2000 true true ∷ []

abbrev opened : Account
opened = record { stored = record { units = some 700; period_start = some 5 }; charged = 0 }

period_result : (bill_rca (some 6) period_rounds opened).charged ≡ 2000
unfolding bill settle_rca
period_result = refl

-- The skipped run makes the RCA meter charge the first thousand again.
skip_result : (bill_rca (some 6) rounds_with_skip opened).charged ≡ 3000
unfolding bill settle_rca initial_rca
skip_result = refl

-- An update that is not written makes the next run report again.
unwritten_result :
    (bill_detector
      (some 6)
      (record { total = 5; metered = true; accepted = true; written = false }
        ∷ round_of 5 true true
        ∷ [])
      opened).charged
    ≡ 10
unfolding bill settle_detector
unwritten_result = refl

detector_charged_once_example :
    ((bill_detector (some 6) rounds_with_skip opened).charged ≡ max 0 2000)
    × IsSettled (some 6) (bill_detector (some 6) rounds_with_skip opened)
unfolding last_reported_units
detector_charged_once_example =
    detector_charged_once (some 6) rounds_with_skip opened (inr refl, (inl refl, (inr refl, tt)))
      refl

rca_charged_once_example :
    ((bill_rca (some 6) period_rounds opened).charged ≡ max 0 (most_accepted period_rounds))
    × IsSettled (some 6) (bill_rca (some 6) period_rounds opened)
unfolding last_reported_units
rca_charged_once_example =
    rca_charged_once (some 6) period_rounds opened (refl, (refl, (refl, (refl, tt)))) refl

abbrev accepted_rounds : List Round
accepted_rounds = round_of 1000 true true ∷ round_of 2000 true true ∷ []

ai_charged_once_example :
    ((bill_ai (some 6) accepted_rounds opened).charged ≡ 2000)
    × IsSettled (some 6) (bill_ai (some 6) accepted_rounds opened)
unfolding last_reported_units
ai_charged_once_example =
    ai_charged_once (some 6) accepted_rounds opened ((refl, refl), ((refl, refl), tt)) refl

failed_report_charges_twice_example :
    (bill_ai (some 6) (round_of 2000 true false ∷ round_of 2000 true true ∷ []) (record {
      stored = record { units = some 1000; period_start = some 6 };
      charged = 1000;
    })).charged
    ≡ 3000
failed_report_charges_twice_example =
    failed_report_charges_twice (some 6) 1000 2000 2000 (omega arith) (omega arith)
