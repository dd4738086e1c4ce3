-- ===== src/Billing/Meters/AiReset.antt =====
-- The AI meter: it charges once while every report is accepted, and charges again after a failed one.

use traceroot.Billing.Meters.{Reported, settle_rca, settle_ai}
use traceroot.Billing.Meters.Conservation.{
  rca_charged_once, most_accepted, Account, Round, bill, bill_ai, bill_rca, IsSettled,
}
use traceroot.Prelude.{
  Bool-cases, inl, inr, opt_eq_self, arith, ◌+◌, max, some, refl, [], true, ◌∷◌, ◌≡◌, false, All,
  All-map, ◌<◌, List, Option, ℕ,
}

-- Every run of the list meters to Stripe and writes its workspace update, or neither, and Stripe
-- accepts its reports.
abbrev pub AllAccepted : List Round → Type 0
AllAccepted rs = All (λ r. (r.accepted ≡ true) × (r.metered ≡ r.written)) rs

settle_ai_accepted :
    (previous : Reported) (period : Option ℕ) (total : ℕ)
    → settle_ai previous period total true ≡ settle_rca previous period total true
unfolding settle_ai settle_rca
settle_ai_accepted previous period total = refl

-- In such runs the AI meter bills like the RCA meter.
ai-eq-rca :
    (period : Option ℕ) (rs : List Round) (a : Account)
    → AllAccepted rs
    → bill_ai period rs a ≡ bill_rca period rs a
unfolding bill
ai-eq-rca period [] a h = refl
ai-eq-rca period (r ∷ rs) a ((ok, same), h) = elim (Bool-cases r.written) [
  | inl e ↦ rw (ok, same, e, settle_ai_accepted a.stored period r.total) (ai-eq-rca period rs _ h)
  | inr e ↦ rw (ok, same, e) (ai-eq-rca period rs _ h)
]

-- If every run of a billing period meters to Stripe and writes its workspace update, or throws before
-- both, and Stripe accepts every report, the AI meter charges in all the largest amount that a run owed (or what was
-- charged before, if that is more), and what it stores is what it has charged.
pub ai_charged_once :
    (period : Option ℕ) (rs : List Round) (a : Account)
    → AllAccepted rs
    → IsSettled period a
    → ((bill_ai period rs a).charged ≡ max a.charged (most_accepted rs))
      × IsSettled period (bill_ai period rs a)
ai_charged_once period rs a h e =
    rw (ai-eq-rca period rs a h) (rca_charged_once period rs a (All-map (λ r k. k.1) rs h) e)

-- If a period has charged `before` units and stored them, and then a report of more units fails and
-- the next one is accepted, in runs that meter and are written, the AI meter has charged `before`
-- twice: the accepted report holds the whole of what is owed, not the difference.
pub failed_report_charges_twice :
    (period : Option ℕ) (before owed later : ℕ)
    → before < owed
    → 0 < later
    → (bill_ai period
        (record { total = owed; metered = true; accepted = false; written = true }
          ∷ record { total = later; metered = true; accepted = true; written = true }
          ∷ [])
        (record {
          stored = record { units = some before; period_start = period };
          charged = before;
        })).charged
      ≡ before + later
unfolding bill settle_ai
failed_report_charges_twice period before owed later h pos = ground (arith, opt_eq_self period)
