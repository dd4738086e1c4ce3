-- ===== src/Billing/Meters/Conservation.antt =====
-- Over the runs of one billing period, what a meter charges and what it remembers of it.

use traceroot.Billing.Meters.{
  last_reported_units, Settled, initial_ai, initial_rca, initial_detector, settle_ai, settle_rca,
  Reported, settle_detector,
}
use traceroot.Prelude.{
  All, All-map, ◌⊎◌, false, true, ◌&&◌, [], ◌∷◌, if◌then◌else◌, ◌+◌, opt_eq_self, max, ◌≡◌, arith,
  Option, Bool, List, ℕ,
}

-- One run of the hourly job, for one meter: the units owed so far, whether the run meters to Stripe,
-- whether Stripe accepts a report, and whether the run's workspace update is written. A run that throws
-- before Stripe is asked neither meters nor writes.
pub record Round : Type 0 where
  pub total : ℕ
  pub metered : Bool
  pub accepted : Bool
  pub written : Bool

abbrev pub Settle : Type 0
Settle = Reported → Option ℕ → ℕ → Bool → Settled

-- The stored value and the sum of what was sent, after some rounds in one period.
pub record Account : Type 0 where
  pub stored : Reported
  pub charged : ℕ

-- What a round of one meter puts in `updateData`; `initial` is what a run starts from.
abbrev pub round_update : (Reported → Reported) → Settle → Option ℕ → Round → Reported → Settled
round_update initial settle period r previous =
    if r.metered
    then settle previous period r.total r.accepted
    else record { sent = 0; stored = initial previous }

-- What a round sends, and what is stored after it.
abbrev pub settle_round : (Reported → Reported) → Settle → Option ℕ → Round → Reported → Settled
settle_round initial settle period r previous =
    let s = round_update initial settle period r previous in
    record { sent = s.sent; stored = if r.written then s.stored else previous }

-- the rounds of one period
unfoldable pub bill : (Reported → Reported) → Settle → Option ℕ → List Round → Account → Account
bill initial settle period [] a = a
bill initial settle period (r ∷ rs) a =
    let s = settle_round initial settle period r a.stored in
    bill initial settle period rs (record { stored = s.stored; charged = a.charged + s.sent })

abbrev pub bill_ai : Option ℕ → List Round → Account → Account
bill_ai = bill (λ previous. initial_ai) settle_ai

abbrev pub bill_rca : Option ℕ → List Round → Account → Account
bill_rca = bill (λ previous. initial_rca) settle_rca

abbrev pub bill_detector : Option ℕ → List Round → Account → Account
bill_detector = bill initial_detector settle_detector

-- the most that any accepted round owed
abbrev pub most_accepted : List Round → ℕ
most_accepted [] = 0
most_accepted (r ∷ rs) = max (if r.metered && r.accepted then r.total else 0) (most_accepted rs)

-- In the period the meter remembers all that it has charged.
abbrev pub IsSettled : Option ℕ → Account → Type 0
IsSettled period a = a.charged ≡ last_reported_units a.stored period

-- A round that remembers: it leaves the charge at what is stored, and raises it to what is owed
-- exactly when Stripe accepts a report.
abbrev Remembers : (Reported → Reported) → Settle → Option ℕ → Round → Type 0
Remembers initial settle period r =
    (previous : Reported)
    → (last_reported_units (settle_round initial settle period r previous).stored period
        ≡ last_reported_units previous period
          + (settle_round initial settle period r previous).sent)
      × (last_reported_units previous period + (settle_round initial settle period r previous).sent
          ≡ max (last_reported_units previous period)
              (if r.metered && r.accepted then r.total else 0))

rca-Remembers :
    (period : Option ℕ) (r : Round)
    → r.metered ≡ r.written
    → Remembers (λ previous. initial_rca) settle_rca period r
unfolding settle_rca
rca-Remembers period r m previous = ground (arith, opt_eq_self period)

detector-Remembers :
    (period : Option ℕ) (r : Round)
    → (r.metered ≡ false) ⊎ (r.written ≡ true)
    → Remembers initial_detector settle_detector period r
unfolding settle_detector initial_detector last_reported_units
detector-Remembers period r h previous = ground (arith, opt_eq_self period)

bill_lem :
    (initial : Reported → Reported) (settle : Settle) (period : Option ℕ) (rs : List Round)
    (a : Account)
    → All (Remembers initial settle period) rs
    → IsSettled period a
    → ((bill initial settle period rs a).charged ≡ max a.charged (most_accepted rs))
      × IsSettled period (bill initial settle period rs a)
unfolding bill
bill_lem initial settle period [] a h e = (omega arith, e)
bill_lem initial settle period (r ∷ rs) a (m, h) e =
    let (kept, grown) = m a.stored in
    let s = settle_round initial settle period r a.stored in
    let (ih, stored) =
      bill_lem initial settle period rs (record { stored = s.stored; charged = a.charged + s.sent })
        h (omega arith) in
    (omega arith, stored)

-- No run of the list reports to Stripe without a workspace update that is written.
abbrev pub AllWritten : List Round → Type 0
AllWritten rs = All (λ r. (r.metered ≡ false) ⊎ (r.written ≡ true)) rs

-- If in one billing period every run that meters to Stripe writes its workspace update, then whatever
-- the runs owe, whichever of them skip Stripe or throw before it and whichever reports Stripe
-- accepts, the detector meter charges in all the largest amount of an accepted run (or what was
-- charged before, if that is more), and what it stores is what it has charged.
pub detector_charged_once :
    (period : Option ℕ) (rs : List Round) (a : Account)
    → AllWritten rs
    → IsSettled period a
    → ((bill_detector period rs a).charged ≡ max a.charged (most_accepted rs))
      × IsSettled period (bill_detector period rs a)
detector_charged_once period rs a h e =
    bill_lem initial_detector settle_detector period rs a (All-map (detector-Remembers period) rs h)
      e

-- Every run of the list meters to Stripe and its workspace update is written, or neither.
abbrev pub AllMetered : List Round → Type 0
AllMetered rs = All (λ r. r.metered ≡ r.written) rs

-- If every run of one billing period meters to Stripe and writes its workspace update, or throws
-- before both, then whatever the runs owe and whichever reports Stripe accepts, the RCA meter charges
-- in all the largest amount of an accepted run (or what was charged before, if that is more), and
-- what it stores is what it has charged. A run that skips Stripe and writes is not covered.
pub rca_charged_once :
    (period : Option ℕ) (rs : List Round) (a : Account)
    → AllMetered rs
    → IsSettled period a
    → ((bill_rca period rs a).charged ≡ max a.charged (most_accepted rs))
      × IsSettled period (bill_rca period rs a)
rca_charged_once period rs a h e =
    bill_lem (λ previous. initial_rca) settle_rca period rs a (All-map (rca-Remembers period) rs h)
      e
