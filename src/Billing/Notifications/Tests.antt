-- ===== src/Billing/Notifications/Tests.antt =====
-- A day of the billing job on a free workspace.
use traceroot.Billing.Notifications.Crossing.{blocked_email, is_sent, first_crossing, crossing}
use traceroot.Billing.Notifications.{
  Services, Row, Mailbox, events, detector, current_state, nothing, run_usage_quota_notifications,
  UsageMeter, warning, blocked, Reading, decide_usage_notification,
}
use traceroot.Billing.Notifications.Once.{opened, lost, Run, run_all, at_most_once, sent}
use traceroot.Prelude.{
  ◌+◌, some, ◌≤◌, Option, [], ◌≡◌, Bool, ◌∷◌, none, List, false, arith, true, refl, ℕ,
}

abbrev no_rows : UsageMeter → Option Row
no_rows m = none

abbrev scans : ℕ → Reading
scans used = record { meter = detector; used = used; cap = some 100 }

abbrev pages : ℕ → Reading
pages used = record { meter = events; used = used; cap = some 50000 }

-- what a run meets: whether the mail server accepts, and whether the stamps are then written
abbrev meets : Bool → Bool → Services
meets accepts writes = record {
  reads_rows = true;
  reads_admins = true;
  has_recipients = true;
  deliver = λ e. accepts;
  stores = λ e. writes;
}

abbrev run_at : ℕ → Services → ℕ → Run
run_at now services used = record {
  now = now;
  services = services;
  readings = pages 10 ∷ scans used ∷ [];
}

-- The mail server refuses at 9 o'clock, and the stamps of 10 o'clock are not written.
abbrev day : List Run
day =
    run_at 8 (meets true true) 79
    ∷ run_at 9 (meets false true) 85
    ∷ run_at 10 (meets true false) 90
    ∷ run_at 11 (meets true true) 95
    ∷ run_at 12 (meets true true) 100
    ∷ run_at 13 (meets true true) 120
    ∷ []

day_result :
    (run_all true 0 day (opened no_rows)).accepted
    ≡ record { meter = detector; kind = warning; used = 90 }
      ∷ record { meter = detector; kind = warning; used = 95 }
      ∷ record { meter = detector; kind = blocked; used = 100 }
      ∷ []
unfolding run_all run_usage_quota_notifications
day_result = refl

at_most_once_example :
    sent detector warning (run_all true 0 day (opened no_rows))
    ≤ 1 + lost detector warning (run_all true 0 day (opened no_rows))
at_most_once_example = at_most_once true 0 no_rows day detector warning (
  (refl, (refl, tt)),
  (
    (refl, (refl, tt)),
    ((refl, (refl, tt)), ((refl, (refl, tt)), ((refl, (refl, tt)), ((refl, (refl, tt)), tt)))),
  ),
)

abbrev empty : Mailbox
empty = opened no_rows

abbrev served : Services
served = meets true true

first_crossing_example :
    (is_sent 0 12 120 100 served detector empty ≡ false
      → (crossing 0 12 120 100 served detector empty).box ≡ empty)
    × (is_sent 0 12 120 100 served detector empty ≡ true
        → (crossing 0 12 120 100 served detector empty).box.accepted
          ≡ blocked_email 0 12 120 100 served detector empty ∷ [])
    × (is_sent 0 12 120 100 served detector empty ≡ true
        → true ≡ true
        → (later : ℕ) (cap : Option ℕ)
        → (decide_usage_notification later cap (
            current_state 0 ((crossing 0 12 120 100 served detector empty).box.rows detector))).send
          ≡ nothing)
    × (is_sent 0 12 120 100 served detector empty ≡ true
        → true ≡ false
        → ((crossing 0 12 120 100 served detector empty).box.rows ≡ no_rows)
          × ((crossing 0 12 120 100 served detector empty).thrown ≡ true))
unfolding current_state
first_crossing_example =
    first_crossing 0 12 120 100 served detector empty (omega arith) (omega arith) refl
