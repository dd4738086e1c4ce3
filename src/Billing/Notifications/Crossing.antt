-- ===== src/Billing/Notifications/Crossing.antt =====
-- What a meter's round does when its usage first reaches the cap.

use traceroot.Billing.Notifications.Once.{row_period, meter_eq_self}
use traceroot.Billing.Notifications.{
  stamp_sent, nothing, act, send_usage_quota_email, current_state, Reading, Round, Services,
  notify_meter, Mailbox, UsageMeter, Email, blocked, stamped_row, decide_usage_notification,
  UsageNotificationDecision,
}
use traceroot.Prelude.{
  refl, ==_self, [], ◌∷◌, ◌++◌, ◌&&◌, false, arith, ◌≡◌, none, some, true, Option, ◌≤◌, ◌<◌, Bool,
  ℕ,
}

abbrev first_decision : UsageNotificationDecision
first_decision = record { send = blocked; stamp_warning = true; stamp_blocked = true }

crossed :
    (used cap : ℕ)
    → 0 < cap
    → cap ≤ used
    → decide_usage_notification used (some cap) none ≡ first_decision
unfolding decide_usage_notification
crossed used cap pos reached = ground arith

silent :
    (period now later : ℕ) (cap : Option ℕ)
    → (decide_usage_notification later cap
        (some (stamped_row period now first_decision none).stamps)).send
      ≡ nothing
unfolding decide_usage_notification stamped_row
silent period now later none = refl
silent period now later (some limit) = ground arith

module _ (period now used cap : ℕ) (s : Services) (m : UsageMeter) (box : Mailbox) where
  abbrev pub at_cap : Reading
  at_cap = record { meter = m; used = used; cap = some cap }

  abbrev pub blocked_email : Email
  blocked_email = record { meter = m; kind = blocked; used = used }

  abbrev pub crossing : Round
  crossing = notify_meter period now s box.rows at_cap box

  -- the admins are read, there is one, and the server accepts
  abbrev pub is_sent : Bool
  is_sent = s.reads_admins && send_usage_quota_email s.has_recipients s.deliver blocked_email

  module _ (pos : 0 < cap) (reached : cap ≤ used)
      (fresh : current_state period (box.rows m) ≡ none) where
    crossing-eq : crossing ≡ act period now s at_cap none first_decision box
    unfolding notify_meter
    crossing-eq = rw (fresh, crossed used cap pos reached)

    -- When usage is found at or above a positive cap and the window has no stamps: a send that fails
    -- (the admins cannot be read, there is none, or the server refuses) changes nothing; one that
    -- succeeds is the blocked email alone. If its stamps are written, no usage and no cap make the
    -- job send anything more for that meter in the window; if the write throws, the table is as it
    -- was and the loop ends.
    pub first_crossing :
        (is_sent ≡ false → crossing.box ≡ box)
        × (is_sent ≡ true → crossing.box.accepted ≡ box.accepted ++ blocked_email ∷ [])
        × (is_sent ≡ true
            → s.stores blocked_email ≡ true
            → (later : ℕ) (cap' : Option ℕ)
            → (decide_usage_notification later cap'
                (current_state period (crossing.box.rows m))).send
              ≡ nothing)
        × (is_sent ≡ true
            → s.stores blocked_email ≡ false
            → (crossing.box.rows ≡ box.rows) × (crossing.thrown ≡ true))
    unfolding act stamp_sent send_usage_quota_email current_state
    first_crossing = (
      λ failed. rw crossing-eq (ground arith),
      λ ok. rw crossing-eq (ground arith),
      λ ok written later cap'. rw crossing-eq (
          ground (
            arith,
            silent period now later cap',
            meter_eq_self m,
            ==_self period,
            row_period period now s first_decision none,
          )),
      λ ok lost. rw crossing-eq (ground arith),
    )
