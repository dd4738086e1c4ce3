-- ===== src/Billing/Notifications.antt =====
-- The usage-quota emails of the free plan: `decideUsageNotification`
-- (frontend/packages/core/src/ee/billing/usageNotifications.ts) and `runUsageQuotaNotifications`
-- (frontend/worker/src/ee/billing/usageNotifications.ts), for one workspace.
-- The table of sent stamps has one row for each meter, by its unique key, and is a function of the
-- meter. The ratio 0.8 is compared as `10 * used >= 8 * cap`. What the database and the mail server
-- answer in one run is the record `Services`: any read and any write can throw, which ends the run,
-- since `processWorkspace` catches it. A write that throws writes nothing. Times are numbers.
pub mod Once
pub mod Crossing
pub mod Tests
use traceroot.Prelude.{
  ℕ, ◌*◌, Bool, true, false, not, ◌&&◌, Option, none, some, List, [], ◌∷◌, ◌++◌, leb, ltb, ◌==◌,
  is_some, if◌then◌else◌,
}

pub data UsageMeter : Type 0 where
  events rca detector : UsageMeter

abbrev pub meter_eq : UsageMeter → UsageMeter → Bool
meter_eq events events = true
meter_eq rca rca = true
meter_eq detector detector = true
meter_eq _ _ = false

pub record UsageNotificationState : Type 0 where
  pub warning_sent_at : Option ℕ
  pub blocked_sent_at : Option ℕ

-- the `send` field; `nothing` is the source's "none"
pub data Kind : Type 0 where
  nothing warning blocked : Kind

abbrev pub kind_eq : Kind → Kind → Bool
kind_eq nothing nothing = true
kind_eq warning warning = true
kind_eq blocked blocked = true
kind_eq _ _ = false

pub record UsageNotificationDecision : Type 0 where
  pub send : Kind
  pub stamp_warning : Bool
  pub stamp_blocked : Bool

abbrev no_decision : UsageNotificationDecision
no_decision = record { send = nothing; stamp_warning = false; stamp_blocked = false }

-- `state?.warningSentAt != null`
abbrev pub warning_stamped : Option UsageNotificationState → Bool
warning_stamped none = false
warning_stamped (some s) = is_some s.warning_sent_at

abbrev pub blocked_stamped : Option UsageNotificationState → Bool
blocked_stamped none = false
blocked_stamped (some s) = is_some s.blocked_sent_at

decide_with_cap : ℕ → ℕ → Bool → Bool → UsageNotificationDecision
decide_with_cap used cap warning_sent blocked_sent =
    if leb cap used
    then (if blocked_sent
        then no_decision
        else record { send = blocked; stamp_warning = not warning_sent; stamp_blocked = true })
    else if leb (8 * cap) (10 * used) && not warning_sent
    then record { send = warning; stamp_warning = true; stamp_blocked = false }
    else no_decision

-- a cap of `none` is infinite
unfoldable pub decide_usage_notification :
    ℕ → Option ℕ → Option UsageNotificationState → UsageNotificationDecision
unfolding decide_with_cap
decide_usage_notification used none state = no_decision
decide_usage_notification used (some cap) state =
    if leb cap 0
    then no_decision
    else decide_with_cap used cap (warning_stamped state) (blocked_stamped state)

-- a row of workspace_usage_notifications
pub record Row : Type 0 where
  pub period_start : ℕ
  pub stamps : UsageNotificationState

pub record Email : Type 0 where
  pub meter : UsageMeter
  pub kind : Kind
  pub used : ℕ

-- The table, the emails that a server has accepted, and those of them whose stamps could not be
-- written.
pub record Mailbox : Type 0 where
  pub rows : UsageMeter → Option Row
  pub accepted : List Email
  pub unstamped : List Email

-- The answers of one run: whether the two queries return, whether there is a recipient, and for
-- each email whether the server accepts it and whether its stamps are then written.
pub record Services : Type 0 where
  pub reads_rows : Bool
  pub reads_admins : Bool
  pub has_recipients : Bool
  pub deliver : Email → Bool
  pub stores : Email → Bool

pub record Reading : Type 0 where
  pub meter : UsageMeter
  pub used : ℕ
  pub cap : Option ℕ

-- the row's stamps, unless it is anchored to another usage window
unfoldable pub current_state : ℕ → Option Row → Option UsageNotificationState
current_state period none = none
current_state period (some row) = if row.period_start == period then some row.stamps else none

abbrev stamp : Bool → ℕ → Option ℕ → Option ℕ
stamp set now old = if set then some now else old

abbrev old_warning : Option UsageNotificationState → Option ℕ
old_warning none = none
old_warning (some s) = s.warning_sent_at

abbrev old_blocked : Option UsageNotificationState → Option ℕ
old_blocked none = none
old_blocked (some s) = s.blocked_sent_at

unfoldable pub stamped_row : ℕ → ℕ → UsageNotificationDecision → Option UsageNotificationState → Row
stamped_row period now decision state = record {
  period_start = period;
  stamps = record {
    warning_sent_at = stamp decision.stamp_warning now (old_warning state);
    blocked_sent_at = stamp decision.stamp_blocked now (old_blocked state);
  };
}

upsert : UsageMeter → Row → (UsageMeter → Option Row) → UsageMeter → Option Row
upsert m row rows n = if meter_eq m n then some row else rows n

-- `sendUsageQuotaEmail`: no recipient, no email; else the server's answer
unfoldable pub send_usage_quota_email : Bool → (Email → Bool) → Email → Bool
send_usage_quota_email has_recipients deliver email = has_recipients && deliver email

-- a mailbox, and whether an exception ends the loop there
pub record Round : Type 0 where
  pub box : Mailbox
  pub thrown : Bool

-- the upsert that follows an accepted email
unfoldable pub stamp_sent : Bool → Email → Row → Mailbox → Round
unfolding upsert
stamp_sent true email row box = record {
  box = record box {
    rows = upsert email.meter row box.rows;
    accepted = box.accepted ++ email ∷ [];
  };
  thrown = false;
}
stamp_sent false email row box = record {
  box = record box {
    accepted = box.accepted ++ email ∷ [];
    unstamped = box.unstamped ++ email ∷ [];
  };
  thrown = true;
}

abbrev pub email_of : Reading → UsageNotificationDecision → Email
email_of reading decision = record {
  meter = reading.meter;
  kind = decision.send;
  used = reading.used;
}

-- The rest of a round of the loop, once the decision is made.
unfoldable pub act :
    ℕ
    → ℕ
    → Services
    → Reading
    → Option UsageNotificationState
    → UsageNotificationDecision
    → Mailbox
    → Round
unfolding stamp_sent send_usage_quota_email
act period now s reading state decision box =
    let email = email_of reading decision in
    if kind_eq decision.send nothing
    then record { box = box; thrown = false }
    else if not s.reads_admins
    then record { box = box; thrown = true }
    else if send_usage_quota_email s.has_recipients s.deliver email
    then stamp_sent (s.stores email) email (stamped_row period now decision state) box
    else record { box = box; thrown = false }

-- One round of the loop; `snapshot` is the table as it was read before the loop.
unfoldable pub notify_meter :
    ℕ → ℕ → Services → (UsageMeter → Option Row) → Reading → Mailbox → Round
unfolding act
notify_meter period now s snapshot reading box =
    let state = current_state period (snapshot reading.meter) in
    act period now s reading state (decide_usage_notification reading.used reading.cap state) box

notify_all : ℕ → ℕ → Services → (UsageMeter → Option Row) → List Reading → Mailbox → Mailbox
unfolding notify_meter decide_usage_notification current_state
notify_all period now s snapshot [] box = box
notify_all period now s snapshot (r ∷ rs) box =
    let round = notify_meter period now s snapshot r box in
    elim round.thrown [ true ↦ round.box | false ↦ notify_all period now s snapshot rs round.box ]

unfoldable pub run_usage_quota_notifications :
    Bool → ℕ → ℕ → Services → List Reading → Mailbox → Mailbox
unfolding notify_all stamped_row
run_usage_quota_notifications billing period now s meters box =
    if not (billing && s.reads_rows) then box else notify_all period now s box.rows meters box
