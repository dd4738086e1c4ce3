-- ===== src/Billing/Notifications/Once.antt =====
-- Repeated usage emails are only those whose stamps could not be written.
use traceroot.Prelude.{
  all, sym, ◌∙◌, inr, subst, inl, Bool-cases, All, any, List, ℕ, ◌+◌, ◌≤◌, ◌≡◌, refl, Bool, true,
  false, ◌&&◌, Option, none, some, [], ◌∷◌, arith, count_if, count_if-append, ==_self, ap,
}
use traceroot.Billing.Notifications.{
  email_of, stamp_sent, Services, notify_all, run_usage_quota_notifications, UsageMeter, events,
  rca, detector, meter_eq, UsageNotificationState, Kind, nothing, warning, blocked, kind_eq,
  UsageNotificationDecision, warning_stamped, blocked_stamped, decide_usage_notification, Row,
  Email, Mailbox, Reading, current_state, stamped_row, act, notify_meter,
}

-- the emails of one kind for one meter
abbrev pub is_about : UsageMeter → Kind → Email → Bool
is_about m k e = meter_eq m e.meter && kind_eq k e.kind

abbrev pub sent : UsageMeter → Kind → Mailbox → ℕ
sent m k box = count_if (is_about m k) box.accepted

-- those of them whose stamps could not be written
abbrev pub lost : UsageMeter → Kind → Mailbox → ℕ
lost m k box = count_if (is_about m k) box.unstamped

abbrev stamp_of : Kind → Option UsageNotificationState → Bool
stamp_of warning s = warning_stamped s
stamp_of blocked s = blocked_stamped s
stamp_of nothing s = false

abbrev bit : Bool → ℕ
bit true = 1
bit false = 0

-- What has been sent in the window is covered by a stamp, but for what was not stamped.
abbrev pub IsStamped : ℕ → UsageMeter → Kind → Mailbox → Type 0
IsStamped period m k box =
    sent m k box ≤ lost m k box + bit (stamp_of k (current_state period (box.rows m)))

meter_eq_comm : (a b : UsageMeter) → meter_eq a b ≡ meter_eq b a
meter_eq_comm events b = ground arith
meter_eq_comm rca b = ground arith
meter_eq_comm detector b = ground arith

pub meter_eq_self : (a : UsageMeter) → meter_eq a a ≡ true
meter_eq_self events = refl
meter_eq_self _ = refl

-- A kind that is sent was not stamped, and is stamped by the row that follows.
decide_fresh :
    (period now used : ℕ) (cap : Option ℕ) (state : Option UsageNotificationState) (k : Kind)
    → kind_eq (decide_usage_notification used cap state).send nothing ≡ false
    → bit (kind_eq k (decide_usage_notification used cap state).send) + bit (stamp_of k state)
      ≤ bit (
          stamp_of k
            (some (stamped_row period now (decide_usage_notification used cap state) state).stamps))
unfolding decide_usage_notification stamped_row
decide_fresh period now used none state nothing h = ground arith
decide_fresh period now used none state k h = ground arith
decide_fresh period now used (some cap) none nothing h = ground arith
decide_fresh period now used (some cap) none k h = ground arith
decide_fresh period now used (some cap) (some s) nothing h = ground arith
decide_fresh period now used (some cap) (some s) k h = ground arith

module _ (period now : ℕ) (s : Services) where
  -- A round for one meter leaves the others alone.
  notify_meter_ne :
      (snapshot : UsageMeter → Option Row) (r : Reading) (m : UsageMeter) (k : Kind) (box : Mailbox)
      → meter_eq m r.meter ≡ false
      → IsStamped period m k box
      → ((notify_meter period now s snapshot r box).box.rows m ≡ box.rows m)
        × IsStamped period m k (notify_meter period now s snapshot r box).box
  unfolding act notify_meter stamp_sent
  notify_meter_ne snapshot r m k box h stamped =
      let email =
        email_of r
          (decide_usage_notification r.used r.cap (current_state period (snapshot r.meter))) in
      ground (
        arith,
        meter_eq_comm m r.meter,
        count_if-append (is_about m k) box.accepted (email ∷ []),
        count_if-append (is_about m k) box.unstamped (email ∷ []),
      )

  pub row_period :
      (d : UsageNotificationDecision) (state : Option UsageNotificationState)
      → (stamped_row period now d state).period_start ≡ period
  unfolding stamped_row
  row_period d state = refl

  act-IsStamped :
      (r : Reading) (k : Kind) (box : Mailbox) (state : Option UsageNotificationState)
      (d : UsageNotificationDecision)
      → (kind_eq d.send nothing ≡ false
          → bit (kind_eq k d.send) + bit (stamp_of k state)
            ≤ bit (stamp_of k (some (stamped_row period now d state).stamps)))
      → state ≡ current_state period (box.rows r.meter)
      → sent r.meter k box ≤ lost r.meter k box + bit (stamp_of k state)
      → IsStamped period r.meter k (act period now s r state d box).box
  unfolding act current_state stamp_sent
  act-IsStamped r k box state d fresh e h =
      let email = email_of r d in
      ground (
        arith,
        fresh,
        meter_eq_self r.meter,
        ==_self period,
        count_if-append (is_about r.meter k) box.accepted (email ∷ []),
        count_if-append (is_about r.meter k) box.unstamped (email ∷ []),
        row_period d state,
      )

  notify_meter-IsStamped :
      (snapshot : UsageMeter → Option Row) (r : Reading) (k : Kind) (box : Mailbox)
      → snapshot r.meter ≡ box.rows r.meter
      → IsStamped period r.meter k box
      → IsStamped period r.meter k (notify_meter period now s snapshot r box).box
  unfolding notify_meter
  notify_meter-IsStamped snapshot r k box e h =
      act-IsStamped r k box (current_state period (snapshot r.meter)) _
        (decide_fresh period now r.used r.cap (current_state period (snapshot r.meter)) k)
        (ap (current_state period) e) (rw e h)

-- the meters that a list of readings names
abbrev mentions : UsageMeter → List Reading → Bool
mentions m rs = any (λ r. meter_eq m r.meter) rs

-- No two readings are of one meter.
abbrev pub IsDistinct : List Reading → Type 0
IsDistinct [] = Unit
IsDistinct (r ∷ rs) = (mentions r.meter rs ≡ false) × IsDistinct rs

eq_of_meter_eq : (a b : UsageMeter) → meter_eq a b ≡ true → b ≡ a
eq_of_meter_eq events b h = ground arith
eq_of_meter_eq rca b h = ground arith
eq_of_meter_eq detector b h = ground arith

-- What holds at the end of a round and after the rest of the loop holds at the end of the loop.
stopped :
    {round : Mailbox} (rest : Mailbox) (P : Mailbox → Type 0) (thrown : Bool)
    → P round
    → P rest
    → P (elim thrown [ true ↦ round | false ↦ rest ])
stopped rest P true one all = one
stopped rest P false one all = all

module _ (period now : ℕ) (s : Services) (snapshot : UsageMeter → Option Row) where
  notify_all_ne :
      (rs : List Reading) (m : UsageMeter) (k : Kind) (box : Mailbox)
      → mentions m rs ≡ false
      → IsStamped period m k box
      → IsStamped period m k (notify_all period now s snapshot rs box)
  unfolding notify_all
  notify_all_ne [] m k box n h = h
  notify_all_ne (r ∷ rs) m k box n h =
      let round = notify_meter period now s snapshot r box in
      let (_, one) = notify_meter_ne period now s snapshot r m k box (ground arith) h in
      stopped (notify_all period now s snapshot rs round.box) (IsStamped period m k) round.thrown
        one (notify_all_ne rs m k round.box (ground arith) one)

  first :
      (rs : List Reading) (m : UsageMeter) (k : Kind) (box : Mailbox) (r : Reading)
      → IsDistinct (r ∷ rs)
      → snapshot m ≡ box.rows m
      → IsStamped period m k box
      → meter_eq m r.meter ≡ true
      → IsStamped period m k (notify_all period now s snapshot (r ∷ rs) box)
  unfolding notify_all
  first rs m k box r d e h same =
      subst
        (λ n.
          snapshot n ≡ box.rows n
          → IsStamped period n k box
          → IsStamped period n k (notify_all period now s snapshot (r ∷ rs) box))
        (eq_of_meter_eq m r.meter same)
        (λ e h.
          let round = notify_meter period now s snapshot r box in
          let one = notify_meter-IsStamped period now s snapshot r k box e h in
          stopped (notify_all period now s snapshot rs round.box) (IsStamped period r.meter k)
            round.thrown one (notify_all_ne rs r.meter k round.box d.0 one))
        e h

  notify_all-IsStamped :
      (rs : List Reading) (m : UsageMeter) (k : Kind) (box : Mailbox)
      → IsDistinct rs
      → snapshot m ≡ box.rows m
      → IsStamped period m k box
      → IsStamped period m k (notify_all period now s snapshot rs box)
  unfolding notify_all
  notify_all-IsStamped [] m k box d e h = h
  notify_all-IsStamped (r ∷ rs) m k box d e h = elim (Bool-cases (meter_eq m r.meter)) [
    | inl same ↦ first rs m k box r d e h same
    | inr differ ↦
        let round = notify_meter period now s snapshot r box in
        let (rows, one) = notify_meter_ne period now s snapshot r m k box differ h in
        stopped (notify_all period now s snapshot rs round.box) (IsStamped period m k) round.thrown
          one (notify_all-IsStamped rs m k round.box d.1 (e ∙ sym rows) one)
  ]

-- One run of the job, and what it meets.
pub record Run : Type 0 where
  pub now : ℕ
  pub services : Services
  pub readings : List Reading

unfoldable pub run_all : Bool → ℕ → List Run → Mailbox → Mailbox
run_all billing period [] box = box
run_all billing period (r ∷ rs) box =
    run_all billing period rs
      (run_usage_quota_notifications billing period r.now r.services r.readings box)

run-IsStamped :
    (billing : Bool) (period : ℕ) (r : Run) (m : UsageMeter) (k : Kind) (box : Mailbox)
    → IsDistinct r.readings
    → IsStamped period m k box
    → IsStamped period m k
        (run_usage_quota_notifications billing period r.now r.services r.readings box)
unfolding run_usage_quota_notifications
run-IsStamped billing period r m k box d h =
    ground
      (arith, notify_all-IsStamped period r.now r.services box.rows r.readings m k box d refl h)

run_all-IsStamped :
    (billing : Bool) (period : ℕ) (rs : List Run) (m : UsageMeter) (k : Kind) (box : Mailbox)
    → All (λ r. IsDistinct r.readings) rs
    → IsStamped period m k box
    → IsStamped period m k (run_all billing period rs box)
unfolding run_all
run_all-IsStamped billing period [] m k box d h = h
run_all-IsStamped billing period (r ∷ rs) m k box d h =
    run_all-IsStamped billing period rs m k _ d.1 (run-IsStamped billing period r m k box d.0 h)

bit-le : (b : Bool) → bit b ≤ 1
bit-le true = omega arith
bit-le false = omega arith

abbrev pub opened : (UsageMeter → Option Row) → Mailbox
opened rows = record { rows = rows; accepted = []; unstamped = [] }

-- However often the job runs in one usage window, whatever the usages, the recipients and the
-- answers of the database and the mail server, and whatever the table held before: the accepted
-- emails of one kind for one meter are at most one more than those of them whose stamps could not
-- be written, if no run reads a meter twice.
pub at_most_once :
    (billing : Bool) (period : ℕ) (rows : UsageMeter → Option Row) (runs : List Run)
    (m : UsageMeter) (k : Kind)
    → All (λ r. IsDistinct r.readings) runs
    → sent m k (run_all billing period runs (opened rows))
      ≤ 1 + lost m k (run_all billing period runs (opened rows))
at_most_once billing period rows runs m k d =
    let covered = run_all-IsStamped billing period runs m k (opened rows) d (omega arith) in
    omega (arith, covered, bit-le)
