-- ===== src/Detection/Rca.antt =====
-- `processRcaJob` of frontend/worker/src/processors/detector-rca-processor.ts, with the alert windows
-- of frontend/packages/core/src/constants.ts and frontend/worker/src/queues/digest-queue.ts.
-- The agent's session is a parameter: a text, or `none` where it throws. Times are in milliseconds.
-- The read of the workspace is taken to succeed: where it throws, the job ends before it writes.
use traceroot.Billing.Plans.{free, plan_eq, PlanType}
pub mod Windows
pub mod Alerts
pub mod Coalescing
pub mod Tests
use traceroot.Detection.Run.{Text}
use traceroot.Prelude.{
  none, ◌&&◌, ◌++◌, [], if◌then◌else◌, get_or, any, not, true, ◌∷◌, String, ◌+◌, false, ◌==◌, Bool,
  ◌-◌, str_eq, Option, List, ◌/◌, some, map, ◌*◌, ℕ,
}

pub data AlertWindow : Type 0 where
  m1 m5 m10 m30 h1 h2 : AlertWindow

unfoldable pub alert_windows : AlertWindow → ℕ
alert_windows m1 = 60000
alert_windows m5 = 300000
alert_windows m10 = 600000
alert_windows m30 = 1800000
alert_windows h1 = 3600000
alert_windows h2 = 7200000

-- the window that a stored string names, if `isAlertWindow` accepts it
unfoldable pub alert_window_of : String → Option AlertWindow
alert_window_of s =
    if str_eq s "1m"
    then some m1
    else if str_eq s "5m"
    then some m5
    else if str_eq s "10m"
    then some m10
    else if str_eq s "30m"
    then some m30
    else if str_eq s "1h"
    then some h1
    else if str_eq s "2h"
    then some h2
    else none

abbrev pub default_alert_window : AlertWindow
default_alert_window = m10

-- the window's length, where what the project stores may be missing or unknown
unfoldable pub window_ms : Option String → ℕ
unfolding alert_windows alert_window_of
window_ms none = alert_windows default_alert_window
window_ms (some s) = alert_windows (get_or (alert_window_of s) default_alert_window)

unfoldable pub window_start_for : ℕ → ℕ → ℕ
window_start_for finding_ts window = (finding_ts / window) * window

pub data RcaStatus : Type 0 where
  running done failed : RcaStatus

-- a row of the RCA table
pub record RcaRow : Type 0 where
  pub finding_id : ℕ
  pub status : RcaStatus
  pub result : Option Text

-- a job of the digest queue, under the id `digest:project:windowStart`
pub record FlushJob : Type 0 where
  pub project_id : ℕ
  pub window_start : ℕ
  pub window : ℕ
  pub delay : ℕ

pub record RcaStore : Type 0 where
  pub rows : List RcaRow
  pub flushes : List FlushJob

pub record RcaRequest : Type 0 where
  pub finding_id : ℕ
  pub project_id : ℕ
  pub finding_timestamp : Option ℕ

-- What the services answer in one run of the job.
pub record RcaServices : Type 0 where
  pub workspace : Option (PlanType × Bool)  -- the plan and `rcaBlocked`
  pub accepts_running : Bool
  pub reads_project : Bool
  pub alert_window : Option String
  pub session : Option Text
  pub accepts_done : Bool
  pub accepts_failed : Bool
  pub accepts_flush : Bool
  pub skipped : Text  -- the text "Skipped — Free plan RCA quota exceeded. Upgrade to continue."
  pub failure : Text  -- the text "RCA failed: " and the error's message
  pub digest_settle : ℕ  -- DIGEST_SETTLE_MS
  pub now : ℕ

-- What a run leaves, and whether it throws for the queue to retry.
pub record RcaEnd : Type 0 where
  pub store : RcaStore
  pub completed : Bool

abbrev set_status : RcaStatus → Option Text → RcaRow → RcaRow
set_status status result row = record row { status = status; result = result }

-- `update` by the finding, which does nothing where there is no row
unfoldable pub update_row : ℕ → RcaStatus → Option Text → List RcaRow → List RcaRow
update_row f status result rows =
    map (λ (r : RcaRow). if r.finding_id == f then set_status status result r else r) rows

abbrev pub has_row : ℕ → List RcaRow → Bool
has_row f rows = any (λ (r : RcaRow). r.finding_id == f) rows

abbrev keep_result : ℕ → RcaStatus → List RcaRow → List RcaRow
keep_result f status rows =
    map (λ (r : RcaRow). if r.finding_id == f then record r { status = status } else r) rows

-- `upsert` of the running row
unfoldable pub upsert_running : ℕ → List RcaRow → List RcaRow
upsert_running f rows =
    if has_row f rows
    then keep_result f running rows
    else rows ++ record { finding_id = f; status = running; result = none } ∷ []

abbrev pub is_flush : ℕ → ℕ → FlushJob → Bool
is_flush project_id window_start j = j.project_id == project_id && j.window_start == window_start

-- the queue ignores a job whose id it holds
unfoldable pub add_flush : FlushJob → List FlushJob → List FlushJob
add_flush job jobs =
    if any (is_flush job.project_id job.window_start) jobs then jobs else jobs ++ job ∷ []

-- `scheduleDigestFlush`
unfoldable pub flush_job : RcaServices → RcaRequest → Option String → FlushJob
unfolding window_ms window_start_for
flush_job s job alert_window =
    let window = window_ms alert_window in
    let from = window_start_for (get_or job.finding_timestamp s.now) window in
    record {
      project_id = job.project_id;
      window_start = from;
      window = window;
      delay = (from + window + s.digest_settle) - s.now;
    }

unfoldable pub schedule_digest_flush :
    RcaServices → RcaRequest → Option String → RcaStore → RcaStore
unfolding flush_job add_flush
schedule_digest_flush s job alert_window st =
    if s.accepts_flush
    then record st { flushes = add_flush (flush_job s job alert_window) st.flushes }
    else st

-- The rest of the `catch`: the row fails, the digest is scheduled, and the error goes on.
unfoldable pub fail_rca : RcaServices → RcaRequest → Option String → RcaStore → RcaEnd
unfolding schedule_digest_flush update_row
fail_rca s job alert_window st = record {
  store = schedule_digest_flush s job alert_window (
      if s.accepts_failed
      then record st { rows = update_row job.finding_id failed (some s.failure) st.rows }
      else st);
  completed = false;
}

-- The `try` block and what follows it.
unfoldable pub run_rca : RcaServices → RcaRequest → RcaStore → RcaEnd
unfolding fail_rca
run_rca s job st = if not s.reads_project then fail_rca s job none st else elim s.session [
  | none ↦ fail_rca s job s.alert_window st
  | some result ↦
      if s.accepts_done
      then record {
        store =
            schedule_digest_flush s job s.alert_window
              (record st { rows = update_row job.finding_id done (some result) st.rows });
        completed = s.accepts_flush;
      }
      else fail_rca s job s.alert_window st
]

unfoldable pub is_rca_capped : RcaServices → Bool
is_rca_capped s = elim s.workspace [ none ↦ false | some w ↦ w.1 && plan_eq w.0 PlanType.free ]

unfoldable pub process_rca_job : RcaServices → RcaRequest → RcaStore → RcaEnd
unfolding run_rca is_rca_capped upsert_running
process_rca_job s job st =
    if is_rca_capped s
    then record {
      store =
          if s.accepts_failed
          then record st { rows = update_row job.finding_id failed (some s.skipped) st.rows }
          else st;
      completed = true;
    }
    else if s.accepts_running
    then run_rca s job (record st { rows = upsert_running job.finding_id st.rows })
    else record { store = st; completed = false }
