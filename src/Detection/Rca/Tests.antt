-- ===== src/Detection/Rca/Tests.antt =====
-- RCA runs of a paid and of a capped workspace.

use traceroot.Detection.Rca.Coalescing.{run_rca_jobs, one_flush}
use traceroot.Detection.Run.{Text}
use traceroot.Billing.Plans.{PlanType}
use traceroot.Detection.Rca.Alerts.{flushes_of, ends_and_alerts, IsAlerted}
use traceroot.Detection.Rca.{
  window_start_for, schedule_digest_flush, window_ms, RcaRequest, RcaServices, is_rca_capped,
  RcaStore, process_rca_job, running,
}
use traceroot.Prelude.{List, arith, ◌≡◌, none, true, ◌∷◌, Bool, some, refl, Option, [], ◌≤◌, false}

abbrev services : Bool → Option Text → RcaServices
services over_cap session = record {
  workspace = some (PlanType.free, over_cap);
  accepts_running = true;
  reads_project = true;
  alert_window = some "5m";
  session = session;
  accepts_done = true;
  accepts_failed = true;
  accepts_flush = true;
  skipped = 83 ∷ [];
  failure = 70 ∷ [];
  digest_settle = 5000;
  now = 1000000;
}

abbrev request : RcaRequest
request = record { finding_id = 9; project_id = 2; finding_timestamp = some 950000 }

abbrev pending : RcaStore
pending = record {
  rows = record { finding_id = 9; status = running; result = none } ∷ [];
  flushes = [];
}

flush_result :
    (process_rca_job (services false none) request pending).store.flushes
    ≡ record { project_id = 2; window_start = 900000; window = 300000; delay = 205000 } ∷ []
unfolding process_rca_job schedule_digest_flush
flush_result = refl

ends_and_alerts_example :
    IsAlerted request 900000 (process_rca_job (services false none) request pending).store
unfolding is_rca_capped window_ms window_start_for
ends_and_alerts_example = ends_and_alerts (services false none) request refl refl pending refl refl

abbrev two_runs : List (RcaServices × RcaRequest)
two_runs = (services false none, request) ∷ (services false (some (79 ∷ [])), request) ∷ []

one_flush_example : flushes_of 2 900000 (run_rca_jobs two_runs pending).flushes ≤ 1
one_flush_example = one_flush two_runs 2 900000 pending (omega arith)
