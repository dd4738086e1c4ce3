-- ===== src/Detection/Run/Tests.antt =====
-- Two detectors on a trace that trigger, one that does not, and a retry after a lost queue.
use traceroot.Detection.Run.{
  Ids, Detector, Services, Evaluation, RunRow, RcaJob, Store, Message, ScanUsage, clean, identified,
}
use traceroot.Detection.Run.Evaluate.{evaluate_trace, is_capped, Attempt, Project}
use traceroot.Detection.Run.Rca.{Try, has_job, one_rca_job, run_tries, jobs_of}
use traceroot.Billing.Plans.{PlanType}
use traceroot.Detection.Run.Rows.{rows_of, linked_rows_of, each_detector_recorded}
use traceroot.Detection.Run.Enabled.{rca_iff_enabled}
use traceroot.Prelude.{
  ◌+◌, map, false, arith, Bool, some, ◌∷◌, ◌*◌, true, Option, List, [], ◌≡◌, refl, ◌==◌, ◌≤◌,
  if◌then◌else◌, ltb, ℕ,
}

abbrev positive_cost : ℕ → Bool
positive_cost c = ltb 0 c

abbrev detector_of : ℕ → Bool → Detector
detector_of id enable_rca = record {
  id = id;
  name = 100 ∷ [];
  enabled = true;
  enable_rca = enable_rca;
}

abbrev detectors : List Detector
detectors = detector_of 1 false ∷ detector_of 2 true ∷ detector_of 3 true ∷ []

abbrev scan : ScanUsage ℕ positive_cost
scan = record {
  inference_cost = 0;
  inference_input_tokens = 10;
  inference_output_tokens = 5;
  is_byok = false;
  inference_model = some 7;
}

abbrev judge : Detector → Evaluation ℕ positive_cost
judge d = if d.id == 3 then clean true scan else identified (115 ∷ []) scan

abbrev services : Bool → ℕ → Services ℕ positive_cost
services queue now = record {
  evaluate = judge;
  calculate_cost = λ model tokens_in tokens_out. some (tokens_in + tokens_out);
  accepts_run = λ row. true;
  accepts_messages = true;
  accepts_finding = true;
  accepts_rca_seed = true;
  accepts_rca_job = queue;
  now = now;
}

abbrev ids : Ids ℕ positive_cost
ids = record { run_id = λ t d. 100 * t + d; finding_id = λ t. 1000 + t }

abbrev project : Option (Project ℕ positive_cost)
project = some (record { workspace_id = 1; billing_plan = PlanType.free; detector_blocked = false })

abbrev empty : Store ℕ positive_cost
empty = record { runs = []; findings = []; messages = []; rca_pending = []; rca_jobs = [] }

abbrev evaluated : Attempt ℕ positive_cost
evaluated =
    evaluate_trace ℕ positive_cost (services true 5) ids detectors project (1 ∷ 2 ∷ 3 ∷ 4 ∷ []) 6
      empty

evaluated_result :
    (map (λ (r : RunRow). r.detector_id) evaluated.store.runs ≡ 3 ∷ 1 ∷ 2 ∷ [])
    × (map (λ (m : Message ℕ positive_cost). m.cost) evaluated.store.messages ≡ 15 ∷ 15 ∷ 15 ∷ [])
    × (map (λ (j : RcaJob). j.finding_id) evaluated.store.rca_jobs ≡ 1006 ∷ [])
unfolding evaluate_trace
evaluated_result = (refl, refl, refl)

each_detector_recorded_example :
    (rows_of 2 evaluated.store.runs ≡ 1) × (linked_rows_of 2 evaluated.store.runs ≡ 1)
unfolding is_capped
each_detector_recorded_example =
    each_detector_recorded ℕ positive_cost (services true 5) ids (λ row. refl) detectors project
      (1 ∷ 2 ∷ 3 ∷ 4 ∷ []) 6 2 empty refl refl

rca_iff_enabled_example : has_job 1006 evaluated.store.rca_jobs ≡ true
unfolding is_capped
rca_iff_enabled_example =
    rca_iff_enabled ℕ positive_cost (services true 5) ids detectors project (1 ∷ 2 ∷ 3 ∷ 4 ∷ []) 6
      empty (refl, (refl, (refl, tt))) refl refl refl

abbrev try_at : Bool → ℕ → Try ℕ positive_cost ids
try_at queue now = record {
  downloaded = true;
  services = services queue now;
  table = detectors;
  project = project;
  detector_ids = 1 ∷ 2 ∷ 3 ∷ [];
  trace_id = 6;
}

one_rca_job_example :
    jobs_of 1006
      (run_tries ℕ positive_cost ids
        (try_at false 1 ∷ try_at true 2 ∷ try_at true 3 ∷ [])
        empty).rca_jobs
    ≤ 1
one_rca_job_example =
    one_rca_job ℕ positive_cost ids (try_at false 1 ∷ try_at true 2 ∷ try_at true 3 ∷ []) 1006 empty
      (omega arith)
