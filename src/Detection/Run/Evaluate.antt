-- ===== src/Detection/Run/Evaluate.antt =====
-- The steps of an attempt, of frontend/worker/src/processors/detector-run-processor.ts: the detectors'
-- rows, the AI messages, the finding and the RCA job, and the job's handler.
use traceroot.Billing.Plans.{plan_eq, PlanType}
use traceroot.Detection.Run.{
  Ids, Message, Finding, combined_summary, Evaluation, Services, Status, Store, run_failed, RcaJob,
  Detector, should_run_rca, ScanUsage, RunRow, run_completed, evaluator_delay,
  detector_inference_cost, TriggeredResult, clean, threw, identified,
}
use traceroot.Prelude.{
  not, ◌++◌, some, ◌-◌, map, false, [], any, is_some, if◌then◌else◌, ◌&&◌, Bool, Option, ◌==◌, ◌+◌,
  none, true, ◌∷◌, List, leb, keep, ℕ,
}

module _ (Cost : Type 0) (positive : Cost → Bool) where
  pub record Project : Type 0 where
    pub workspace_id : ℕ
    pub billing_plan : PlanType
    pub detector_blocked : Bool

  -- How an attempt ends: with the store it leaves, completed, or thrown for the queue to retry.
  pub record Attempt : Type 0 where
    pub store : Store Cost positive
    pub completed : Bool

  -- `writeDetectorRun...).catch...)`
  unfoldable pub write_run :
      (Services Cost positive) → RunRow → (Store Cost positive) → (Store Cost positive)
  write_run s row st = if s.accepts_run row then record st { runs = st.runs ++ row ∷ [] } else st

  abbrev pub write_all :
      (Services Cost positive) → List RunRow → (Store Cost positive) → (Store Cost positive)
  write_all s [] st = st
  write_all s (row ∷ rows) st = write_all s rows (write_run s row st)

  abbrev status_of : Bool → Status
  status_of error = if error then run_failed else run_completed

  -- `runSingleDetector`: the row that it writes, what it triggers, and the usage it returns
  abbrev pub own_row :
      (Ids Cost positive) → ℕ → Detector → (Evaluation Cost positive) → Option RunRow
  own_row ids trace_id d threw = some (record {
    run_id = ids.run_id trace_id d.id;
    detector_id = d.id;
    finding_id = none;
    status = run_failed;
    timestamp = none;
  })
  own_row ids trace_id d (clean error usage) = some (record {
    run_id = ids.run_id trace_id d.id;
    detector_id = d.id;
    finding_id = none;
    status = status_of error;
    timestamp = none;
  })
  own_row ids trace_id d (identified summary usage) = none

  abbrev pub triggered_by : Detector → (Evaluation Cost positive) → Option TriggeredResult
  triggered_by d threw = none
  triggered_by d (clean error usage) = none
  triggered_by d (identified summary usage) =
      some (record { detector_id = d.id; detector_name = d.name; summary = summary })

  abbrev pub usage_of : (Evaluation Cost positive) → Option (ScanUsage Cost positive)
  usage_of threw = none
  usage_of (clean error usage) = some usage
  usage_of (identified summary usage) = some usage

  abbrev pub write_own :
      (Services Cost positive) → Option RunRow → (Store Cost positive) → (Store Cost positive)
  write_own s none st = st
  write_own s (some row) st = write_run s row st

  unfoldable pub run_detectors :
      (Services Cost positive)
      → (Ids Cost positive)
      → ℕ
      → List Detector
      → (Store Cost positive)
      → (Store Cost positive)
  unfolding write_run
  run_detectors s ids trace_id [] st = st
  run_detectors s ids trace_id (d ∷ ds) st =
      run_detectors s ids trace_id ds (write_own s (own_row ids trace_id d (s.evaluate d)) st)

  abbrev pub add_some : {A : Type 0} → Option A → List A → List A
  add_some none xs = xs
  add_some (some x) xs = x ∷ xs

  abbrev pub triggered_of : (Services Cost positive) → List Detector → List TriggeredResult
  triggered_of s [] = []
  triggered_of s (d ∷ ds) = add_some (triggered_by d (s.evaluate d)) (triggered_of s ds)

  abbrev pub usages_of : (Services Cost positive) → List Detector → List (ScanUsage Cost positive)
  usages_of s [] = []
  usages_of s (d ∷ ds) = add_some (usage_of (s.evaluate d)) (usages_of s ds)

  -- one AI message for each scan with a known model
  unfoldable pub message_rows :
      (Services Cost positive) → List (ScanUsage Cost positive) → List (Message Cost positive)
  unfolding detector_inference_cost
  message_rows s usages =
      map
        (λ (u : (ScanUsage Cost positive)). record {
          model = u.inference_model;
          is_byok = u.is_byok;
          input_tokens = u.inference_input_tokens;
          output_tokens = u.inference_output_tokens;
          cost = detector_inference_cost Cost positive s.calculate_cost u;
        })
        (keep (λ (u : (ScanUsage Cost positive)). is_some u.inference_model) usages)

  -- A failed write is caught. Without a project there is no workspace to write for.
  unfoldable pub write_messages :
      (Services Cost positive)
      → Option Project
      → List (ScanUsage Cost positive)
      → (Store Cost positive)
      → (Store Cost positive)
  unfolding message_rows
  write_messages s none usages st = st
  write_messages s (some p) usages st =
      if s.accepts_messages
      then record st { messages = st.messages ++ message_rows s usages }
      else st

  unfoldable pub triggered_row :
      (Services Cost positive) → (Ids Cost positive) → ℕ → TriggeredResult → RunRow
  triggered_row s ids trace_id r = record {
    run_id = ids.run_id trace_id r.detector_id;
    detector_id = r.detector_id;
    finding_id = some (ids.finding_id trace_id);
    status = run_completed;
    timestamp = some s.now;
  }

  -- the queue ignores a job whose id, `rca-` and the finding's, it holds
  unfoldable pub add_rca_job : RcaJob → List RcaJob → List RcaJob
  add_rca_job job jobs =
      if any (λ (j : RcaJob). j.finding_id == job.finding_id) jobs then jobs else jobs ++ job ∷ []

  -- `upsert` of a pending row
  unfoldable pub seed_rca :
      (Services Cost positive) → ℕ → (Store Cost positive) → (Store Cost positive)
  seed_rca s id st =
      if s.accepts_rca_seed && not (any (λ i. i == id) st.rca_pending)
      then record st { rca_pending = st.rca_pending ++ id ∷ [] }
      else st

  unfoldable pub queue_rca :
      (Services Cost positive)
      → (Ids Cost positive)
      → ℕ
      → List TriggeredResult
      → List Detector
      → (Store Cost positive)
      → Attempt
  unfolding should_run_rca seed_rca add_rca_job
  queue_rca s ids trace_id triggered detectors st =
      if should_run_rca triggered detectors
      then (let seeded = seed_rca s (ids.finding_id trace_id) st in
          if s.accepts_rca_job
          then record {
            store = record seeded {
              rca_jobs =
                  add_rca_job
                    (record {
                      finding_id = ids.finding_id trace_id;
                      trace_id = trace_id;
                      findings = triggered;
                      finding_timestamp = s.now;
                    })
                    seeded.rca_jobs;
            };
            completed = true;
          }
          else record { store = seeded; completed = false })
      else record { store = st; completed = true }

  abbrev pub finding_of :
      (Services Cost positive) → (Ids Cost positive) → ℕ → List TriggeredResult → Finding
  finding_of s ids trace_id triggered = record {
    finding_id = ids.finding_id trace_id;
    trace_id = trace_id;
    summary = combined_summary triggered;
    payload = triggered;
    timestamp = s.now;
  }

  -- From the triggered results on: the finding, its runs, and the RCA.
  unfoldable pub record_finding :
      (Services Cost positive)
      → (Ids Cost positive)
      → ℕ
      → List TriggeredResult
      → List Detector
      → (Store Cost positive)
      → Attempt
  unfolding triggered_row write_run queue_rca
  record_finding s ids trace_id [] detectors st = record { store = st; completed = true }
  record_finding s ids trace_id (r ∷ rs) detectors st =
      if s.accepts_finding
      then queue_rca s ids trace_id (r ∷ rs) detectors (
          write_all s (map (triggered_row s ids trace_id) (r ∷ rs))
            (record st { findings = st.findings ++ finding_of s ids trace_id (r ∷ rs) ∷ [] }))
      else record { store = st; completed = false }

  -- `findMany{ id in detectorIds, enabled })`
  abbrev pub selected : List ℕ → List Detector → List Detector
  selected detector_ids table =
      keep (λ (d : Detector). d.enabled && any (λ i. i == d.id) detector_ids) table

  unfoldable pub is_capped : Option Project → Bool
  is_capped none = false
  is_capped (some p) = p.detector_blocked && plan_eq p.billing_plan PlanType.free

  unfoldable pub evaluate_trace :
      (Services Cost positive)
      → (Ids Cost positive)
      → List Detector
      → Option Project
      → List ℕ
      → ℕ
      → (Store Cost positive)
      → Attempt
  unfolding is_capped run_detectors write_messages record_finding
  evaluate_trace s ids table project detector_ids trace_id st =
      if is_capped project
      then record { store = st; completed = true }
      else (let detectors = selected detector_ids table in
          let ran = run_detectors s ids trace_id detectors st in
          let billed = write_messages s project (usages_of s detectors) ran in
          record_finding s ids trace_id (triggered_of s detectors) detectors billed)

  unfoldable pub failed_row : (Ids Cost positive) → ℕ → ℕ → RunRow
  failed_row ids trace_id detector_id = record {
    run_id = ids.run_id trace_id detector_id;
    detector_id = detector_id;
    finding_id = none;
    status = run_failed;
    timestamp = none;
  }

  -- `processTrace`; `downloaded` says whether the spans could be fetched
  unfoldable pub process_trace :
      Bool
      → (Services Cost positive)
      → (Ids Cost positive)
      → List Detector
      → Option Project
      → List ℕ
      → ℕ
      → (Store Cost positive)
      → Attempt
  unfolding evaluate_trace failed_row write_run
  process_trace downloaded s ids table project detector_ids trace_id st =
      if downloaded then evaluate_trace s ids table project detector_ids trace_id st else record {
        store = write_all s (map (failed_row ids trace_id) detector_ids) st;
        completed = true;
      }

  -- How the handler of a job ends: as the attempt did, with the job moved to a later time, or thrown.
  pub data JobResult : Type 0 where
    attempted : Attempt → JobResult
    delayed : ℕ → JobResult
    thrown : JobResult

  -- `handleDetectorRunJob`; `quiet` is the time since the last span, `none` if it cannot be fetched
  unfoldable pub handle_detector_run_job :
      Option ℕ
      → Bool
      → (Services Cost positive)
      → (Ids Cost positive)
      → List Detector
      → Option Project
      → List ℕ
      → ℕ
      → (Store Cost positive)
      → JobResult
  unfolding process_trace
  handle_detector_run_job quiet downloaded s ids table project [] trace_id st =
      attempted (record { store = st; completed = true })
  handle_detector_run_job none downloaded s ids table project (i ∷ is) trace_id st = thrown
  handle_detector_run_job (some age) downloaded s ids table project (i ∷ is) trace_id st =
      if leb evaluator_delay age
      then attempted (process_trace downloaded s ids table project (i ∷ is) trace_id st)
      else delayed (s.now + (evaluator_delay - age))
