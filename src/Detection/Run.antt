-- ===== src/Detection/Run.antt =====
-- frontend/worker/src/processors/detector-run-processor.ts: the job that runs detectors on a trace.
-- Ids and times are numbers, a text is its list of code points. ClickHouse tables are lists in the
-- order of the writes; the parallel runs are taken in the order of the detectors. The hashes, the
-- evaluation by a model and the answers of the services are parameters. `withSelfTrace` never
-- rejects, and every write of a run is caught, so every run settles as fulfilled. The
-- reads of detectors and project are taken to succeed: where they throw, the job ends before it writes.
use traceroot.Billing.Plans.{free, PlanType, plan_eq}
pub mod Evaluate
pub mod Rows
pub mod Rca
pub mod Enabled
pub mod Settling
pub mod Tests
use traceroot.Prelude.{
  ◌-◌, is_some, ◌&&◌, false, keep, map, not, if◌then◌else◌, leb, ◌∷◌, none, [], Bool, Option, ◌++◌,
  any, some, List, ◌==◌, ◌+◌, true, ℕ,
}

abbrev pub Text : Type 0
Text = List ℕ

pub record Detector : Type 0 where
  pub id : ℕ
  pub name : Text
  pub enabled : Bool
  pub enable_rca : Bool

pub data Status : Type 0 where
  run_completed run_failed : Status

-- a row of detector_runs
pub record RunRow : Type 0 where
  pub run_id : ℕ
  pub detector_id : ℕ
  pub finding_id : Option ℕ
  pub status : Status
  pub timestamp : Option ℕ

pub record TriggeredResult : Type 0 where
  pub detector_id : ℕ
  pub detector_name : Text
  pub summary : Text

-- a row of detector_findings
pub record Finding : Type 0 where
  pub finding_id : ℕ
  pub trace_id : ℕ
  pub summary : Text
  pub payload : List TriggeredResult
  pub timestamp : ℕ

-- a job of the RCA queue
pub record RcaJob : Type 0 where
  pub finding_id : ℕ
  pub trace_id : ℕ
  pub findings : List TriggeredResult
  pub finding_timestamp : ℕ

-- `shouldRunRca`: the map's entry for an id is the last one
rca_enabled : ℕ → List Detector → Option Bool
rca_enabled id [] = none
rca_enabled id (d ∷ ds) = elim (rca_enabled id ds) [
  | some b ↦ some b
  | none ↦ if d.id == id then some d.enable_rca else none
]

abbrev not_disabled : Option Bool → Bool
not_disabled none = true
not_disabled (some b) = b

unfoldable pub should_run_rca : List TriggeredResult → List Detector → Bool
unfolding rca_enabled
should_run_rca triggered detectors =
    any (λ (t : TriggeredResult). not_disabled (rca_enabled t.detector_id detectors)) triggered

-- `[name] summary` on a line for each detector
abbrev pub combined_summary : List TriggeredResult → Text
combined_summary [] = []
combined_summary (r ∷ []) = 91 ∷ r.detector_name ++ 93 ∷ 32 ∷ r.summary
combined_summary (r ∷ s ∷ rs) =
    91 ∷ r.detector_name ++ 93 ∷ 32 ∷ r.summary ++ 10 ∷ combined_summary (s ∷ rs)

-- `EVALUATOR_DELAY` of frontend/worker/src/queues/detector-run-queue.ts, in milliseconds
abbrev pub evaluator_delay : ℕ
evaluator_delay = 60000

module _ (Cost : Type 0) (positive : Cost → Bool) where
  pub record ScanUsage : Type 0 where
    pub inference_cost : Cost
    pub inference_input_tokens : ℕ
    pub inference_output_tokens : ℕ
    pub is_byok : Bool
    pub inference_model : Option ℕ

  -- `detectorInferenceCost`; `calculate_cost` is `none` where the price lookup throws
  unfoldable pub detector_inference_cost : (ℕ → ℕ → ℕ → Option Cost) → ScanUsage → Cost
  detector_inference_cost calculate_cost usage =
      if positive usage.inference_cost then usage.inference_cost else elim usage.inference_model [
        | none ↦ usage.inference_cost
        | some model ↦
            if leb (usage.inference_input_tokens + usage.inference_output_tokens) 0
            then usage.inference_cost
            else elim (calculate_cost model usage.inference_input_tokens
                usage.inference_output_tokens) [
                  | none ↦ usage.inference_cost
                  | some fallback ↦ if positive fallback then fallback else usage.inference_cost
                ]
      ]

  -- a row of the AI messages that the billing job counts
  pub record Message : Type 0 where
    pub model : Option ℕ
    pub is_byok : Bool
    pub input_tokens : ℕ
    pub output_tokens : ℕ
    pub cost : Cost

  -- How the evaluation of one detector ends.
  pub data Evaluation : Type 0 where
    threw : Evaluation
    clean : Bool → ScanUsage → Evaluation
    identified : Text → ScanUsage → Evaluation

  -- What the tables and the RCA queue hold.
  pub record Store : Type 0 where
    pub runs : List RunRow
    pub findings : List Finding
    pub messages : List Message
    pub rca_pending : List ℕ
    pub rca_jobs : List RcaJob

  -- What the services answer in one attempt.
  pub record Services : Type 0 where
    pub evaluate : Detector → Evaluation
    pub calculate_cost : ℕ → ℕ → ℕ → Option Cost
    pub accepts_run : RunRow → Bool
    pub accepts_messages : Bool
    pub accepts_finding : Bool
    pub accepts_rca_seed : Bool
    pub accepts_rca_job : Bool
    pub now : ℕ

  -- The ids of the two hashes, for one project.
  pub record Ids : Type 0 where
    pub run_id : ℕ → ℕ → ℕ
    pub finding_id : ℕ → ℕ
