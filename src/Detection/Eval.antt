-- ===== src/Detection/Eval.antt =====
-- The data of an evaluation of one trace by a model; Eval/Attempts has its steps. They are
-- runDetectionForTrace and resolveDetectorApiKey of
-- frontend/worker/src/detection/sandbox-eval.ts. The texts of prompts and of the program's own errors
-- are not modelled; the pi-ai library (registry, keys of the environment, calls) and the workspace's
-- providers are the record `Services`. `P` is the type of pi-ai's prices and `M` that of an amount.
pub mod Attempts
pub mod Pinned
pub mod Retry
pub mod Usage
pub mod Guards
pub mod Tests
use traceroot.Prelude.{
  coalesce, non_empty, String, false, ◌∷◌, suc, ◌++◌, zero, none, Bool, some, if◌then◌else◌, ◌||◌,
  get_or, Option, str_eq, true, [], ◌+◌, List, ℕ,
}
use traceroot.Models.Resolve.{
  Env, Registry, PiModel, Resolution, resolve_pi_model, ProviderModelConfig, is_system_model_id,
  no_curated_model, resolved,
}
use traceroot.Models.Catalog.{detector_system_default_model_id}

pub data Source : Type 0 where
  system byok : Source

pub record EvalDetector : Type 0 where
  pub detection_model : Option String
  pub detection_provider : Option String
  pub detection_source : Option Source

-- the arguments of a call of submit_result
pub record Submission (D : Type 0) : Type 0 where
  pub identified : Bool
  pub summary : Option String
  pub payload : Option D

pub data Content (D : Type 0) : Type 0 where
  plain_text : String → Content D
  tool_call : String → Submission D → Content D

pub data StopReason : Type 0 where
  aborted_stop error_stop other_stop : StopReason

pub record Response (M D : Type 0) : Type 0 where
  pub stop_reason : StopReason
  pub cost_total : Option M
  pub input_tokens : Option ℕ
  pub output_tokens : Option ℕ
  pub reported_model : Option String
  pub reported_provider : Option String
  pub error_message : Option String
  pub content : List (Content D)

-- How a call of `complete` ends, with the state of its abort signal.
pub data Outcome (M D : Type 0) : Type 0 where
  rejected_call : Bool → String → Outcome M D
  replied : Bool → Response M D → Outcome M D

pub data Message (M D : Type 0) : Type 0 where
  trace_prompt : Message M D
  assistant_turn : Response M D → Message M D
  reminder : Message M D

pub data EvalError : Type 0 where
  no_detection_provider : EvalError
  provider_not_found : String → EvalError
  unknown_model : String → EvalError
  no_api_key : String → EvalError
  timed_out : EvalError
  provider_error : Option String → EvalError
  thrown_error : String → EvalError
  no_submit_result : EvalError

-- What the attempts have cost so far.
pub record Tally (M : Type 0) : Type 0 where
  pub cost : M
  pub input_tokens : ℕ
  pub output_tokens : ℕ
  pub model : Option String
  pub provider : Option String

pub record EvalResult (M D : Type 0) : Type 0 where
  pub identified : Bool
  pub summary : String
  pub payload : Option D
  pub error : Option EvalError
  pub inference : Tally M
  pub inference_source : Source

-- One call of `complete` and its end.
pub record Attempt (P M D : Type 0) : Type 0 where
  pub model : PiModel P
  pub api_key : String
  pub messages : List (Message M D)
  pub outcome : Outcome M D

-- A promise rejects where the model cannot be resolved.
pub data Ended (M D : Type 0) : Type 0 where
  rejected : Ended M D
  returned : EvalResult M D → Ended M D

pub record EvalRun (P M D : Type 0) : Type 0 where
  pub attempts : List (Attempt P M D)
  pub ended : Ended M D

pub record Services (P M D : Type 0) : Type 0 where
  pub registry : Registry P
  pub env : Env
  pub env_api_key : String → Option String
  pub fetch_provider_config : String → Option ProviderModelConfig
  pub find_byok_key : String → Option String
  pub complete : ℕ → PiModel P → String → List (Message M D) → Outcome M D
  pub no_amount : M
  pub add_amount : M → M → M

abbrev pub max_attempts : ℕ
max_attempts = 2

abbrev pub submission : {D : Type 0} → List (Content D) → Option (Submission D)
submission [] = none
submission (plain_text t ∷ rest) = submission rest
submission (tool_call name a ∷ rest) =
    if str_eq name "submit_result" then some a else submission rest

abbrev pub is_aborted : StopReason → Bool
is_aborted aborted_stop = true
is_aborted error_stop = false
is_aborted other_stop = false

abbrev pub is_error : StopReason → Bool
is_error aborted_stop = false
is_error error_stop = true
is_error other_stop = false

-- What the loop does after a call.
pub data Next (M D : Type 0) : Type 0 where
  stop : EvalResult M D → Next M D
  again : Response M D → Tally M → Next M D
