-- ===== src/Detection/Eval/Attempts.antt =====
-- The calls of an evaluation and the guards in front of them, from the reply of one call to the
-- whole of runDetectionForTrace.

use traceroot.Prelude.{
  coalesce, List, [], suc, non_empty, some, Option, ◌++◌, String, ◌||◌, zero, get_or, ◌∷◌,
  if◌then◌else◌, none, false, ◌+◌, ℕ,
}
use traceroot.Models.Resolve.{
  PiModel, Resolution, ProviderModelConfig, is_system_model_id, resolve_pi_model, no_curated_model,
  resolved,
}
use traceroot.Models.Catalog.{detector_system_default_model_id}
use traceroot.Detection.Eval.{
  is_aborted, is_error, submission, max_attempts, rejected_call, replied, stop, again, rejected,
  returned, system, byok, trace_prompt, assistant_turn, reminder, no_detection_provider,
  provider_not_found, unknown_model, no_api_key, timed_out, provider_error, thrown_error,
  no_submit_result, Next, Source, Submission, Response, Tally, EvalResult, Outcome, Message,
  Attempt, EvalRun, Services, EvalError, EvalDetector,
}

module _ {P M D : Type 0} (s : Services P M D) where
  abbrev pub empty_tally : Tally M
  empty_tally = record {
    cost = s.no_amount;
    input_tokens = 0;
    output_tokens = 0;
    model = none;
    provider = none;
  }

  unfoldable pub add_usage : Response M D → Tally M → Tally M
  add_usage r t = record {
    cost = s.add_amount t.cost (get_or r.cost_total s.no_amount);
    input_tokens = t.input_tokens + get_or r.input_tokens 0;
    output_tokens = t.output_tokens + get_or r.output_tokens 0;
    model = coalesce r.reported_model t.model;
    provider = coalesce r.reported_provider t.provider;
  }

  unfoldable pub error_result : EvalError → Source → Tally M → EvalResult M D
  error_result e source t = record {
    identified = false;
    summary = "Analysis failed";
    payload = none;
    error = some e;
    inference = t;
    inference_source = source;
  }

  unfoldable pub submitted : Submission D → Source → Tally M → EvalResult M D
  submitted a source t = record {
    identified = a.identified;
    summary = get_or a.summary "";
    payload = a.payload;
    error = none;
    inference = t;
    inference_source = source;
  }

  unfoldable pub on_reply : Source → Tally M → Response M D → Next M D
  unfolding add_usage error_result submitted
  on_reply source t r = elim (submission r.content) [
    | some a ↦ stop (submitted a source (add_usage r t))
    | none ↦
        if is_error r.stop_reason
        then stop (error_result (provider_error (non_empty r.error_message)) source (add_usage r t))
        else again r (add_usage r t)
  ]

  unfoldable pub on_outcome : Source → Tally M → Outcome M D → Next M D
  unfolding on_reply error_result
  on_outcome source t (rejected_call aborted message) =
      stop (error_result (if aborted then timed_out else thrown_error message) source t)
  on_outcome source t (replied aborted r) =
      if aborted || is_aborted r.stop_reason
      then stop (error_result timed_out source t)
      else on_reply source t r

  -- the run that a call ends, or that goes on with the rest
  abbrev pub proceed :
      Attempt P M D → Next M D → (Response M D → Tally M → EvalRun P M D) → EvalRun P M D
  proceed a (stop r) rest = record { attempts = a ∷ []; ended = returned r }
  proceed a (again r t) rest = record {
    attempts = a ∷ (rest r t).attempts;
    ended = (rest r t).ended;
  }

  -- The loop: the attempts that are left, the number of this one, the conversation and the tally.
  unfoldable pub attempt_loop :
      Source → PiModel P → String → ℕ → ℕ → List (Message M D) → Tally M → EvalRun P M D
  unfolding on_outcome
  attempt_loop source m key zero attempt messages t = record {
    attempts = [];
    ended = returned (error_result no_submit_result source t);
  }
  attempt_loop source m key (suc left) attempt messages t =
      let outcome = s.complete attempt m key messages in
      let this : Attempt P M D = record {
        model = m;
        api_key = key;
        messages = messages;
        outcome = outcome;
      } in
      proceed this (on_outcome source t outcome) (λ r t'.
        attempt_loop source m key left (attempt + 1) (messages ++ assistant_turn r ∷ reminder ∷ [])
          t')

  -- the BYOK row's key, or else that of the environment, or else any row's of the same provider
  unfoldable pub resolve_detector_api_key : Option ProviderModelConfig → String → Option String
  resolve_detector_api_key (some c) provider = some c.key
  resolve_detector_api_key none provider = elim (non_empty (s.env_api_key provider)) [
    | some key ↦ some key
    | none ↦ s.find_byok_key provider
  ]

  abbrev pub fail : Source → EvalError → EvalRun P M D
  fail source e = record { attempts = []; ended = returned (error_result e source empty_tally) }

  unfoldable pub with_model : Source → Option ProviderModelConfig → PiModel P → EvalRun P M D
  unfolding resolve_detector_api_key attempt_loop error_result
  with_model source config m = elim (non_empty (resolve_detector_api_key config m.provider)) [
    | none ↦ fail source (no_api_key m.provider)
    | some key ↦ attempt_loop source m key max_attempts 1 (trace_prompt ∷ []) empty_tally
  ]

  abbrev pub on_resolution : Source → Option ProviderModelConfig → Resolution P → EvalRun P M D
  on_resolution source config no_curated_model = record { attempts = []; ended = rejected }
  on_resolution source config (resolved none) = record { attempts = []; ended = rejected }
  on_resolution source config (resolved (some m)) = with_model source config m

  -- `detectionModel ?? default`
  abbrev pub wanted_model : Source → Option String → Option String
  wanted_model source (some id) = some id
  wanted_model system none = some detector_system_default_model_id
  wanted_model byok none = none

  -- the pinned id that is no system model's
  abbrev pub unknown_pin : Option ProviderModelConfig → Option String → Option String
  unknown_pin (some c) id = none
  unknown_pin none id = elim (non_empty id) [
    | none ↦ none
    | some pin ↦ if is_system_model_id pin then none else some pin
  ]

  unfoldable pub with_config : Source → Option ProviderModelConfig → Option String → EvalRun P M D
  unfolding with_model error_result
  with_config source config wanted = elim (unknown_pin config wanted) [
    | some pin ↦ fail source (unknown_model pin)
    | none ↦ on_resolution source config (resolve_pi_model s.registry s.env wanted config)
  ]

  unfoldable pub run_byok : EvalDetector → EvalRun P M D
  unfolding with_config error_result
  run_byok d = elim (non_empty d.detection_provider) [
    | none ↦ fail byok no_detection_provider
    | some label ↦ elim (s.fetch_provider_config label) [
      | none ↦ fail byok (provider_not_found label)
      | some c ↦ with_config byok (some c) (wanted_model byok d.detection_model)
    ]
  ]

  unfoldable pub run_detection_for_trace : EvalDetector → EvalRun P M D
  unfolding run_byok with_config
  run_detection_for_trace d = elim (get_or d.detection_source system) [
    | byok ↦ run_byok d
    | system ↦ with_config system none (wanted_model system d.detection_model)
  ]
