-- ===== src/Detection/Eval/Tests.antt =====
-- A detector on the default model: a model that answers in plain text first, and one that never does.

use traceroot.Models.Resolve.Laws.{IsRegistry}
use traceroot.Models.Catalog.{detector_system_default_model_id}
use traceroot.Detection.Eval.Usage.{
  total_input, says_identified, evaluation_account, total_output, submits, total_cost,
}
use traceroot.Detection.Eval.Retry.{one_retry, IsRetriedOnce}
use traceroot.Detection.Eval.Pinned.{no_substitution}
use traceroot.Prelude.{
  eq_iff, ◌≢◌, String, ap, any, All, sym, is_none, false≢true, some, true, ◌∷◌, ◌≡◌, if◌then◌else◌,
  refl, false, ◌==◌, none, ◌+◌, [], ℕ,
}
use traceroot.Detection.Eval.{
  Attempt, EvalResult, Response, EvalDetector, Services, Outcome, replied, other_stop, plain_text,
  tool_call, returned, system,
}
use traceroot.Detection.Eval.Attempts.{run_detection_for_trace}
use traceroot.Models.Resolve.{
  Registry, PiModel, resolve_system, is_system_model_id, resolve_pi_model,
}

abbrev talk : Response ℕ ℕ
talk = record {
  stop_reason = other_stop;
  cost_total = some 5;
  input_tokens = some 100;
  output_tokens = some 7;
  reported_model = some "claude-haiku-4-5";
  reported_provider = some "anthropic";
  error_message = none;
  content = plain_text "It looks fine." ∷ [];
}

abbrev verdict : Response ℕ ℕ
verdict = record talk {
  content =
      tool_call "submit_result"
        (record { identified = true; summary = some "A loop."; payload = none })
      ∷ [];
}

abbrev answers : ℕ → Outcome ℕ ℕ
answers n = if n == 1 then replied false talk else replied false verdict

abbrev listed : String → String → PiModel ℕ
listed provider id = record {
  id = id;
  name = id;
  api = "anthropic-messages";
  provider = provider;
  base_url = "https://api.anthropic.com";
  reasoning = true;
  inputs = "text" ∷ [];
  cost = 3;
  context_window = 200000;
  max_tokens = 64000;
}

abbrev listing : Registry ℕ
listing = record { get_model = λ provider id. some (listed provider id); no_cost = 0 }

listing-IsRegistry : IsRegistry listing
listing-IsRegistry provider id m e =
    let same : listed provider id ≡ m = cc in
    (ap (λ (k : PiModel ℕ). k.id) (sym same), ap (λ (k : PiModel ℕ). k.provider) (sym same))

abbrev local : Services ℕ ℕ ℕ
local = record {
  registry = listing;
  env = λ name. none;
  env_api_key = λ provider. some "key";
  fetch_provider_config = λ label. none;
  find_byok_key = λ provider. none;
  complete = λ attempt m key messages. answers attempt;
  no_amount = 0;
  add_amount = λ a b. a + b;
}

abbrev unset : EvalDetector
unset = record { detection_model = none; detection_provider = none; detection_source = none }

abbrev expected : EvalResult ℕ ℕ
expected = record {
  identified = true;
  summary = "A loop.";
  payload = none;
  error = none;
  inference = record {
    cost = 10;
    input_tokens = 200;
    output_tokens = 14;
    model = some "claude-haiku-4-5";
    provider = some "anthropic";
  };
  inference_source = system;
}

unset_result : (run_detection_for_trace local unset).ended ≡ returned expected
unfolding run_detection_for_trace resolve_pi_model resolve_system is_system_model_id
unset_result = refl

evaluation_account_example :
    (expected.inference.cost ≡ total_cost local 0 (run_detection_for_trace local unset).attempts)
    × (expected.inference.input_tokens ≡ total_input (run_detection_for_trace local unset).attempts)
    × (expected.inference.output_tokens
        ≡ total_output (run_detection_for_trace local unset).attempts)
    × (expected.identified ≡ any says_identified (run_detection_for_trace local unset).attempts)
    × (is_none expected.error ≡ any submits (run_detection_for_trace local unset).attempts)
evaluation_account_example = evaluation_account local unset unset_result

one_retry_example : IsRetriedOnce (run_detection_for_trace local unset).attempts
one_retry_example = one_retry local unset

default_named : detector_system_default_model_id ≢ ""
default_named h = false≢true ((eq_iff detector_system_default_model_id "").1 h)

no_substitution_example :
    All
      (λ (a : Attempt ℕ ℕ ℕ). a.model.id ≡ "claude-haiku-4-5")
      (run_detection_for_trace local unset).attempts
no_substitution_example = no_substitution local unset listing-IsRegistry refl default_named
