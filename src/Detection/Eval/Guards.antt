-- ===== src/Detection/Eval/Guards.antt =====
-- The ways an evaluation can go: a guard ends it, the model cannot be resolved, or the loop runs.

use traceroot.Prelude.{
  non_empty, inr, Option, inl, ◌∷◌, none, Option-cases, [], refl, some, get_or, String, ◌≡◌,
}
use traceroot.Detection.Eval.{
  Services, provider_not_found, max_attempts, Source, no_api_key, EvalDetector, EvalRun,
  unknown_model, EvalError, no_detection_provider, trace_prompt, rejected, system, byok,
}
use traceroot.Detection.Eval.Attempts.{
  run_byok, wanted_model, attempt_loop, on_resolution, resolve_detector_api_key, fail, empty_tally,
  run_detection_for_trace, with_model, unknown_pin, with_config,
}
use traceroot.Models.Resolve.{
  ProviderModelConfig, PiModel, resolve_pi_model, Resolution, no_curated_model, resolved,
}

module _ {P M D : Type 0} (s : Services P M D) (Q : EvalRun P M D → Type 0) where
  -- what holds of a run that no call is made in
  abbrev pub HoldsUncalled : Type 0
  HoldsUncalled =
      ((source : Source) (e : EvalError) → Q (fail s source e))
      × Q (record { attempts = []; ended = rejected })

  -- what holds of the loop with a model that the request resolves to
  abbrev pub HoldsCalled : Source → Option ProviderModelConfig → Option String → Type 0
  HoldsCalled source config wanted =
      (m : PiModel P) (key : String)
      → unknown_pin s config wanted ≡ none
      → resolve_pi_model s.registry s.env wanted config ≡ resolved (some m)
      → Q (attempt_loop s source m key max_attempts 1 (trace_prompt ∷ []) (empty_tally s))

  with_model_cases :
      (source : Source) (config : Option ProviderModelConfig) (m : PiModel P)
      → HoldsUncalled
      → ((key : String)
          → Q (attempt_loop s source m key max_attempts 1 (trace_prompt ∷ []) (empty_tally s)))
      → Q (with_model s source config m)
  unfolding with_model
  with_model_cases source config m uncalled f =
      elim (Option-cases (non_empty (resolve_detector_api_key s config m.provider))) [
        | inl e ↦ rw (with_model, e) (uncalled.0 source (no_api_key m.provider))
        | inr (key, e) ↦ rw (with_model, e) (f key)
      ]

  on_resolution_cases :
      (source : Source) (config : Option ProviderModelConfig) (wanted : Option String)
      (r : Resolution P)
      → resolve_pi_model s.registry s.env wanted config ≡ r
      → unknown_pin s config wanted ≡ none
      → HoldsUncalled
      → HoldsCalled source config wanted
      → Q (on_resolution s source config r)
  on_resolution_cases source config wanted no_curated_model e pin uncalled f = uncalled.1
  on_resolution_cases source config wanted (resolved none) e pin uncalled f = uncalled.1
  on_resolution_cases source config wanted (resolved (some m)) e pin uncalled f =
      with_model_cases source config m uncalled (λ key. f m key pin e)

  pub with_config_cases :
      (source : Source) (config : Option ProviderModelConfig) (wanted : Option String)
      → HoldsUncalled
      → HoldsCalled source config wanted
      → Q (with_config s source config wanted)
  unfolding with_config
  with_config_cases source config wanted uncalled f =
      elim (Option-cases (unknown_pin s config wanted)) [
        | inr (pin, e) ↦ rw (with_config, e) (uncalled.0 source (unknown_model pin))
        | inl e ↦
            rw (with_config, e)
              (on_resolution_cases source config wanted
                (resolve_pi_model s.registry s.env wanted config) refl e uncalled f)
      ]

  run_byok_cases :
      (d : EvalDetector)
      → HoldsUncalled
      → ((c : ProviderModelConfig)
          → HoldsCalled byok (some c) (wanted_model s byok d.detection_model))
      → Q (run_byok s d)
  unfolding run_byok
  run_byok_cases d uncalled f = elim (Option-cases (non_empty d.detection_provider)) [
    | inl e ↦ rw (run_byok, e) (uncalled.0 byok no_detection_provider)
    | inr (label, e) ↦ elim (Option-cases (s.fetch_provider_config label)) [
      | inl g ↦ rw (run_byok, e, g) (uncalled.0 byok (provider_not_found label))
      | inr (c, g) ↦
          rw (run_byok, e, g)
            (with_config_cases byok (some c) (wanted_model s byok d.detection_model) uncalled (f c))
    ]
  ]

  pub run_cases :
      (d : EvalDetector)
      → HoldsUncalled
      → HoldsCalled system none (wanted_model s system d.detection_model)
      → ((c : ProviderModelConfig)
          → HoldsCalled byok (some c) (wanted_model s byok d.detection_model))
      → Q (run_detection_for_trace s d)
  unfolding run_detection_for_trace
  run_cases d uncalled f g = by_source (get_or d.detection_source system) refl
    where
      by_source :
          (source : Source)
          → get_or d.detection_source system ≡ source
          → Q (run_detection_for_trace s d)
      by_source system e =
          rw (run_detection_for_trace, e)
            (with_config_cases system none (wanted_model s system d.detection_model) uncalled f)
      by_source byok e = rw (run_detection_for_trace, e) (run_byok_cases d uncalled g)
