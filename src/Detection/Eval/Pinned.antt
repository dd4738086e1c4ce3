-- ===== src/Detection/Eval/Pinned.antt =====
-- Which model an evaluation calls.

use traceroot.Models.Catalog.{detector_system_default_model_id}
use traceroot.Models.Resolve.Laws.{IsRegistry, ne_empty, system_model-resolve}
use traceroot.Detection.Eval.Guards.{with_config_cases}
use traceroot.Prelude.{
  sym, Option-cases, inl, get_or, ◌≢◌, Option, false≢true, inr, none, some, is_some, true, ◌∙◌, ap,
  refl, zero, arith, [], ◌++◌, suc, All, String, ◌+◌, List, ◌≡◌, ◌∷◌, ℕ,
}
use traceroot.Detection.Eval.{
  Services, Attempt, Source, EvalDetector, Next, max_attempts, Tally, assistant_turn, trace_prompt,
  EvalRun, Response, Message, reminder, system, stop, again,
}
use traceroot.Detection.Eval.Attempts.{
  with_config, wanted_model, unknown_pin, attempt_loop, on_outcome, empty_tally,
  run_detection_for_trace, proceed,
}
use traceroot.Models.Resolve.{
  system_model_lookup, SystemInfo, is_system_model_id, resolve_pi_model, resolved, PiModel,
}

module _ {P M D : Type 0} (s : Services P M D) where
  -- the calls are all with one model
  abbrev IsLoopOf : PiModel P → EvalRun P M D → Type 0
  IsLoopOf m run = All (λ (a : Attempt P M D). a.model ≡ m) run.attempts

  proceed_loop :
      (m : PiModel P) (a : Attempt P M D) (next : Next M D)
      (rest : Response M D → Tally M → EvalRun P M D)
      → a.model ≡ m
      → ((r : Response M D) (t : Tally M) → IsLoopOf m (rest r t))
      → IsLoopOf m (proceed s a next rest)
  proceed_loop m a (stop r) rest e h = (e, tt)
  proceed_loop m a (again r t) rest e h = (e, h r t)

  attempt_loop_lem :
      (source : Source) (m : PiModel P) (key : String) (left attempt : ℕ)
      (messages : List (Message M D)) (t : Tally M)
      → IsLoopOf m (attempt_loop s source m key left attempt messages t)
  unfolding attempt_loop
  attempt_loop_lem source m key zero attempt messages t = tt
  attempt_loop_lem source m key (suc left) attempt messages t =
      let a : Attempt P M D = record {
        model = m;
        api_key = key;
        messages = messages;
        outcome = s.complete attempt m key messages;
      } in
      proceed_loop m a (on_outcome s source t a.outcome)
        (λ r t'.
          attempt_loop s source m key left (attempt + 1)
            (messages ++ assistant_turn r ∷ reminder ∷ []) t')
        refl
        (λ r t'.
          attempt_loop_lem source m key left (attempt + 1)
            (messages ++ assistant_turn r ∷ reminder ∷ []) t')

  wanted_model_system :
      (model : Option String)
      → wanted_model s system model ≡ some (get_or model detector_system_default_model_id)
  wanted_model_system none = refl
  wanted_model_system (some id) = refl

  pin_known :
      (pin : String)
      → pin ≢ ""
      → unknown_pin s none (some pin) ≡ none
      → is_system_model_id pin ≡ true
  pin_known pin named h = ground (arith, ne_empty pin named)

  lookup_known :
      (pin : String)
      → is_system_model_id pin ≡ true
      → (info : SystemInfo) × (system_model_lookup pin ≡ some info)
  unfolding is_system_model_id
  lookup_known pin h = elim (Option-cases (system_model_lookup pin)) [
    | inl e ↦ absurd (false≢true (ap is_some (sym e) ∙ h))
    | inr found ↦ found
  ]

  pinned_id :
      (pin : String) (m : PiModel P)
      → IsRegistry s.registry
      → pin ≢ ""
      → unknown_pin s none (some pin) ≡ none
      → resolve_pi_model s.registry s.env (some pin) none ≡ resolved (some m)
      → m.id ≡ pin
  pinned_id pin m law named known e =
      let (info, listed) = lookup_known pin (pin_known pin named known) in
      let (m', e', kept, _, _) = system_model-resolve s.registry s.env pin info law named listed in
      let same : m ≡ m' = cc in ap (λ (k : PiModel P). k.id) same ∙ kept

  abbrev CallsOnly : String → EvalRun P M D → Type 0
  CallsOnly pin run = All (λ (a : Attempt P M D). a.model.id ≡ pin) run.attempts

  pinned_calls :
      (pin : String) (m : PiModel P) (attempts : List (Attempt P M D))
      → m.id ≡ pin
      → All (λ (a : Attempt P M D). a.model ≡ m) attempts
      → All (λ (a : Attempt P M D). a.model.id ≡ pin) attempts
  pinned_calls pin m [] e h = tt
  pinned_calls pin m (a ∷ attempts) e h =
      (ap (λ (k : PiModel P). k.id) h.0 ∙ e, pinned_calls pin m attempts e h.1)

  with_config_pinned :
      (pin : String)
      → IsRegistry s.registry
      → pin ≢ ""
      → CallsOnly pin (with_config s system none (some pin))
  with_config_pinned pin law named =
      with_config_cases s (CallsOnly pin) system none (some pin) (λ source e. tt, tt)
        (λ m key known e.
          let run =
            attempt_loop s system m key max_attempts 1 (trace_prompt ∷ []) (empty_tally s) in
          pinned_calls pin m run.attempts (pinned_id pin m law named known e)
            (attempt_loop_lem system m key max_attempts 1 (trace_prompt ∷ []) (empty_tally s)))

  -- A detector on the system's models is never evaluated by another model than the one it is pinned
  -- to, or else the detectors' default: every call that is made carries this id, whatever keys the
  -- environment and the workspace have, if that id is not empty and the registry answers under the
  -- id it is asked for.
  pub no_substitution :
      (d : EvalDetector)
      → IsRegistry s.registry
      → get_or d.detection_source system ≡ system
      → get_or d.detection_model detector_system_default_model_id ≢ ""
      → All
          (λ (a : Attempt P M D).
            a.model.id ≡ get_or d.detection_model detector_system_default_model_id)
          (run_detection_for_trace s d).attempts
  unfolding run_detection_for_trace
  no_substitution d law e named =
      let pin : String = get_or d.detection_model detector_system_default_model_id in
      rw (run_detection_for_trace, e, wanted_model_system d.detection_model)
        (with_config_pinned pin law named)
