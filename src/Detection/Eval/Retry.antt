-- ===== src/Detection/Eval/Retry.antt =====
-- How often an evaluation calls a model, and why it calls again.

use traceroot.Models.Resolve.{PiModel}
use traceroot.Detection.Eval.Attempts.{
  on_outcome, attempt_loop, empty_tally, run_detection_for_trace, on_reply, proceed,
}
use traceroot.Detection.Eval.{
  byok, Services, Tally, assistant_turn, again, Response, stop, Message, reminder, is_error,
  trace_prompt, replied, max_attempts, Outcome, EvalDetector, submission, Next, Source, EvalRun,
  is_aborted, Attempt, system, rejected_call,
}
use traceroot.Detection.Eval.Guards.{run_cases}
use traceroot.Prelude.{
  none, String, inl, some, refl, Bool-cases, [], ℕ, ◌||◌, Option-cases, if◌then◌else◌, false, arith,
  ◌++◌, List, true, Option, inr, ◌∷◌, ◌≡◌,
}

module _ {M D : Type 0} where
  -- the reply that neither ends in an abort or an error nor calls submit_result
  abbrev pub plain_reply : Outcome M D → Option (Response M D)
  plain_reply (rejected_call aborted message) = none
  plain_reply (replied aborted r) =
      if aborted || is_aborted r.stop_reason || is_error r.stop_reason
      then none
      else elim (submission r.content) [ some a ↦ none | none ↦ some r ]

  abbrev IsNext : Outcome M D → Next M D → Type 0
  IsNext o (stop _) = plain_reply o ≡ none
  IsNext o (again r t) = plain_reply o ≡ some r

module _ {P M D : Type 0} where
  -- What comes after a first call: nothing, if its reply is not a plain one; else one more call, of
  -- the same model with the same key, that gets the plain reply back and the reminder.
  abbrev pub Follows : Attempt P M D → List (Attempt P M D) → Type 0
  Follows a [] = plain_reply a.outcome ≡ none
  Follows a (b ∷ []) =
      (r : Response M D) × (plain_reply a.outcome ≡ some r)
      × (b.messages ≡ a.messages ++ assistant_turn r ∷ reminder ∷ [])
      × (b.model ≡ a.model)
      × (b.api_key ≡ a.api_key)
  Follows a (b ∷ c ∷ rest) = ⊥

  abbrev pub IsRetriedOnce : List (Attempt P M D) → Type 0
  IsRetriedOnce [] = Unit
  IsRetriedOnce (a ∷ rest) = (a.messages ≡ trace_prompt ∷ []) × Follows a rest

module _ {P M D : Type 0} (s : Services P M D) where
  on_reply-IsNext :
      (source : Source) (t : Tally M) (r : Response M D)
      → is_aborted r.stop_reason ≡ false
      → IsNext (replied false r) (on_reply s source t r)
  unfolding on_reply
  on_reply-IsNext source t r h = elim (Option-cases (submission r.content)) [
    | inr (a, e) ↦ rw (on_reply, e) (ground arith)
    | inl e ↦ elim (Bool-cases (is_error r.stop_reason)) [
      | inl f ↦ rw (on_reply, e, f) (ground arith)
      | inr f ↦ rw (on_reply, e, f) (ground arith)
    ]
  ]

  on_outcome-IsNext :
      (source : Source) (t : Tally M) (o : Outcome M D) → IsNext o (on_outcome s source t o)
  unfolding on_outcome
  on_outcome-IsNext source t (rejected_call aborted message) = refl
  on_outcome-IsNext source t (replied true r) = refl
  on_outcome-IsNext source t (replied false r) = elim (Bool-cases (is_aborted r.stop_reason)) [
    | inl e ↦ rw e (ground arith)
    | inr e ↦ rw e (on_reply-IsNext source t r e)
  ]

  -- the last call
  proceed_last :
      (a b : Attempt P M D) (next : Next M D) (rest : Response M D → Tally M → EvalRun P M D)
      → ((r : Response M D) (t : Tally M) → (rest r t).attempts ≡ [])
      → Follows a (b ∷ [])
      → Follows a (proceed s b next rest).attempts
  proceed_last a b (stop _) rest h f = f
  proceed_last a b (again r t) rest h f = rw (h r t) f

  proceed_first :
      (a : Attempt P M D) (next : Next M D) (rest : Response M D → Tally M → EvalRun P M D)
      → a.messages ≡ trace_prompt ∷ []
      → IsNext a.outcome next
      → ((r : Response M D) (t : Tally M)
          → plain_reply a.outcome ≡ some r
          → Follows a (rest r t).attempts)
      → IsRetriedOnce (proceed s a next rest).attempts
  proceed_first a (stop _) rest e h f = (e, h)
  proceed_first a (again r t) rest e h f = (e, f r t h)

  abbrev call : PiModel P → String → ℕ → List (Message M D) → Attempt P M D
  call m key attempt messages = record {
    model = m;
    api_key = key;
    messages = messages;
    outcome = s.complete attempt m key messages;
  }

  loop-IsRetriedOnce :
      (source : Source) (m : PiModel P) (key : String)
      → IsRetriedOnce
          (attempt_loop s source m key max_attempts 1 (trace_prompt ∷ []) (empty_tally s)).attempts
  unfolding attempt_loop
  loop-IsRetriedOnce source m key =
      let a : Attempt P M D = call m key 1 (trace_prompt ∷ []) in
      proceed_first a _ _ refl (on_outcome-IsNext source (empty_tally s) a.outcome) (λ r t plain.
        proceed_last a (call m key 2 (trace_prompt ∷ assistant_turn r ∷ reminder ∷ [])) _ _
          (λ r t. refl) (r, plain, refl, refl, refl))

  -- Whatever the provider answers, an evaluation calls a model not at all, or once, or twice: once
  -- when the reply is aborted, ends in an error, calls submit_result or does not come, and twice
  -- exactly when the first reply is a plain one. The second call is of the same model with the same
  -- key, and its conversation is the first one's, the reply and the reminder. There is no third call.
  pub one_retry : (d : EvalDetector) → IsRetriedOnce (run_detection_for_trace s d).attempts
  one_retry d =
      run_cases s (λ (run : EvalRun P M D). IsRetriedOnce run.attempts) d (λ source e. tt, tt)
        (λ m key _ _. loop-IsRetriedOnce system m key)
        (λ c m key _ _. loop-IsRetriedOnce byok m key)
