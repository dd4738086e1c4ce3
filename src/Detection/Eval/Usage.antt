-- ===== src/Detection/Eval/Usage.antt =====
-- What an evaluation reports of its calls: their number, their usage and their verdict.

use traceroot.Billing.ChangePlan.{reply}
use traceroot.Detection.Eval.Guards.{run_cases}
use traceroot.Models.Resolve.{PiModel}
use traceroot.Prelude.{
  subst, ◌++◌, suc, ◌∙◌, zero, ap, String, some, Option, refl, ◌∷◌, [], List, Bool, arith, sum_by,
  Option-cases, ◌+◌, inl, if◌then◌else◌, false, is_none, inr, get_or, Bool-cases, none, any,
  is_some, ◌||◌, ◌≡◌, ℕ,
}
use traceroot.Detection.Eval.{
  system, max_attempts, EvalDetector, EvalError, byok, trace_prompt, Ended, assistant_turn,
  reminder, Message, Next, Tally, Services, Attempt, Submission, Outcome, EvalRun, Response,
  EvalResult, is_error, is_aborted, submission, Source, rejected_call, replied, stop, again,
  rejected, returned,
}
use traceroot.Detection.Eval.Attempts.{
  empty_tally, error_result, run_detection_for_trace, proceed, attempt_loop, on_outcome, on_reply,
}

module _ {M D : Type 0} where
  -- the reply of a call that was not aborted
  abbrev pub counted : Outcome M D → Option (Response M D)
  counted (rejected_call aborted message) = none
  counted (replied aborted r) = if aborted || is_aborted r.stop_reason then none else some r

  abbrev submission_of : Option (Response M D) → Option (Submission D)
  submission_of none = none
  submission_of (some r) = submission r.content

  abbrev input_of : Option (Response M D) → ℕ
  input_of none = 0
  input_of (some r) = get_or r.input_tokens 0

  abbrev output_of : Option (Response M D) → ℕ
  output_of none = 0
  output_of (some r) = get_or r.output_tokens 0

abbrev identifies : {D : Type 0} → Option (Submission D) → Bool
identifies none = false
identifies (some a) = a.identified

module _ {P M D : Type 0} where
  abbrev pub submits : Attempt P M D → Bool
  submits a = is_some (submission_of (counted a.outcome))

  abbrev pub says_identified : Attempt P M D → Bool
  says_identified a = identifies (submission_of (counted a.outcome))

  abbrev pub total_input : List (Attempt P M D) → ℕ
  total_input attempts = sum_by (λ (a : Attempt P M D). input_of (counted a.outcome)) attempts

  abbrev pub total_output : List (Attempt P M D) → ℕ
  total_output attempts = sum_by (λ (a : Attempt P M D). output_of (counted a.outcome)) attempts

module _ {P M D : Type 0} (s : Services P M D) where
  abbrev cost_after : M → Option (Response M D) → M
  cost_after c none = c
  cost_after c (some r) = s.add_amount c (get_or r.cost_total s.no_amount)

  -- the costs of the counted replies, added in their order
  abbrev pub total_cost : M → List (Attempt P M D) → M
  total_cost c [] = c
  total_cost c (a ∷ attempts) = total_cost (cost_after c (counted a.outcome)) attempts

  -- what a result owes to the attempts, from a tally and behind it
  abbrev pub IsAccount : Tally M → List (Attempt P M D) → EvalResult M D → Type 0
  IsAccount t attempts r =
      (r.inference.cost ≡ total_cost t.cost attempts)
      × (r.inference.input_tokens ≡ t.input_tokens + total_input attempts)
      × (r.inference.output_tokens ≡ t.output_tokens + total_output attempts)
      × (r.identified ≡ any says_identified attempts)
      × (is_none r.error ≡ any submits attempts)

  abbrev AccountsOf : Tally M → List (Attempt P M D) → Ended M D → Type 0
  AccountsOf t attempts rejected = attempts ≡ []
  AccountsOf t attempts (returned r) = IsAccount t attempts r

  abbrev Accounts : Tally M → EvalRun P M D → Type 0
  Accounts t run = AccountsOf t run.attempts run.ended

  -- the same of one call
  abbrev OneCall : Tally M → Attempt P M D → Next M D → Type 0
  OneCall t a (stop r) = IsAccount t (a ∷ []) r
  OneCall t a (again r t') =
      (t'.cost ≡ cost_after t.cost (counted a.outcome))
      × (t'.input_tokens ≡ t.input_tokens + input_of (counted a.outcome))
      × (t'.output_tokens ≡ t.output_tokens + output_of (counted a.outcome))
      × (submission_of (counted a.outcome) ≡ none)

  on_reply_account :
      (source : Source) (t : Tally M) (a : Attempt P M D) (r : Response M D)
      → counted a.outcome ≡ some r
      → OneCall t a (on_reply s source t r)
  unfolding on_reply
  on_reply_account source t a r e = elim (Option-cases (submission r.content)) [
    | inr (b, f) ↦ rw (on_reply, f) (rw (e, f) (refl, omega arith, omega arith, ground arith, refl))
    | inl f ↦ elim (Bool-cases (is_error r.stop_reason)) [
      | inl g ↦ rw (on_reply, f, g) (rw (e, f) (refl, omega arith, omega arith, refl, refl))
      | inr g ↦ rw (on_reply, f, g) (rw (e, f) (refl, refl, refl, refl))
    ]
  ]

  on_outcome_account :
      (source : Source) (t : Tally M) (a : Attempt P M D) (o : Outcome M D)
      → a.outcome ≡ o
      → OneCall t a (on_outcome s source t o)
  unfolding on_outcome
  on_outcome_account source t a (rejected_call cut message) e =
      rw e (refl, omega arith, omega arith, refl, refl)
  on_outcome_account source t a (replied cut r) e =
      elim (Bool-cases (cut || is_aborted r.stop_reason)) [
        | inl f ↦ rw (on_outcome, f) (rw (e, f) (refl, omega arith, omega arith, refl, refl))
        | inr f ↦ rw (on_outcome, f) (on_reply_account source t a r (rw (e, f) refl))
      ]

  IsAccount-cons :
      (t t' : Tally M) (a : Attempt P M D) (reply : Response M D) (rest : List (Attempt P M D))
      (r : EvalResult M D)
      → OneCall t a (again reply t')
      → IsAccount t' rest r
      → IsAccount t (a ∷ rest) r
  IsAccount-cons t t' a reply rest r (cost, input, output, unsubmitted) (c, i, o, verdict, error) =
      (
        c ∙ ap (λ (m : M). total_cost m rest) cost,
        omega arith,
        omega arith,
        rw unsubmitted verdict,
        rw unsubmitted error,
      )

  -- the loop always returns
  abbrev Returns : Ended M D → Type 0
  Returns rejected = ⊥
  Returns (returned r) = Unit

  accounts_cons :
      (t t' : Tally M) (a : Attempt P M D) (reply : Response M D) (rest : List (Attempt P M D))
      (e : Ended M D)
      → OneCall t a (again reply t')
      → Returns e × AccountsOf t' rest e
      → Returns e × AccountsOf t (a ∷ rest) e
  accounts_cons t t' a reply rest rejected h (f, g) = absurd f
  accounts_cons t t' a reply rest (returned r) h (f, g) =
      (tt, IsAccount-cons t t' a reply rest r h g)

  proceed_account :
      (t : Tally M) (a : Attempt P M D) (next : Next M D)
      (rest : Response M D → Tally M → EvalRun P M D)
      → OneCall t a next
      → ((r : Response M D) (t' : Tally M) → Returns (rest r t').ended × Accounts t' (rest r t'))
      → Returns (proceed s a next rest).ended × Accounts t (proceed s a next rest)
  proceed_account t a (stop r) rest h g = (tt, h)
  proceed_account t a (again r t') rest h g =
      accounts_cons t t' a r (rest r t').attempts (rest r t').ended h (g r t')

  attempt_loop_account :
      (source : Source) (m : PiModel P) (key : String) (left attempt : ℕ)
      (messages : List (Message M D)) (t : Tally M)
      → Returns (attempt_loop s source m key left attempt messages t).ended
        × Accounts t (attempt_loop s source m key left attempt messages t)
  unfolding attempt_loop
  attempt_loop_account source m key zero attempt messages t =
      (tt, (refl, omega arith, omega arith, refl, refl))
  attempt_loop_account source m key (suc left) attempt messages t =
      let a : Attempt P M D = record {
        model = m;
        api_key = key;
        messages = messages;
        outcome = s.complete attempt m key messages;
      } in
      proceed_account t a (on_outcome s source t a.outcome)
        (λ r t'.
          attempt_loop s source m key left (attempt + 1)
            (messages ++ assistant_turn r ∷ reminder ∷ []) t')
        (on_outcome_account source t a a.outcome refl)
        (λ r t'.
          attempt_loop_account source m key left (attempt + 1)
            (messages ++ assistant_turn r ∷ reminder ∷ []) t')

  failed-IsAccount :
      (source : Source) (e : EvalError)
      → IsAccount (empty_tally s) [] (error_result s e source (empty_tally s))
  unfolding error_result
  failed-IsAccount source e = (refl, omega arith, omega arith, refl, refl)

  run_account : (d : EvalDetector) → Accounts (empty_tally s) (run_detection_for_trace s d)
  run_account d =
      let loop : (source : Source) (m : PiModel P) (key : String)
          → Accounts (empty_tally s)
              (attempt_loop s source m key max_attempts 1 (trace_prompt ∷ []) (empty_tally s)) =
        λ source m key.
          (attempt_loop_account source m key max_attempts 1 (trace_prompt ∷ [])
            (empty_tally s)).1 in
      run_cases s (Accounts (empty_tally s)) d (λ source e. failed-IsAccount source e, refl)
        (λ m key _ _. loop system m key) (λ c m key _ _. loop byok m key)

  returned-IsAccount :
      (attempts : List (Attempt P M D)) (e : Ended M D) {r : EvalResult M D}
      → e ≡ returned r
      → AccountsOf (empty_tally s) attempts e
      → IsAccount (empty_tally s) attempts r
  returned-IsAccount attempts e h g = subst (AccountsOf (empty_tally s) attempts) h g

  -- An evaluation that returns, by whatever way, reports the cost and the tokens of exactly those of
  -- its calls that the provider answered and that were not aborted, the last one's included; it says
  -- that the problem was found exactly if such an answer calls submit_result with identified, and
  -- reports no error exactly if such an answer calls submit_result.
  pub evaluation_account :
      (d : EvalDetector) {r : EvalResult M D}
      → (run_detection_for_trace s d).ended ≡ returned r
      → (r.inference.cost ≡ total_cost s.no_amount (run_detection_for_trace s d).attempts)
        × (r.inference.input_tokens ≡ total_input (run_detection_for_trace s d).attempts)
        × (r.inference.output_tokens ≡ total_output (run_detection_for_trace s d).attempts)
        × (r.identified ≡ any says_identified (run_detection_for_trace s d).attempts)
        × (is_none r.error ≡ any submits (run_detection_for_trace s d).attempts)
  evaluation_account d {r} e =
      let (cost, input, output, verdict, error) =
        returned-IsAccount (run_detection_for_trace s d).attempts
          (run_detection_for_trace s d).ended {r = r} e (run_account d) in
      (cost, omega arith, omega arith, verdict, error)
