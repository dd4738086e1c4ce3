-- ===== src/Detection/Run/Settling.antt =====
-- A trace is evaluated when it has been quiet for a minute, and looked at again no later.
use traceroot.Detection.Run.{Ids, Detector, Store, evaluator_delay, Services}
use traceroot.Detection.Run.Evaluate.{
  handle_detector_run_job, Project, process_trace, attempted, delayed,
}
use traceroot.Prelude.{arith, some, ◌<◌, ◌∷◌, Option, List, ◌≤◌, ◌-◌, Bool, ◌≡◌, ◌+◌, ℕ}

module _ (Cost : Type 0) (positive : Cost → Bool) where
  -- A job that names detectors, and finds the trace's last span `age` ago: at an age of a minute or
  -- more it processes the trace; otherwise it is moved to exactly a minute after that span, and at
  -- that time, if no span has come, it processes the trace.
  pub settles :
      (age last_span : ℕ) (downloaded : Bool) (s later : Services Cost positive)
      (ids : Ids Cost positive) (table : List Detector) (project : Option (Project Cost positive))
      (i : ℕ) (is : List ℕ) (trace_id : ℕ) (st : Store Cost positive)
      → s.now ≡ last_span + age
      → (evaluator_delay ≤ age
          → handle_detector_run_job Cost positive
              (some age)
              downloaded
              s
              ids
              table
              project
              (i ∷ is)
              trace_id
              st
            ≡ attempted
                (process_trace Cost positive downloaded s ids table project (i ∷ is) trace_id st))
        × (age < evaluator_delay
            → (handle_detector_run_job Cost positive
                  (some age)
                  downloaded
                  s
                  ids
                  table
                  project
                  (i ∷ is)
                  trace_id
                  st
                ≡ delayed (last_span + evaluator_delay))
              × (later.now ≡ last_span + evaluator_delay
                  → handle_detector_run_job Cost positive
                      (some (later.now - last_span))
                      downloaded
                      later
                      ids
                      table
                      project
                      (i ∷ is)
                      trace_id
                      st
                    ≡ attempted (
                        process_trace Cost positive downloaded later ids table project
                          (i ∷ is)
                          trace_id
                          st)))
  unfolding handle_detector_run_job
  settles age last_span downloaded s later ids table project i is trace_id st clock = (
    λ old. ground (arith, old),
    λ young. (ground (arith, young, clock), λ then_now. ground (arith, then_now)),
  )
