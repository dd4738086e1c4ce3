-- ===== src/Detection/Run/Enabled.antt =====
-- Which evaluations queue an RCA.
use traceroot.Detection.Run.Evaluate.{
  evaluate_trace, is_capped, selected, triggered_by, add_some, Project, triggered_of,
}
use traceroot.Detection.Run.{
  Ids, should_run_rca, TriggeredResult, rca_enabled, Services, Store, Detector, Evaluation, clean,
  threw, identified,
}
use traceroot.Table.{UniqueIds, has_id}
use traceroot.Detection.Run.Rca.{add_rca_job-has, has_job, job_of, evaluate_trace-jobs}
use traceroot.Prelude.{
  IsIn, ◌∷◌, true, refl, false, subst, inr, ◌≡◌, ◌∙◌, inl, Bool, arith, any, [], ==_self, ap, ◌&&◌,
  List, Option, none, ◌||◌, some, ℕ,
}

abbrev pub detector_id_of : Detector → ℕ
detector_id_of d = d.id

rca_enabled-none :
    (k : ℕ) (ds : List Detector) → has_id detector_id_of k ds ≡ false → rca_enabled k ds ≡ none
unfolding rca_enabled
rca_enabled-none k [] h = refl
rca_enabled-none k (d ∷ ds) h = ground (arith, rca_enabled-none k ds)

rca_enabled_own :
    (d : Detector) (ds : List Detector)
    → UniqueIds detector_id_of ds
    → IsIn d ds
    → rca_enabled d.id ds ≡ some d.enable_rca
unfolding rca_enabled
rca_enabled_own d [] u m = elim m [ ]
rca_enabled_own d (x ∷ xs) u (inl e) =
    subst (λ (y : Detector). rca_enabled y.id (x ∷ xs) ≡ some y.enable_rca) e
      (ground (arith, ==_self x.id, rca_enabled-none x.id xs u.0))
rca_enabled_own d (x ∷ xs) u (inr m) = ground (arith, rca_enabled_own d xs u.1 m)

module _ (Cost : Type 0) (positive : Cost → Bool) (s : Services Cost positive) where
  abbrev pub is_identified : Evaluation Cost positive → Bool
  is_identified threw = false
  is_identified (clean error usage) = false
  is_identified (identified summary usage) = true

  -- a detector that triggers and has its RCA enabled
  abbrev pub wants_rca : Detector → Bool
  wants_rca d = is_identified (s.evaluate d) && d.enable_rca

  one_wants :
      (d : Detector) (e : Evaluation Cost positive) (rs : List TriggeredResult) (ds : List Detector)
      → rca_enabled d.id ds ≡ some d.enable_rca
      → should_run_rca (add_some Cost positive (triggered_by Cost positive d e) rs) ds
        ≡ ((is_identified e && d.enable_rca) || should_run_rca rs ds)
  unfolding should_run_rca
  one_wants d threw rs ds h = refl
  one_wants d (clean error usage) rs ds h = refl
  one_wants d (identified summary usage) rs ds h = ground (arith, h)

  should_run-any :
      (xs ds : List Detector)
      → ((d : Detector) → IsIn d xs → rca_enabled d.id ds ≡ some d.enable_rca)
      → should_run_rca (triggered_of Cost positive s xs) ds ≡ any wants_rca xs
  unfolding should_run_rca
  should_run-any [] ds h = refl
  should_run-any (d ∷ xs) ds h =
      let rest = should_run-any xs ds (λ x m. h x (inr m)) in
      ground (
        arith,
        one_wants d (s.evaluate d) (triggered_of Cost positive s xs) ds (h d (inl refl)),
        rest,
      )

  -- If the workspace is not capped, detector ids are unique and the services accept the finding and
  -- the job, then after an evaluation the queue has a job for the trace's finding exactly if it had
  -- one or some enabled detector of the job triggered and has its RCA enabled.
  pub rca_iff_enabled :
      (ids : Ids Cost positive) (table : List Detector) (project : Option (Project Cost positive))
      (detector_ids : List ℕ) (trace_id : ℕ) (st : Store Cost positive)
      → UniqueIds detector_id_of (selected Cost positive detector_ids table)
      → is_capped Cost positive project ≡ false
      → s.accepts_finding ≡ true
      → s.accepts_rca_job ≡ true
      → has_job
          (ids.finding_id trace_id)
          (evaluate_trace Cost positive s ids table project detector_ids trace_id st).store.rca_jobs
        ≡ (has_job (ids.finding_id trace_id) st.rca_jobs
            || any wants_rca (selected Cost positive detector_ids table))
  rca_iff_enabled ids table project detector_ids trace_id st unique open_plan ok queued =
      let ds = selected Cost positive detector_ids table in
      let rs = triggered_of Cost positive s ds in
      let runs = should_run-any ds ds (λ d m. rca_enabled_own d ds unique m) in
      let jobs =
        evaluate_trace-jobs Cost positive s ids table project detector_ids trace_id st open_plan in
      ap (has_job (ids.finding_id trace_id)) jobs
      ∙ ground (
        arith,
        ok,
        queued,
        runs,
        add_rca_job-has Cost positive (job_of Cost positive s ids trace_id rs) st.rca_jobs,
      )
