-- ===== src/Detection/Run/Rca.antt =====
-- When a trace's RCA is queued: once for a finding, however often the job is retried.
use traceroot.Detection.Run.Evaluate.{
  triggered_row, write_all, write_run, Project, own_row, is_capped, triggered_of, usages_of,
  evaluate_trace, write_own, write_messages, failed_row, run_detectors, add_rca_job, seed_rca,
  record_finding, queue_rca, selected, finding_of, process_trace,
}
use traceroot.Detection.Run.{
  Ids, RunRow, RcaJob, Services, ScanUsage, should_run_rca, Detector, TriggeredResult, Store,
}
use traceroot.Prelude.{
  ap, sym, any, some, ◌&&◌, count_if-append, ◌++◌, arith, ◌==◌, ==_self, inr, ◌∷◌, Bool-cases,
  ==_iff, [], refl, none, ◌≡◌, map, Bool, count_if, inl, if◌then◌else◌, ◌∙◌, false, List, true,
  subst, Option, ◌≤◌, ◌||◌, ℕ,
}

abbrev pub jobs_of : ℕ → List RcaJob → ℕ
jobs_of f jobs = count_if (λ (j : RcaJob). j.finding_id == f) jobs

abbrev pub has_job : ℕ → List RcaJob → Bool
has_job f jobs = any (λ (j : RcaJob). j.finding_id == f) jobs

no_job-count : (f : ℕ) (jobs : List RcaJob) → has_job f jobs ≡ false → jobs_of f jobs ≡ 0
no_job-count f [] h = refl
no_job-count f (j ∷ js) h = ground (arith, no_job-count f js)

has_job-append :
    (f : ℕ) (js ks : List RcaJob) → has_job f (js ++ ks) ≡ (has_job f js || has_job f ks)
has_job-append f [] ks = refl
has_job-append f (j ∷ js) ks = ground (arith, has_job-append f js ks)

module _ (Cost : Type 0) (positive : Cost → Bool) where
  add_rca_job-one :
      (f : ℕ) (job : RcaJob) (jobs : List RcaJob)
      → jobs_of f jobs ≤ 1
      → jobs_of f (add_rca_job Cost positive job jobs) ≤ 1
  unfolding add_rca_job
  add_rca_job-one f job jobs h = elim (Bool-cases (has_job job.finding_id jobs)) [
    | inl there ↦ ground (arith, there, h)
    | inr absent ↦ elim (Bool-cases (job.finding_id == f)) [
      | inl same ↦
          let here : has_job f jobs ≡ false =
            subst (λ g. has_job g jobs ≡ false) ((==_iff job.finding_id f).0 same) absent in
          ground (
            arith,
            absent,
            same,
            no_job-count f jobs here,
            count_if-append (λ (j : RcaJob). j.finding_id == f) jobs (job ∷ []),
          )
      | inr other ↦ ground (
        arith,
        absent,
        other,
        h,
        count_if-append (λ (j : RcaJob). j.finding_id == f) jobs (job ∷ []),
      )
    ]
  ]

  pub add_rca_job-has :
      (job : RcaJob) (jobs : List RcaJob)
      → has_job job.finding_id (add_rca_job Cost positive job jobs) ≡ true
  unfolding add_rca_job
  add_rca_job-has job jobs =
      ground (arith, ==_self job.finding_id, has_job-append job.finding_id jobs (job ∷ []))

  maybe_added :
      (b : Bool) (f : ℕ) (job : RcaJob) (jobs : List RcaJob)
      → jobs_of f jobs ≤ 1
      → jobs_of f (if b then add_rca_job Cost positive job jobs else jobs) ≤ 1
  maybe_added true f job jobs h = add_rca_job-one f job jobs h
  maybe_added false f job jobs h = h

  module _ (s : Services Cost positive) (ids : Ids Cost positive) where
    write_run-jobs :
        (row : RunRow) (st : Store Cost positive)
        → (write_run Cost positive s row st).rca_jobs ≡ st.rca_jobs
    unfolding write_run
    write_run-jobs row st = ground arith

    write_all-jobs :
        (rows : List RunRow) (st : Store Cost positive)
        → (write_all Cost positive s rows st).rca_jobs ≡ st.rca_jobs
    write_all-jobs [] st = refl
    write_all-jobs (row ∷ rows) st =
        write_all-jobs rows (write_run Cost positive s row st) ∙ write_run-jobs row st

    write_own-jobs :
        (row : Option RunRow) (st : Store Cost positive)
        → (write_own Cost positive s row st).rca_jobs ≡ st.rca_jobs
    write_own-jobs none st = refl
    write_own-jobs (some row) st = write_run-jobs row st

    run_detectors-jobs :
        (trace_id : ℕ) (ds : List Detector) (st : Store Cost positive)
        → (run_detectors Cost positive s ids trace_id ds st).rca_jobs ≡ st.rca_jobs
    unfolding run_detectors
    run_detectors-jobs trace_id [] st = refl
    run_detectors-jobs trace_id (d ∷ ds) st =
        run_detectors-jobs trace_id ds _
        ∙ write_own-jobs (own_row Cost positive ids trace_id d (s.evaluate d)) st

    write_messages-jobs :
        (project : Option (Project Cost positive)) (us : List (ScanUsage Cost positive))
        (st : Store Cost positive)
        → (write_messages Cost positive s project us st).rca_jobs ≡ st.rca_jobs
    unfolding write_messages
    write_messages-jobs none us st = refl
    write_messages-jobs (some p) us st = ground arith

    seed_rca-jobs :
        (f : ℕ) (st : Store Cost positive) → (seed_rca Cost positive s f st).rca_jobs ≡ st.rca_jobs
    unfolding seed_rca
    seed_rca-jobs f st = ground arith

    abbrev pub job_of : ℕ → List TriggeredResult → RcaJob
    job_of trace_id rs = record {
      finding_id = ids.finding_id trace_id;
      trace_id = trace_id;
      findings = rs;
      finding_timestamp = s.now;
    }

    -- The queue after the RCA step: as before, or with the trace's job.
    queue_rca-jobs :
        (trace_id : ℕ) (rs : List TriggeredResult) (ds : List Detector) (st : Store Cost positive)
        → (queue_rca Cost positive s ids trace_id rs ds st).store.rca_jobs ≡ (
            if should_run_rca rs ds && s.accepts_rca_job
            then add_rca_job Cost positive (job_of trace_id rs) st.rca_jobs
            else st.rca_jobs)
    unfolding queue_rca
    queue_rca-jobs trace_id rs ds st = ground (arith, seed_rca-jobs (ids.finding_id trace_id) st)

    none_triggered : (ds : List Detector) → should_run_rca [] ds ≡ false
    unfolding should_run_rca
    none_triggered ds = refl

    record_finding-jobs :
        (trace_id : ℕ) (rs : List TriggeredResult) (ds : List Detector) (st : Store Cost positive)
        → (record_finding Cost positive s ids trace_id rs ds st).store.rca_jobs ≡ (
            if s.accepts_finding && (should_run_rca rs ds && s.accepts_rca_job)
            then add_rca_job Cost positive (job_of trace_id rs) st.rca_jobs
            else st.rca_jobs)
    unfolding record_finding
    record_finding-jobs trace_id [] ds st = ground (arith, none_triggered ds)
    record_finding-jobs trace_id (r ∷ rs) ds st =
        let before = record st {
          findings = st.findings ++ finding_of Cost positive s ids trace_id (r ∷ rs) ∷ [];
        } in
        let rows = map (triggered_row Cost positive s ids trace_id) (r ∷ rs) in
        elim (Bool-cases s.accepts_finding) [
          | inl ok ↦ rw ok (
              queue_rca-jobs trace_id (r ∷ rs) ds (write_all Cost positive s rows before)
              ∙ ap
                  (λ js.
                    if should_run_rca (r ∷ rs) ds && s.accepts_rca_job
                    then add_rca_job Cost positive (job_of trace_id (r ∷ rs)) js
                    else js)
                  (write_all-jobs rows before))
          | inr refused ↦ rw refused refl
        ]

    pub evaluate_trace-jobs :
        (table : List Detector) (project : Option (Project Cost positive)) (detector_ids : List ℕ)
        (trace_id : ℕ) (st : Store Cost positive)
        → is_capped Cost positive project ≡ false
        → (evaluate_trace Cost positive s ids table project detector_ids trace_id st).store.rca_jobs
          ≡ (if s.accepts_finding
                && (should_run_rca
                      (triggered_of Cost positive s (selected Cost positive detector_ids table))
                      (selected Cost positive detector_ids table)
                    && s.accepts_rca_job)
              then add_rca_job Cost positive
                  (job_of trace_id
                    (triggered_of Cost positive s (selected Cost positive detector_ids table)))
                  st.rca_jobs
              else st.rca_jobs)
    unfolding evaluate_trace
    evaluate_trace-jobs table project detector_ids trace_id st open_plan =
        let ds = selected Cost positive detector_ids table in
        let rs = triggered_of Cost positive s ds in
        let ran = run_detectors Cost positive s ids trace_id ds st in
        let us = usages_of Cost positive s ds in
        rw open_plan (
          record_finding-jobs trace_id rs ds (write_messages Cost positive s project us ran)
          ∙ ap
              (λ js.
                if s.accepts_finding && (should_run_rca rs ds && s.accepts_rca_job)
                then add_rca_job Cost positive (job_of trace_id rs) js
                else js)
              (write_messages-jobs project us ran ∙ run_detectors-jobs trace_id ds st))

    capped_one :
        (table : List Detector) (project : Option (Project Cost positive)) (detector_ids : List ℕ)
        (trace_id f : ℕ) (st : Store Cost positive)
        → is_capped Cost positive project ≡ true
        → jobs_of f st.rca_jobs ≤ 1
        → jobs_of f
            (evaluate_trace Cost positive s ids table project detector_ids trace_id
              st).store.rca_jobs
          ≤ 1
    unfolding evaluate_trace
    capped_one table project detector_ids trace_id f st capped h = rw capped h

    process_trace-one :
        (downloaded : Bool) (table : List Detector) (project : Option (Project Cost positive))
        (detector_ids : List ℕ) (trace_id f : ℕ) (st : Store Cost positive)
        → jobs_of f st.rca_jobs ≤ 1
        → jobs_of f
            (process_trace Cost positive downloaded s ids table project detector_ids trace_id
              st).store.rca_jobs
          ≤ 1
    unfolding process_trace
    process_trace-one false table project detector_ids trace_id f st h =
        subst (λ js. jobs_of f js ≤ 1)
          (sym (write_all-jobs (map (failed_row Cost positive ids trace_id) detector_ids) st)) h
    process_trace-one true table project detector_ids trace_id f st h =
        elim (Bool-cases (is_capped Cost positive project)) [
          | inl capped ↦ capped_one table project detector_ids trace_id f st capped h
          | inr open_plan ↦
              subst (λ js. jobs_of f js ≤ 1)
                (sym (evaluate_trace-jobs table project detector_ids trace_id st open_plan))
                (maybe_added _ f _ st.rca_jobs h)
        ]

module _ (Cost : Type 0) (positive : Cost → Bool) (ids : Ids Cost positive) where
  -- One attempt at a job, and what it meets.
  pub record Try : Type 0 where
    pub downloaded : Bool
    pub services : Services Cost positive
    pub table : List Detector
    pub project : Option (Project Cost positive)
    pub detector_ids : List ℕ
    pub trace_id : ℕ

  unfoldable pub run_tries : List Try → Store Cost positive → Store Cost positive
  unfolding process_trace
  run_tries [] st = st
  run_tries (t ∷ ts) st =
      run_tries ts
        (process_trace Cost positive t.downloaded t.services ids t.table t.project t.detector_ids
          t.trace_id st).store

  -- However often traces of a project are evaluated and retried, whatever triggers and whichever
  -- services fail in between, the RCA queue holds at most one job for each finding, if it started
  -- with at most one.
  pub one_rca_job :
      (ts : List Try) (f : ℕ) (st : Store Cost positive)
      → jobs_of f st.rca_jobs ≤ 1
      → jobs_of f (run_tries ts st).rca_jobs ≤ 1
  unfolding run_tries
  one_rca_job [] f st h = h
  one_rca_job (t ∷ ts) f st h = one_rca_job ts f _ (
      process_trace-one Cost positive t.services ids t.downloaded t.table t.project t.detector_ids
        t.trace_id f st h)
