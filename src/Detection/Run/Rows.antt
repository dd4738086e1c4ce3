-- ===== src/Detection/Run/Rows.antt =====
-- The rows of detector_runs that an attempt leaves: one for each detector that ran.
use traceroot.Detection.Run.Evaluate.{
  triggered_row, selected, write_own, triggered_of, is_capped, write_messages, usages_of,
  triggered_by, queue_rca, run_detectors, record_finding, evaluate_trace, Project, seed_rca,
  add_some, write_run, write_all, own_row,
}
use traceroot.Detection.Run.{
  Ids, TriggeredResult, Evaluation, RunRow, Services, Detector, Store, ScanUsage, clean, threw,
  identified,
}
use traceroot.Prelude.{
  false, count_if-append, ap, true, arith, refl, [], ◌&&◌, List, Option, ◌≡◌, none, sym, ◌∙◌, map,
  some, append_nil, ◌+◌, append_assoc, is_some, Bool, ◌∷◌, ◌==◌, count_if, ◌++◌, ℕ,
}

-- the rows of one detector, and those of them that point to a finding
abbrev pub rows_of : ℕ → List RunRow → ℕ
rows_of k rows = count_if (λ (r : RunRow). r.detector_id == k) rows

abbrev pub linked_rows_of : ℕ → List RunRow → ℕ
linked_rows_of k rows = count_if (λ (r : RunRow). r.detector_id == k && is_some r.finding_id) rows

abbrev pub runs_of : ℕ → List Detector → ℕ
runs_of k ds = count_if (λ (d : Detector). d.id == k) ds

abbrev pub fired : ℕ → List TriggeredResult → ℕ
fired k rs = count_if (λ (r : TriggeredResult). r.detector_id == k) rs

module _ (Cost : Type 0) (positive : Cost → Bool) (s : Services Cost positive)
    (ids : Ids Cost positive) where
  abbrev pub own_rows : ℕ → List Detector → List RunRow
  own_rows trace_id [] = []
  own_rows trace_id (d ∷ ds) =
      add_some Cost positive (own_row Cost positive ids trace_id d (s.evaluate d))
        (own_rows trace_id ds)

  own_row-count :
      (trace_id k : ℕ) (d : Detector) (e : Evaluation Cost positive) (rows : List RunRow)
      (rs : List TriggeredResult)
      → (rows_of k (add_some Cost positive (own_row Cost positive ids trace_id d e) rows)
            + fired k (add_some Cost positive (triggered_by Cost positive d e) rs)
          ≡ runs_of k (d ∷ []) + (rows_of k rows + fired k rs))
        × (linked_rows_of k (add_some Cost positive (own_row Cost positive ids trace_id d e) rows)
            ≡ linked_rows_of k rows)
  own_row-count trace_id k d threw rows rs = (ground arith, ground arith)
  own_row-count trace_id k d (clean error usage) rows rs = (ground arith, ground arith)
  own_row-count trace_id k d (identified summary usage) rows rs = (ground arith, refl)

  own_rows-count :
      (trace_id k : ℕ) (ds : List Detector)
      → (rows_of k (own_rows trace_id ds) + fired k (triggered_of Cost positive s ds)
          ≡ runs_of k ds)
        × (linked_rows_of k (own_rows trace_id ds) ≡ 0)
  own_rows-count trace_id k [] = (refl, refl)
  own_rows-count trace_id k (d ∷ ds) =
      let (own, none_linked) = own_rows-count trace_id k ds in
      let (one, same) =
        own_row-count trace_id k d (s.evaluate d) (own_rows trace_id ds)
          (triggered_of Cost positive s ds) in
      (ground (arith, own, one), same ∙ none_linked)

  triggered_row-count :
      (trace_id k : ℕ) (rs : List TriggeredResult)
      → (rows_of k (map (triggered_row Cost positive s ids trace_id) rs) ≡ fired k rs)
        × (linked_rows_of k (map (triggered_row Cost positive s ids trace_id) rs) ≡ fired k rs)
  unfolding triggered_row
  triggered_row-count trace_id k [] = (refl, refl)
  triggered_row-count trace_id k (r ∷ rs) =
      let (rows, linked) = triggered_row-count trace_id k rs in
      (ground (arith, rows), ground (arith, linked))

  module _ (all_rows : (row : RunRow) → s.accepts_run row ≡ true) where
    write_run-runs :
        (row : RunRow) (st : Store Cost positive)
        → (write_run Cost positive s row st).runs ≡ st.runs ++ row ∷ []
    unfolding write_run
    write_run-runs row st = rw (all_rows row) refl

    write_all-runs :
        (rows : List RunRow) (st : Store Cost positive)
        → (write_all Cost positive s rows st).runs ≡ st.runs ++ rows
    write_all-runs [] st = sym (append_nil st.runs)
    write_all-runs (row ∷ rows) st =
        write_all-runs rows (write_run Cost positive s row st)
        ∙ ap (λ before. before ++ rows) (write_run-runs row st)
        ∙ append_assoc st.runs (row ∷ []) rows

    write_own-runs :
        (row : Option RunRow) (rows : List RunRow) (st : Store Cost positive)
        → (write_own Cost positive s row st).runs ++ rows
          ≡ st.runs ++ add_some Cost positive row rows
    write_own-runs none rows st = refl
    write_own-runs (some row) rows st =
        ap (λ before. before ++ rows) (write_run-runs row st) ∙ append_assoc st.runs (row ∷ []) rows

    run_detectors-runs :
        (trace_id : ℕ) (ds : List Detector) (st : Store Cost positive)
        → (run_detectors Cost positive s ids trace_id ds st).runs ≡ st.runs ++ own_rows trace_id ds
    unfolding run_detectors
    run_detectors-runs trace_id [] st = sym (append_nil st.runs)
    run_detectors-runs trace_id (d ∷ ds) st =
        run_detectors-runs trace_id ds _
        ∙ write_own-runs (own_row Cost positive ids trace_id d (s.evaluate d))
            (own_rows trace_id ds) st

    queue_rca-runs :
        (trace_id : ℕ) (rs : List TriggeredResult) (ds : List Detector) (st : Store Cost positive)
        → (queue_rca Cost positive s ids trace_id rs ds st).store.runs ≡ st.runs
    unfolding queue_rca seed_rca
    queue_rca-runs trace_id rs ds st = ground arith

    record_finding-runs :
        (trace_id : ℕ) (rs : List TriggeredResult) (ds : List Detector) (st : Store Cost positive)
        → s.accepts_finding ≡ true
        → (record_finding Cost positive s ids trace_id rs ds st).store.runs
          ≡ st.runs ++ map (triggered_row Cost positive s ids trace_id) rs
    unfolding record_finding
    record_finding-runs trace_id [] ds st ok = sym (append_nil st.runs)
    record_finding-runs trace_id (r ∷ rs) ds st ok = rw ok (
        queue_rca-runs trace_id (r ∷ rs) ds _
        ∙ write_all-runs (map (triggered_row Cost positive s ids trace_id) (r ∷ rs)) _)

    write_messages-runs :
        (project : Option (Project Cost positive)) (us : List (ScanUsage Cost positive))
        (st : Store Cost positive)
        → (write_messages Cost positive s project us st).runs ≡ st.runs
    unfolding write_messages
    write_messages-runs none us st = refl
    write_messages-runs (some p) us st = ground arith

    all_runs :
        (table : List Detector) (project : Option (Project Cost positive)) (detector_ids : List ℕ)
        (trace_id : ℕ) (st : Store Cost positive)
        → is_capped Cost positive project ≡ false
        → s.accepts_finding ≡ true
        → (evaluate_trace Cost positive s ids table project detector_ids trace_id st).store.runs
          ≡ st.runs
            ++ (own_rows trace_id (selected Cost positive detector_ids table)
                ++ map
                    (triggered_row Cost positive s ids trace_id)
                    (triggered_of Cost positive s (selected Cost positive detector_ids table)))
    unfolding evaluate_trace
    all_runs table project detector_ids trace_id st open_plan ok =
        let ds = selected Cost positive detector_ids table in
        let ran = run_detectors Cost positive s ids trace_id ds st in
        let billed = write_messages Cost positive s project (usages_of Cost positive s ds) ran in
        rw open_plan (
          record_finding-runs trace_id (triggered_of Cost positive s ds) ds billed ok
          ∙ ap
              (λ before.
                before
                ++ map (triggered_row Cost positive s ids trace_id)
                    (triggered_of Cost positive s ds))
              (write_messages-runs project (usages_of Cost positive s ds) ran
                ∙ run_detectors-runs trace_id ds st)
          ∙ append_assoc st.runs (own_rows trace_id ds)
              (map (triggered_row Cost positive s ids trace_id) (triggered_of Cost positive s ds)))

    -- If the workspace is not capped and the tables accept the writes, an evaluation leaves one row
    -- for each enabled detector that the job names, and the row points to a finding exactly when the
    -- detector triggered.
    pub each_detector_recorded :
        (table : List Detector) (project : Option (Project Cost positive)) (detector_ids : List ℕ)
        (trace_id k : ℕ) (st : Store Cost positive)
        → is_capped Cost positive project ≡ false
        → s.accepts_finding ≡ true
        → (rows_of k
              (evaluate_trace Cost positive s ids table project detector_ids trace_id st).store.runs
            ≡ rows_of k st.runs + runs_of k (selected Cost positive detector_ids table))
          × (linked_rows_of k
                (evaluate_trace Cost positive s ids table project detector_ids trace_id
                  st).store.runs
              ≡ linked_rows_of k st.runs
                + fired k
                    (triggered_of Cost positive s (selected Cost positive detector_ids table)))
    each_detector_recorded table project detector_ids trace_id k st open_plan ok =
        let ds = selected Cost positive detector_ids table in
        let own = own_rows trace_id ds in
        let late =
          map (triggered_row Cost positive s ids trace_id) (triggered_of Cost positive s ds) in
        let (rows, linked) = own_rows-count trace_id k ds in
        let (late_rows, late_linked) =
          triggered_row-count trace_id k (triggered_of Cost positive s ds) in
        let all = all_runs table project detector_ids trace_id st open_plan ok in
        (
          ap (λ r. rows_of k r) all
              ∙ omega (
                arith,
                rows,
                late_rows,
                count_if-append (λ (r : RunRow). r.detector_id == k) st.runs (own ++ late),
                count_if-append (λ (r : RunRow). r.detector_id == k) own late,
              ),
          ap (λ r. linked_rows_of k r) all
              ∙ omega (
                arith,
                linked,
                late_linked,
                count_if-append (λ (r : RunRow). r.detector_id == k && is_some r.finding_id) st.runs
                    (own ++ late),
                count_if-append (λ (r : RunRow). r.detector_id == k && is_some r.finding_id) own
                    late,
              ),
        )
