-- ===== src/Detection/Rca/Alerts.antt =====
-- What a run of the RCA job leaves: an ended analysis and a scheduled digest.
use traceroot.Detection.Run.{Text}
use traceroot.Detection.Rca.{
  schedule_digest_flush, process_rca_job, is_rca_capped, RcaStore, run_rca, failed, done, fail_rca,
  keep_result, flush_job, RcaRequest, upsert_running, RcaServices, add_flush, window_ms, has_row,
  is_flush, FlushJob, running, RcaRow, RcaStatus, window_start_for, update_row,
}
use traceroot.Prelude.{
  refl, some, any-append, ==_self, inl, inr, Bool-cases, Option-cases, arith, any, all, get_or, not,
  List, false, String, none, ◌∷◌, [], true, count_if, ◌≡◌, ◌==◌, Option, Bool, ◌&&◌, if◌then◌else◌,
  ◌||◌, ℕ,
}

abbrev pub flushes_of : ℕ → ℕ → List FlushJob → ℕ
flushes_of p w jobs = count_if (is_flush p w) jobs

abbrev pub has_flush : ℕ → ℕ → List FlushJob → Bool
has_flush p w jobs = any (is_flush p w) jobs

abbrev pub is_ended : RcaStatus → Bool
is_ended running = false
is_ended _ = true

-- the finding has a row, and none of its rows is still running
abbrev pub has_ended : ℕ → List RcaRow → Bool
has_ended f rows =
    has_row f rows && all (λ (r : RcaRow). not (r.finding_id == f) || is_ended r.status) rows

-- the window that the digest is filed under
abbrev pub filed_window : RcaServices → RcaRequest → ℕ
filed_window s job =
    let stored : Option String = if s.reads_project then s.alert_window else none in
    window_start_for (get_or job.finding_timestamp s.now) (window_ms stored)

abbrev pub none_runs : ℕ → List RcaRow → Bool
none_runs f rows = all (λ (r : RcaRow). not (r.finding_id == f) || is_ended r.status) rows

update_row-none_runs :
    (f : ℕ) (status : RcaStatus) (result : Option Text) (rows : List RcaRow)
    → is_ended status ≡ true
    → none_runs f (update_row f status result rows) ≡ true
unfolding update_row
update_row-none_runs f status result [] e = refl
update_row-none_runs f status result (r ∷ rows) e = elim (Bool-cases (r.finding_id == f)) [
  | inl own ↦ ground (arith, own, e, update_row-none_runs f status result rows e)
  | inr other ↦ ground (arith, other, update_row-none_runs f status result rows e)
]

update_row-has_row :
    (f : ℕ) (status : RcaStatus) (result : Option Text) (rows : List RcaRow)
    → has_row f (update_row f status result rows) ≡ has_row f rows
unfolding update_row
update_row-has_row f status result [] = refl
update_row-has_row f status result (r ∷ rows) =
    ground (arith, update_row-has_row f status result rows)

keep_result-has_row :
    (f : ℕ) (status : RcaStatus) (rows : List RcaRow)
    → has_row f (keep_result f status rows) ≡ has_row f rows
keep_result-has_row f status [] = refl
keep_result-has_row f status (r ∷ rows) = ground (arith, keep_result-has_row f status rows)

upsert_running-has_row : (f : ℕ) (rows : List RcaRow) → has_row f (upsert_running f rows) ≡ true
unfolding upsert_running
upsert_running-has_row f rows = ground (
  arith,
  ==_self f,
  keep_result-has_row f running rows,
  any-append (λ (r : RcaRow). r.finding_id == f) rows
      (record { finding_id = f; status = running; result = none } ∷ []),
)

add_flush-has :
    (job : FlushJob) (jobs : List FlushJob)
    → has_flush job.project_id job.window_start (add_flush job jobs) ≡ true
unfolding add_flush
add_flush-has job jobs = ground (
  arith,
  ==_self job.project_id,
  ==_self job.window_start,
  any-append (is_flush job.project_id job.window_start) jobs (job ∷ []),
)

-- The state after a `try` or `catch`: ended, and with the digest scheduled.
abbrev pub IsAlerted : RcaRequest → ℕ → RcaStore → Type 0
IsAlerted job window st =
    (has_ended job.finding_id st.rows ≡ true) × (has_flush job.project_id window st.flushes ≡ true)

module _ (s : RcaServices) (job : RcaRequest) (queued : s.accepts_flush ≡ true) where
  scheduled :
      (stored : Option String) (status : RcaStatus) (result : Option Text) (st : RcaStore)
      → is_ended status ≡ true
      → has_row job.finding_id st.rows ≡ true
      → IsAlerted job (window_start_for (get_or job.finding_timestamp s.now) (window_ms stored)) (
          schedule_digest_flush s job stored
            (record st { rows = update_row job.finding_id status result st.rows }))
  unfolding schedule_digest_flush flush_job
  scheduled stored status result st e h = rw queued (
    ground (
      arith,
      update_row-none_runs job.finding_id status result st.rows e,
      update_row-has_row job.finding_id status result st.rows,
      h,
    ),
    add_flush-has (flush_job s job stored) st.flushes,
  )

  module _ (fails : s.accepts_failed ≡ true) where
    failed-IsAlerted :
        (stored : Option String) (st : RcaStore)
        → has_row job.finding_id st.rows ≡ true
        → IsAlerted job
            (window_start_for (get_or job.finding_timestamp s.now) (window_ms stored))
            (fail_rca s job stored st).store
    unfolding fail_rca
    failed-IsAlerted stored st h = rw fails (scheduled stored failed (some s.failure) st refl h)

    run-IsAlerted :
        (st : RcaStore)
        → has_row job.finding_id st.rows ≡ true
        → IsAlerted job (filed_window s job) (run_rca s job st).store
    unfolding run_rca
    run-IsAlerted st h = elim (Bool-cases s.reads_project) [
      | inr unread ↦ rw unread (failed-IsAlerted none st h)
      | inl read ↦ elim (Option-cases s.session) [
        | inl threw ↦ rw (read, threw) (failed-IsAlerted s.alert_window st h)
        | inr (result, e) ↦ elim (Bool-cases s.accepts_done) [
          | inl ok ↦ rw (read, e, ok) (scheduled s.alert_window done (some result) st refl h)
          | inr refused ↦ rw (read, e, refused) (failed-IsAlerted s.alert_window st h)
        ]
      ]
    ]

    -- If the workspace is not capped and the tables and the queue accept the writes, then however
    -- the session and the project's read end, the finding's analysis has ended and a digest is
    -- scheduled for the window of its timestamp.
    pub ends_and_alerts :
        (st : RcaStore)
        → is_rca_capped s ≡ false
        → s.accepts_running ≡ true
        → IsAlerted job (filed_window s job) (process_rca_job s job st).store
    unfolding process_rca_job
    ends_and_alerts st open_plan ok =
        rw (open_plan, ok)
          (run-IsAlerted (record st { rows = upsert_running job.finding_id st.rows })
            (upsert_running-has_row job.finding_id st.rows))
