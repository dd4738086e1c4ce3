-- ===== src/Detection/Rca/Coalescing.antt =====
-- The findings of one window share one flush.
use traceroot.Detection.Rca.{
  is_rca_capped, run_rca, flush_job, update_row, FlushJob, fail_rca, add_flush, upsert_running,
  failed, is_flush, RcaServices, schedule_digest_flush, process_rca_job, done, RcaStore, RcaRequest,
}
use traceroot.Detection.Rca.Alerts.{flushes_of, has_flush}
use traceroot.Prelude.{
  inr, Bool-cases, some, Option, inl, true, refl, Option-cases, ◌≤◌, List, sym, false, ◌∷◌, String,
  subst, none, ap, count_if-append, ◌⊎◌, if◌then◌else◌, ◌≡◌, [], arith, ℕ,
}

no_flush-count :
    (p w : ℕ) (jobs : List FlushJob) → has_flush p w jobs ≡ false → flushes_of p w jobs ≡ 0
no_flush-count p w [] h = refl
no_flush-count p w (j ∷ js) h = ground (arith, no_flush-count p w js)

same_flush :
    (p w : ℕ) (j : FlushJob) → is_flush p w j ≡ true → (j.project_id ≡ p) × (j.window_start ≡ w)
same_flush p w j h = ground (arith, h)

add_flush-one :
    (p w : ℕ) (job : FlushJob) (jobs : List FlushJob)
    → flushes_of p w jobs ≤ 1
    → flushes_of p w (add_flush job jobs) ≤ 1
unfolding add_flush
add_flush-one p w job jobs h = elim (Bool-cases (has_flush job.project_id job.window_start jobs)) [
  | inl there ↦ ground (arith, there, h)
  | inr absent ↦ elim (Bool-cases (is_flush p w job)) [
    | inl same ↦
        let (same_p, same_w) = same_flush p w job same in
        let here : has_flush p w jobs ≡ false =
          subst (λ v. has_flush p v jobs ≡ false) same_w
            (subst (λ q. has_flush q job.window_start jobs ≡ false) same_p absent) in
        ground (
          arith,
          absent,
          same,
          no_flush-count p w jobs here,
          count_if-append (is_flush p w) jobs (job ∷ []),
        )
    | inr other ↦ ground (arith, absent, other, h, count_if-append (is_flush p w) jobs (job ∷ []))
  ]
]

-- The queue is as before, or a flush was offered to it.
abbrev IsOffered : RcaStore → RcaStore → Type 0
IsOffered before later =
    (later.flushes ≡ before.flushes)
    ⊎ ((j : FlushJob) × (later.flushes ≡ add_flush j before.flushes))

module _ (s : RcaServices) (job : RcaRequest) where
  schedule-IsOffered :
      (stored : Option String) (before st : RcaStore)
      → st.flushes ≡ before.flushes
      → IsOffered before (schedule_digest_flush s job stored st)
  unfolding schedule_digest_flush
  schedule-IsOffered stored before st e = elim (Bool-cases s.accepts_flush) [
    | inl ok ↦ inr (flush_job s job stored, rw ok (ap (add_flush (flush_job s job stored)) e))
    | inr refused ↦ inl (rw refused e)
  ]

  failed-IsOffered :
      (stored : Option String) (before st : RcaStore)
      → st.flushes ≡ before.flushes
      → IsOffered before (fail_rca s job stored st).store
  unfolding fail_rca
  failed-IsOffered stored before st e =
      schedule-IsOffered stored before
        (if s.accepts_failed
          then record st { rows = update_row job.finding_id failed (some s.failure) st.rows }
          else st)
        (elim (Bool-cases s.accepts_failed) [ inl ok ↦ rw ok e | inr refused ↦ rw refused e ])

  run-IsOffered :
      (before st : RcaStore)
      → st.flushes ≡ before.flushes
      → IsOffered before (run_rca s job st).store
  unfolding run_rca
  run-IsOffered before st e = elim (Bool-cases s.reads_project) [
    | inr unread ↦ rw unread (failed-IsOffered none before st e)
    | inl read ↦ elim (Option-cases s.session) [
      | inl threw ↦ rw (read, threw) (failed-IsOffered s.alert_window before st e)
      | inr (result, found) ↦ elim (Bool-cases s.accepts_done) [
        | inl ok ↦
            rw (read, found, ok)
              (schedule-IsOffered s.alert_window before
                (record st { rows = update_row job.finding_id done (some result) st.rows }) e)
        | inr refused ↦ rw (read, found, refused) (failed-IsOffered s.alert_window before st e)
      ]
    ]
  ]

  kept_flushes :
      (st : RcaStore)
      → (if s.accepts_failed
          then record st { rows = update_row job.finding_id failed (some s.skipped) st.rows }
          else st).flushes
        ≡ st.flushes
  kept_flushes st = ground arith

  process-IsOffered : (st : RcaStore) → IsOffered st (process_rca_job s job st).store
  unfolding process_rca_job
  process-IsOffered st = elim (Bool-cases (is_rca_capped s)) [
    | inl capped ↦ rw capped (inl (kept_flushes st))
    | inr open_plan ↦ elim (Bool-cases s.accepts_running) [
      | inl ok ↦
          rw (open_plan, ok)
            (run-IsOffered st (record st { rows = upsert_running job.finding_id st.rows }) refl)
      | inr refused ↦ rw (open_plan, refused) (inl refl)
    ]
  ]

offered-one :
    (p w : ℕ) (before later : RcaStore)
    → IsOffered before later
    → flushes_of p w before.flushes ≤ 1
    → flushes_of p w later.flushes ≤ 1
offered-one p w before later (inl e) h = subst (λ js. flushes_of p w js ≤ 1) (sym e) h
offered-one p w before later (inr (j, e)) h =
    subst (λ js. flushes_of p w js ≤ 1) (sym e) (add_flush-one p w j before.flushes h)

unfoldable pub run_rca_jobs : List (RcaServices × RcaRequest) → RcaStore → RcaStore
unfolding process_rca_job
run_rca_jobs [] st = st
run_rca_jobs ((s, job) ∷ rest) st = run_rca_jobs rest (process_rca_job s job st).store

-- However many RCA jobs run and are retried, in whatever order and with whichever failures, the
-- digest queue holds at most one flush for a project and a window, if it started with at most one.
pub one_flush :
    (jobs : List (RcaServices × RcaRequest)) (p w : ℕ) (st : RcaStore)
    → flushes_of p w st.flushes ≤ 1
    → flushes_of p w (run_rca_jobs jobs st).flushes ≤ 1
unfolding run_rca_jobs
one_flush [] p w st h = h
one_flush ((s, job) ∷ rest) p w st h =
    one_flush rest p w _
      (offered-one p w st (process_rca_job s job st).store (process-IsOffered s job st) h)
