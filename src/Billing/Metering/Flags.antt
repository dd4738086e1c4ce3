-- ===== src/Billing/Metering/Flags.antt =====
-- The blocking flags that a run of the billing job leaves.
use traceroot.Billing.Metering.{
  next_flag, next_ingestion, Workspace, Answers, process_workspace, update_flags, Clock, usage_of,
  ai_window,
}
use traceroot.Billing.Meters.{Double}
use traceroot.Billing.Plans.{
  PlanType, free, plan_eq, is_rca_run_blocked, is_ai_run_blocked, is_ingestion_blocked,
  is_detector_run_blocked,
}
use traceroot.Prelude.{refl, true, ℕ, false, sym, arith, Bool, ◌≡◌, ◌+◌}

next_ingestion_lem : (old should_block : Bool) → next_ingestion old should_block ≡ should_block
next_ingestion_lem true b = ground arith
next_ingestion_lem false b = ground arith

next_flag_lem :
    (is_free old should_block : Bool)
    → (is_free ≡ false → should_block ≡ false)
    → next_flag is_free old should_block ≡ should_block
next_flag_lem true old b h = next_ingestion_lem old b
next_flag_lem false true b h = sym (h refl)
next_flag_lem false false b h = sym (h refl)

paid_ai :
    (billing : Bool) (plan : PlanType) (n : ℕ)
    → plan_eq plan free ≡ false
    → is_ai_run_blocked billing plan n ≡ false
unfolding is_ai_run_blocked
paid_ai billing plan n h = ground arith

paid_rca :
    (billing : Bool) (plan : PlanType) (n : ℕ)
    → plan_eq plan free ≡ false
    → is_rca_run_blocked billing plan n ≡ false
unfolding is_rca_run_blocked
paid_rca billing plan n h = ground arith

paid_detector :
    (billing : Bool) (plan : PlanType) (n : ℕ)
    → plan_eq plan free ≡ false
    → is_detector_run_blocked billing plan n ≡ false
unfolding is_detector_run_blocked
paid_detector billing plan n h = ground arith

module _ (d : Double) (billing : Bool) (c : Clock) (a : Answers d) (w : Workspace) where
  abbrev pub processed : Workspace
  processed = (process_workspace d billing c a w).workspace

  -- After a run the four flags say whether the measured usage is blocked under the workspace's
  -- plan, whatever they said before: a stale flag of a workspace that has upgraded is cleared.
  pub flags_exact :
      (processed.ingestion_blocked
        ≡ is_ingestion_blocked billing w.billing_plan
            ((usage_of d c a w).traces + (usage_of d c a w).spans))
      × (processed.ai_blocked
          ≡ is_ai_run_blocked billing w.billing_plan (a.ai_runs (ai_window c w)))
      × (processed.rca_blocked
          ≡ is_rca_run_blocked billing w.billing_plan (a.rca_runs (ai_window c w)))
      × (processed.detector_blocked
          ≡ is_detector_run_blocked billing w.billing_plan (usage_of d c a w).detector_runs)
  unfolding update_flags process_workspace
  flags_exact = (
    next_ingestion_lem w.ingestion_blocked _,
    next_flag_lem (plan_eq w.billing_plan free) w.ai_blocked _ (paid_ai billing w.billing_plan _),
    next_flag_lem (plan_eq w.billing_plan free) w.rca_blocked _ (paid_rca billing w.billing_plan _),
    next_flag_lem (plan_eq w.billing_plan free) w.detector_blocked _
        (paid_detector billing w.billing_plan _),
  )
