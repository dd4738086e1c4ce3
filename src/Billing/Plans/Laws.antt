-- ===== src/Billing/Plans/Laws.antt =====
-- What the plan tables guarantee: quotas, entitlements, retention and price ids.
use traceroot.Prelude.{
  ℕ, ◌≤◌, ◌≡◌, refl, ◌≢◌, ◌↔◌, String, Bool, true, false, Option, none, some, arith, eq_iff, any,
  IsIn, IsIn-keep_iff,
}
use traceroot.Billing.Plans.{
  PlanType, free, starter, pro, plan_eq, is_ingestion_blocked, is_ai_run_blocked,
  is_rca_run_blocked, is_detector_run_blocked, Entitlement, retention_15d, retention_30d,
  retention_90d, custom_retention, has_entitlement, get_entitlements, is_upgrade, retention_days,
  get_retention_days, plan_of_string, PriceIds, billing_price_id, map_price_id_to_plan,
  entitlement_config, entitlements, seat_limit, event_quota, ai_run_quota, rca_run_quota,
  detector_run_quota,
}

-- A run of some kind is blocked exactly when billing is enabled, the plan is the free one, and the
-- use has reached the cap.
abbrev pub IsCapped : Bool → PlanType → ℕ → ℕ → Type 0
IsCapped billing plan cap used = (billing ≡ true) × (plan ≡ free) × (cap ≤ used)

-- Each of the four kinds of use (events, AI runs, RCA runs, detector scans) is blocked exactly when
-- billing is enabled, the plan is free and the use has reached 50000, 30, 30 or 100.
pub blocked_iff :
    (billing : Bool) (plan : PlanType) (used : ℕ)
    → ((is_ingestion_blocked billing plan used ≡ true) ↔ IsCapped billing plan 50000 used)
      × ((is_ai_run_blocked billing plan used ≡ true) ↔ IsCapped billing plan 30 used)
      × ((is_rca_run_blocked billing plan used ≡ true) ↔ IsCapped billing plan 30 used)
      × ((is_detector_run_blocked billing plan used ≡ true) ↔ IsCapped billing plan 100 used)
unfolding is_ingestion_blocked is_ai_run_blocked is_rca_run_blocked is_detector_run_blocked
blocked_iff billing plan used = ground arith

-- An entitlement that names a plan's own retention window, and no other plan's.
abbrev pub IsRetention : Entitlement → Type 0
IsRetention retention_15d = Unit
IsRetention retention_30d = Unit
IsRetention retention_90d = Unit
IsRetention custom_retention = Unit
IsRetention _ = ⊥

-- `b` allows at least what `a` allows, where `none` is no limit.
abbrev pub AtMost : Option ℕ → Option ℕ → Type 0
AtMost a none = Unit
AtMost none (some n) = ⊥
AtMost (some m) (some n) = m ≤ n

-- Every table of the plans, at one plan, is at most what it is at the other.
pub record IsCoveredBy (p q : PlanType) : Type 0 where
  pub events : AtMost (event_quota p) (event_quota q)
  pub ai_runs : AtMost (ai_run_quota p) (ai_run_quota q)
  pub rca_runs : AtMost (rca_run_quota p) (rca_run_quota q)
  pub detector_runs : AtMost (detector_run_quota p) (detector_run_quota q)
  pub seats : AtMost (seat_limit p) (seat_limit q)
  pub retention : AtMost (retention_days p) (retention_days q)

entitled :
    (p q : PlanType) (e : Entitlement)
    → is_upgrade p q ≡ true
    → ¬ IsRetention e
    → has_entitlement true p e ≡ true
    → has_entitlement true q e ≡ true
unfolding is_upgrade has_entitlement
entitled p q retention_15d h n k = absurd (n tt)
entitled p q retention_30d h n k = absurd (n tt)
entitled p q retention_90d h n k = absurd (n tt)
entitled p q custom_retention h n k = absurd (n tt)
entitled p q _ h n k = ground arith

-- Moving to a higher plan never shrinks a quota, the seats or the retention window, and loses no
-- entitlement but one that names the old plan's own retention window.
pub upgrade_keeps :
    (p q : PlanType)
    → is_upgrade p q ≡ true
    → IsCoveredBy p q
      × ((e : Entitlement)
          → ¬ IsRetention e
          → has_entitlement true p e ≡ true
          → has_entitlement true q e ≡ true)
unfolding is_upgrade has_entitlement event_quota ai_run_quota rca_run_quota detector_run_quota
    seat_limit retention_days
upgrade_keeps free free h = absurd (ground arith)
upgrade_keeps p q h = (
  record {
    events = ground arith;
    ai_runs = ground arith;
    rca_runs = ground arith;
    detector_runs = ground arith;
    seats = ground arith;
    retention = ground arith;
  },
  λ e n k. entitled p q e h n k,
)

entitlements_complete : (e : Entitlement) → IsIn e entitlements
unfolding entitlements
entitlements_complete e = ground arith

-- With billing enabled, a plan has an entitlement exactly when `getEntitlements` lists it; with
-- billing disabled it has every entitlement.
pub has_entitlement_iff :
    (p : PlanType) (e : Entitlement)
    → ((has_entitlement true p e ≡ true) ↔ IsIn e (get_entitlements p))
      × (has_entitlement false p e ≡ true)
unfolding has_entitlement get_entitlements
has_entitlement_iff p e =
    let listed = IsIn-keep_iff (λ e. any (plan_eq p) (entitlement_config e)) e entitlements in
    ((λ h. listed.1 (entitlements_complete e, h), λ m. (listed.0 m).1), refl)

-- A string that names no plan gets a retention window no longer than any plan's.
pub retention_fails_closed :
    (s : String) (p : PlanType)
    → plan_of_string s ≡ none
    → AtMost (get_retention_days s) (retention_days p)
unfolding get_retention_days
retention_fails_closed s free h = rw (h, get_retention_days) (omega arith)
retention_fails_closed s p h = ground arith

module _ (env : PriceIds) (set_starter : env.starter_price ≢ "") where
  starter_of_price : map_price_id_to_plan env (some (billing_price_id env starter)) ≡ starter
  unfolding map_price_id_to_plan
  starter_of_price = ground (
    arith,
    eq_iff env.starter_price "",
    eq_iff "" env.starter_price,
    eq_iff env.starter_price env.starter_price,
  )

  pro_of_price :
      env.pro_price ≢ ""
      → env.starter_price ≢ env.pro_price
      → map_price_id_to_plan env (some (billing_price_id env pro)) ≡ pro
  unfolding map_price_id_to_plan
  pro_of_price b c = ground (
    arith,
    eq_iff env.pro_price "",
    eq_iff "" env.pro_price,
    eq_iff env.pro_price env.pro_price,
    eq_iff env.starter_price env.pro_price,
  )

free_of_price :
    (env : PriceIds) (s : Option String)
    → s ≢ some env.starter_price
    → s ≢ some env.pro_price
    → map_price_id_to_plan env s ≡ free
unfolding map_price_id_to_plan
free_of_price env none n m = refl
free_of_price env (some x) n m =
    ground (arith, eq_iff x "", eq_iff env.starter_price x, eq_iff env.pro_price x, eq_iff "" x)

-- If the two price ids are set and differ, each maps back to its plan, and any other price id, or
-- none, maps to the free plan.
pub map_price_id_lem :
    (env : PriceIds)
    → env.starter_price ≢ ""
    → env.pro_price ≢ ""
    → env.starter_price ≢ env.pro_price
    → (map_price_id_to_plan env (some (billing_price_id env starter)) ≡ starter)
      × (map_price_id_to_plan env (some (billing_price_id env pro)) ≡ pro)
      × ((s : Option String)
          → s ≢ some env.starter_price
          → s ≢ some env.pro_price
          → map_price_id_to_plan env s ≡ free)
map_price_id_lem env a b c = (starter_of_price env a, pro_of_price env a b c, free_of_price env)
