-- ===== src/Billing/Plans.antt =====
-- frontend/packages/core/src/ee/billing/plans.ts: plans, quotas, entitlements, seats, retention.
-- An infinite quota or limit is `none`. What `isBillingEnabled()` reads from the environment is the
-- argument `billing`; the two price ids that come from the environment are arguments too.
use traceroot.Prelude.{
  ℕ, ◌+◌, String, Bool, true, false, not, ◌||◌, Option, none, some, List, [], ◌∷◌, ltb, leb, str_eq,
  any, keep, if◌then◌else◌,
}
pub mod Laws
pub mod Tests

pub data PlanType : Type 0 where
  free starter pro enterprise : PlanType

abbrev pub plan_eq : PlanType → PlanType → Bool
plan_eq free free = true
plan_eq starter starter = true
plan_eq pro pro = true
plan_eq enterprise enterprise = true
plan_eq _ _ = false

unfoldable pub event_quota : PlanType → Option ℕ
event_quota free = some 50000
event_quota starter = some 150000
event_quota pro = some 150000
event_quota enterprise = none

unfoldable pub ai_run_quota : PlanType → Option ℕ
ai_run_quota free = some 30
ai_run_quota starter = some 100
ai_run_quota pro = some 100
ai_run_quota enterprise = none

unfoldable pub rca_run_quota : PlanType → Option ℕ
rca_run_quota free = some 30
rca_run_quota starter = some 100
rca_run_quota pro = some 100
rca_run_quota enterprise = none

unfoldable pub detector_run_quota : PlanType → Option ℕ
detector_run_quota free = some 100
detector_run_quota _ = none

abbrev pub detector_hosted_llm_free_threshold : ℕ
detector_hosted_llm_free_threshold = 100

-- `used >= included`, where the quota may be `Infinity`
abbrev pub reaches : ℕ → Option ℕ → Bool
reaches used none = false
reaches used (some cap) = leb cap used

abbrev blocked_by : (PlanType → Option ℕ) → Bool → PlanType → ℕ → Bool
blocked_by quota billing plan used =
    if not billing then false else if plan_eq plan free then reaches used (quota plan) else false

unfoldable pub is_free_plan_blocked : Bool → ℕ → Bool
is_free_plan_blocked billing usage = if not billing then false else leb 50000 usage

unfoldable pub is_ingestion_blocked : Bool → PlanType → ℕ → Bool
unfolding event_quota
is_ingestion_blocked billing plan total_events = blocked_by event_quota billing plan total_events

unfoldable pub is_ai_run_blocked : Bool → PlanType → ℕ → Bool
unfolding ai_run_quota
is_ai_run_blocked billing plan runs_used = blocked_by ai_run_quota billing plan runs_used

unfoldable pub is_rca_run_blocked : Bool → PlanType → ℕ → Bool
unfolding rca_run_quota
is_rca_run_blocked billing plan runs_used = blocked_by rca_run_quota billing plan runs_used

unfoldable pub is_detector_run_blocked : Bool → PlanType → ℕ → Bool
unfolding detector_run_quota
is_detector_run_blocked billing plan scans_run =
    blocked_by detector_run_quota billing plan scans_run

unfoldable pub seat_limit : PlanType → Option ℕ
seat_limit free = some 2
seat_limit _ = none

unfoldable pub can_add_seat : Bool → PlanType → ℕ → Bool
unfolding seat_limit
can_add_seat billing plan current_seat_count =
    if not billing
    then true
    else elim (seat_limit plan) [ none ↦ true | some limit ↦ ltb current_seat_count limit ]

unfoldable pub retention_days : PlanType → Option ℕ
retention_days free = some 15
retention_days starter = some 30
retention_days pro = some 90
retention_days enterprise = none

-- the plan that a raw string names
unfoldable pub plan_of_string : String → Option PlanType
plan_of_string s =
    if str_eq s "free"
    then some free
    else if str_eq s "starter"
    then some starter
    else if str_eq s "pro"
    then some pro
    else if str_eq s "enterprise"
    then some enterprise
    else none

-- `getRetentionDays`: `none` is an unlimited window
unfoldable pub get_retention_days : String → Option ℕ
unfolding plan_of_string retention_days
get_retention_days plan = elim (plan_of_string plan) [ none ↦ some 15 | some p ↦ retention_days p ]

pub data Entitlement : Type 0 where
  retention_15d retention_30d retention_90d custom_retention : Entitlement
  source_code_visible ai_chat_mode ai_agent_mode ai_auto_triage byok : Entitlement
  github_integration slack_integration soc2 custom_compliance sla_support : Entitlement

unfoldable pub entitlement_config : Entitlement → List PlanType
entitlement_config retention_15d = free ∷ []
entitlement_config retention_30d = starter ∷ []
entitlement_config retention_90d = pro ∷ []
entitlement_config custom_retention = enterprise ∷ []
entitlement_config source_code_visible = starter ∷ pro ∷ enterprise ∷ []
entitlement_config ai_chat_mode = free ∷ starter ∷ pro ∷ enterprise ∷ []
entitlement_config ai_agent_mode = free ∷ starter ∷ pro ∷ enterprise ∷ []
entitlement_config ai_auto_triage = free ∷ starter ∷ pro ∷ enterprise ∷ []
entitlement_config byok = free ∷ starter ∷ pro ∷ enterprise ∷ []
entitlement_config github_integration = pro ∷ enterprise ∷ []
entitlement_config slack_integration = free ∷ starter ∷ pro ∷ enterprise ∷ []
entitlement_config soc2 = pro ∷ enterprise ∷ []
entitlement_config custom_compliance = enterprise ∷ []
entitlement_config sla_support = enterprise ∷ []

-- `Object.keys(ENTITLEMENT_CONFIG)`
unfoldable pub entitlements : List Entitlement
entitlements =
    retention_15d ∷ retention_30d ∷ retention_90d ∷ custom_retention ∷ source_code_visible
    ∷ ai_chat_mode ∷ ai_agent_mode ∷ ai_auto_triage ∷ byok ∷ github_integration ∷ slack_integration
    ∷ soc2 ∷ custom_compliance ∷ sla_support ∷ []

-- `getEntitlementsForPlan`, which is also `getEntitlements`
unfoldable pub get_entitlements : PlanType → List Entitlement
unfolding entitlement_config entitlements
get_entitlements plan = keep (λ e. any (plan_eq plan) (entitlement_config e)) entitlements

unfoldable pub has_entitlement : Bool → PlanType → Entitlement → Bool
unfolding entitlement_config
has_entitlement billing plan entitlement =
    if not billing then true else any (plan_eq plan) (entitlement_config entitlement)

unfoldable pub get_plan_order : PlanType → ℕ
get_plan_order free = 0
get_plan_order starter = 1
get_plan_order pro = 2
get_plan_order enterprise = 3

unfoldable pub is_upgrade : PlanType → PlanType → Bool
unfolding get_plan_order
is_upgrade current_plan new_plan = ltb (get_plan_order current_plan) (get_plan_order new_plan)

unfoldable pub is_downgrade : PlanType → PlanType → Bool
unfolding get_plan_order
is_downgrade current_plan new_plan = ltb (get_plan_order new_plan) (get_plan_order current_plan)

-- the `billingPriceId` column of `PLANS`
pub record PriceIds : Type 0 where
  pub starter_price : String
  pub pro_price : String

unfoldable pub billing_price_id : PriceIds → PlanType → String
billing_price_id env free = ""
billing_price_id env starter = env.starter_price
billing_price_id env pro = env.pro_price
billing_price_id env enterprise = ""

first_with_price : PriceIds → String → List PlanType → PlanType
unfolding billing_price_id
first_with_price env price_id [] = free
first_with_price env price_id (plan ∷ plans) =
    if str_eq (billing_price_id env plan) price_id
    then plan
    else first_with_price env price_id plans

unfoldable pub map_price_id_to_plan : PriceIds → Option String → PlanType
unfolding first_with_price
map_price_id_to_plan env none = free
map_price_id_to_plan env (some price_id) =
    if str_eq price_id ""
    then free
    else first_with_price env price_id (free ∷ starter ∷ pro ∷ enterprise ∷ [])
