-- ===== src/Billing/Meters.antt =====
-- The three Stripe meters of frontend/worker/src/ee/billing/usageMetering.ts: the units that a period
-- owes, what was reported before, and what a run of the hourly job reports and remembers.
-- Money is a double in the source. Its type and the operations that the code applies to it are the
-- parameter `Double`; costs are never negative, so that rounding gives a natural number.
use traceroot.Billing.Plans.{detector_hosted_llm_free_threshold}
pub mod Conservation
pub mod AiReset
pub mod Tests
use traceroot.Prelude.{
  ◌*◌, ◌/◌, ltb, opt_eq, ◌-◌, Bool, get_or, none, Option, if◌then◌else◌, some, ◌+◌, ℕ,
}

pub record Double : Type 1 where
  pub Number : Type 0
  pub zero_cost : Number
  pub times : Number → Number → Number
  pub ratio : ℕ → ℕ → Number  -- `a / b`
  pub markup : Number  -- the literal 1.05
  pub hundred : Number  -- the literal 100
  pub round : Number → ℕ  -- `Math.round`

-- `Math.ceil(a / b)`
unfoldable pub ceil_div : ℕ → ℕ → ℕ
ceil_div a b = (a + (b - 1)) / b

-- `Math.max(0, used - included)`, where the included amount may be `Infinity`
unfoldable pub overage : ℕ → Option ℕ → ℕ
overage used none = 0
overage used (some included) = used - included

module _ (d : Double) where
  -- `Math.round(cost * 1.05 * 100)`
  unfoldable pub markup_units : d.Number → ℕ
  markup_units cost = d.round (d.times (d.times cost d.markup) d.hundred)

  -- the billable units of AI runs; `overage_cost` is what `getOverageSystemModelCost` returns
  unfoldable pub ai_billable_units : ℕ → Option ℕ → d.Number → ℕ
  unfolding ceil_div overage markup_units
  ai_billable_units runs_used included overage_cost =
      if ltb 0 (overage runs_used included)
      then ceil_div (overage runs_used included) 100 * 1000 + markup_units overage_cost
      else 0

  -- the share of a cost that falls on the overage
  unfoldable pub overage_share : d.Number → ℕ → ℕ → d.Number
  overage_share cost over used =
      if ltb 0 used then d.times cost (d.ratio over used) else d.zero_cost

  unfoldable pub rca_billable_units : ℕ → Option ℕ → d.Number → ℕ
  unfolding ceil_div overage markup_units overage_share
  rca_billable_units rca_runs_used included cost =
      if ltb 0 (overage rca_runs_used included)
      then ceil_div (overage rca_runs_used included) 100 * 1000
        + markup_units (overage_share cost (overage rca_runs_used included) rca_runs_used)
      else 0

  unfoldable pub detector_billable_units : ℕ → d.Number → ℕ
  unfolding overage markup_units overage_share
  detector_billable_units scans_run cost =
      markup_units
        (overage_share cost (overage scans_run (some detector_hosted_llm_free_threshold)) scans_run)

-- `lastReportedUnits` and `lastReportedPeriodStart` of one meter in `currentUsage`; `none` is absent
-- or null.
pub record Reported : Type 0 where
  pub units : Option ℕ
  pub period_start : Option ℕ

unfoldable pub last_reported_units : Reported → Option ℕ → ℕ
last_reported_units previous period =
    if opt_eq previous.period_start period then get_or previous.units 0 else 0

-- What a run sends to a meter, and what it stores.
pub record Settled : Type 0 where
  pub sent : ℕ
  pub stored : Reported

abbrev reported_at : ℕ → Option ℕ → Reported
reported_at units period = record { units = some units; period_start = period }

-- The values in `updateData.currentUsage` before the Stripe section.
unfoldable pub initial_ai : Reported
initial_ai = record { units = none; period_start = none }

unfoldable pub initial_rca : Reported
initial_rca = record { units = some 0; period_start = none }

unfoldable pub initial_detector : Reported → Reported
initial_detector previous = record {
  units = some (get_or previous.units 0);
  period_start = previous.period_start;
}

-- `accepted` is the answer of the report call, which is made only for a positive delta.
unfoldable pub settle_ai : Reported → Option ℕ → ℕ → Bool → Settled
unfolding last_reported_units initial_ai
settle_ai previous period total accepted =
    let last = last_reported_units previous period in
    if ltb last total
    then (if accepted
        then record { sent = total - last; stored = reported_at total period }
        else record { sent = 0; stored = initial_ai })
    else record { sent = 0; stored = reported_at last period }

unfoldable pub settle_rca : Reported → Option ℕ → ℕ → Bool → Settled
unfolding last_reported_units
settle_rca previous period total accepted =
    let last = last_reported_units previous period in
    if ltb last total
    then (if accepted
        then record { sent = total - last; stored = reported_at total period }
        else record { sent = 0; stored = reported_at last period })
    else record { sent = 0; stored = reported_at last period }

unfoldable pub settle_detector : Reported → Option ℕ → ℕ → Bool → Settled
unfolding last_reported_units initial_detector
settle_detector previous period total accepted =
    let last = last_reported_units previous period in
    if ltb last total
    then (if accepted
        then record { sent = total - last; stored = reported_at total period }
        else record { sent = 0; stored = initial_detector previous })
    else record { sent = 0; stored = reported_at last period }
