-- ===== src/Models/Project.antt =====
-- The model of a root-cause analysis: resolveProjectModel and resolveLegacyByok of
-- frontend/worker/src/processors/detector-rca-processor.ts. `fetch` is a call of
-- fetchProviderConfig for the workspace, `trim` the text's own.
use traceroot.Detection.Stream.{trim}
use traceroot.Detection.Eval.{byok}
pub mod Chosen
pub mod Tests
use traceroot.Prelude.{
  coalesce, non_empty, false, [], Option, some, Bool, true, List, none, String, str_eq, any, ◌∷◌,
  if◌then◌else◌, ℕ,
}
use traceroot.Models.Resolve.{
  Env, Resolution, resolve_pi_model, PiModel, ProviderModelConfig, Registry, no_curated_model,
  resolved,
}
use traceroot.Models.Catalog.{ModelDef, SystemGroup, system_models}

pub data ModelSource : Type 0 where
  from_system from_byok : ModelSource

-- The fields of the message to the agent.
pub record ProjectModel : Type 0 where
  pub model : String
  pub provider_name : String
  pub source : ModelSource

pub record LegacyRow : Type 0 where
  pub provider : String
  pub custom_models : List String

-- A resolution that throws, or whose model is missing, rejects the call.
pub data Answer : Type 0 where
  rejected_answer : Answer
  answered : Option ProjectModel → Answer

abbrev pub named_model : {P : Type 0} → Resolution P → (PiModel P → ProjectModel) → Answer
named_model no_curated_model f = rejected_answer
named_model (resolved none) f = rejected_answer
named_model (resolved (some m)) f = answered (some (f m))

-- a `catch` that answers null
abbrev caught : Answer → Answer
caught rejected_answer = answered none
caught (answered m) = answered m

abbrev pub in_catalog : String → Bool
in_catalog id =
    any (λ (g : SystemGroup). any (λ (m : ModelDef). str_eq m.id id) g.models) system_models

module _ {P : Type 0} (pi : Registry P) (env : Env) (trim : String → String)
    (fetch : String → Option ProviderModelConfig) where
  abbrev lists_model : String → LegacyRow → Bool
  lists_model id r = any (λ (m : String). str_eq (trim m) id) r.custom_models

  abbrev labelled : String → PiModel P → ProjectModel
  labelled label m = record { model = m.id; provider_name = label; source = from_byok }

  abbrev by_provider : PiModel P → ProjectModel
  by_provider m = record { model = m.id; provider_name = m.provider; source = from_system }

  abbrev by_label : String → String → ProviderModelConfig → Answer
  by_label id label c = named_model (resolve_pi_model pi env (some id) (some c)) (labelled label)

  abbrev legacy_loop : String → List LegacyRow → Answer
  legacy_loop id [] = answered none
  legacy_loop id (r ∷ rows) = elim (lists_model id r) [
    | false ↦ legacy_loop id rows
    | true ↦ elim (fetch r.provider) [
      | some c ↦ by_label id r.provider c
      | none ↦ legacy_loop id rows
    ]
  ]

  -- `rows` are the workspace's enabled providers, `none` if the query fails
  unfoldable pub resolve_legacy_byok : String → Option (List LegacyRow) → Answer
  resolve_legacy_byok id none = answered none
  resolve_legacy_byok id (some rows) = caught (legacy_loop id rows)

  -- the label of a request for a BYOK model
  abbrev byok_label : Option String → Option String → Option String
  byok_label source provider = elim source [
    | none ↦ none
    | some s ↦ if str_eq s "byok" then non_empty provider else none
  ]

  unfoldable pub resolve_known_project_model :
      String → Option String → Option String → Option (List LegacyRow) → Answer
  unfolding resolve_legacy_byok
  resolve_known_project_model id provider source rows = elim (byok_label source provider) [
    | some label ↦ elim (fetch label) [ none ↦ answered none | some c ↦ by_label id label c ]
    | none ↦
        if in_catalog id
        then named_model (resolve_pi_model pi env (some id) none) by_provider
        else resolve_legacy_byok id rows
  ]

  unfoldable pub resolve_project_model :
      Option String → Option String → Option String → Option (List LegacyRow) → Answer
  unfolding resolve_known_project_model
  resolve_project_model model provider source rows = elim (non_empty model) [
    | none ↦ answered none
    | some id ↦ resolve_known_project_model id provider source rows
  ]
