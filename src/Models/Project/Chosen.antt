-- ===== src/Models/Project/Chosen.antt =====
-- The agent can use what is forwarded to it.

use traceroot.Models.Resolve.Known.{system_models_known}
use traceroot.Models.Resolve.Laws.{ne_empty, IsRegistry, system_model-resolve}
use traceroot.Prelude.{
  ap, false≢true, ◌≢◌, sym, ◌∙◌, subst, some, inl, ◌⊎◌, refl, true, Option, ◌∷◌, none, String, [],
  Option-cases, inr, ◌≡◌, List, is_some, Bool-cases,
}
use traceroot.Models.Resolve.{
  Env, resolve_pi_model, Resolution, Registry, ProviderModelConfig, system_model_lookup,
  no_curated_model, resolved,
}
use traceroot.Models.Project.{
  resolve_known_project_model, byok_label, by_provider, resolve_project_model, Answer, lists_model,
  LegacyRow, ProjectModel, named_model, caught, labelled, legacy_loop, in_catalog,
  resolve_legacy_byok, rejected_answer, answered, from_system, from_byok,
}

module _ {P : Type 0} (pi : Registry P) (env : Env) (trim : String → String)
    (fetch : String → Option ProviderModelConfig) where
  -- a BYOK label that can be fetched, or the system model that was asked for
  abbrev pub IsUsable : String → ProjectModel → Type 0
  IsUsable id m =
      ((m.source ≡ from_byok) × ((c : ProviderModelConfig) × (fetch m.provider_name ≡ some c)))
      ⊎ ((m.source ≡ from_system) × (m.model ≡ id) × (is_some (system_model_lookup id) ≡ true))

  abbrev Usable : String → Answer → Type 0
  Usable id rejected_answer = Unit
  Usable id (answered none) = Unit
  Usable id (answered (some m)) = IsUsable id m

  by_label-Usable :
      (id label : String) (c : ProviderModelConfig) (r : Resolution P)
      → fetch label ≡ some c
      → Usable id (named_model r (labelled pi env trim fetch label))
  by_label-Usable id label c no_curated_model e = tt
  by_label-Usable id label c (resolved none) e = tt
  by_label-Usable id label c (resolved (some m)) e = inl (refl, (c, e))

  legacy_loop-Usable :
      (id : String) (rows : List LegacyRow) → Usable id (legacy_loop pi env trim fetch id rows)
  legacy_loop-Usable id [] = tt
  legacy_loop-Usable id (r ∷ rows) = elim (Bool-cases (lists_model pi env trim fetch id r)) [
    | inr e ↦ rw (legacy_loop, e) (legacy_loop-Usable id rows)
    | inl e ↦ elim (Option-cases (fetch r.provider)) [
      | inl g ↦ rw (legacy_loop, e, g) (legacy_loop-Usable id rows)
      | inr (c, g) ↦
          rw (legacy_loop, e, g)
            (by_label-Usable id r.provider c (resolve_pi_model pi env (some id) (some c)) g)
    ]
  ]

  caught-Usable : (id : String) (a : Answer) → Usable id a → Usable id (caught a)
  caught-Usable id rejected_answer h = tt
  caught-Usable id (answered m) h = h

  legacy-Usable :
      (id : String) (rows : Option (List LegacyRow))
      → Usable id (resolve_legacy_byok pi env trim fetch id rows)
  unfolding resolve_legacy_byok
  legacy-Usable id none = tt
  legacy-Usable id (some rows) =
      caught-Usable id (legacy_loop pi env trim fetch id rows) (legacy_loop-Usable id rows)

  by_catalog-Usable :
      (id : String)
      → IsRegistry pi
      → id ≢ ""
      → in_catalog id ≡ true
      → Usable id
          (named_model (resolve_pi_model pi env (some id) none) (by_provider pi env trim fetch))
  by_catalog-Usable id law named listed = elim (Option-cases (system_model_lookup id)) [
    | inl e ↦ absurd (false≢true (ap is_some (sym e) ∙ system_models_known id listed))
    | inr (info, e) ↦
        let (m, found, kept, _, _) = system_model-resolve pi env id info law named e in
        rw found (inr (refl, kept, ap is_some e))
  ]

  known-Usable :
      (id : String) (provider source : Option String) (rows : Option (List LegacyRow))
      → IsRegistry pi
      → id ≢ ""
      → Usable id (resolve_known_project_model pi env trim fetch id provider source rows)
  unfolding resolve_known_project_model
  known-Usable id provider source rows law named =
      elim (Option-cases (byok_label pi env trim fetch source provider)) [
        | inr (label, e) ↦ elim (Option-cases (fetch label)) [
          | inl g ↦ rw (resolve_known_project_model, e, g) tt
          | inr (c, g) ↦
              rw (resolve_known_project_model, e, g)
                (by_label-Usable id label c (resolve_pi_model pi env (some id) (some c)) g)
        ]
        | inl e ↦ elim (Bool-cases (in_catalog id)) [
          | inl g ↦ rw (resolve_known_project_model, e, g) (by_catalog-Usable id law named g)
          | inr g ↦ rw (resolve_known_project_model, e, g) (legacy-Usable id rows)
        ]
      ]

  -- What is forwarded to the agent is a BYOK provider's label that can be fetched, or the very system
  -- model that the project names, if the registry answers under the id and provider it is asked for.
  pub project_model-IsUsable :
      (id : String) (provider source : Option String) (rows : Option (List LegacyRow))
      (m : ProjectModel)
      → IsRegistry pi
      → id ≢ ""
      → resolve_project_model pi env trim fetch (some id) provider source rows ≡ answered (some m)
      → IsUsable id m
  unfolding resolve_project_model
  project_model-IsUsable id provider source rows m law named h =
      subst (Usable id) (rw (resolve_project_model, ne_empty id named) at h)
        (known-Usable id provider source rows law named)
