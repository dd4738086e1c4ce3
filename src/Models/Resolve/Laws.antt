-- ===== src/Models/Resolve/Laws.antt =====
-- What a resolved model keeps of the request, and what it substitutes.
use traceroot.Models.Catalog.{provider_priority, system_models, SystemGroup}
use traceroot.Prelude.{
  List, subst, Bool-cases, ◌∷◌, All, find, Bool, [], Option, ◌∙◌, ap, false, str_eq, arith, ◌≢◌,
  eq_iff, inl, some, none, refl, ◌≡◌, String, inr, Option-cases,
}
use traceroot.Models.Resolve.{
  get_default_system_model, or_default, DefaultModel, has_key, default_among, first_model,
  Resolution, Env, resolve_pi_model, resolve_system, SystemInfo, PiModel, fallback_model_id,
  build_fallback_model, Registry, system_model_lookup, resolved,
}

-- the registry answers under the id and the provider it is asked for
abbrev pub IsRegistry : {C : Type 0} → Registry C → Type 0
IsRegistry {C} pi =
    (provider id : String) (m : PiModel C)
    → pi.get_model provider id ≡ some m
    → (m.id ≡ id) × (m.provider ≡ provider)

pub ne_empty : (s : String) → s ≢ "" → str_eq s "" ≡ false
ne_empty s h = ground (arith, eq_iff s "")

pub build_fallback_model-id :
    {C : Type 0} (pi : Registry C)
    → IsRegistry pi
    → (id protocol provider : String)
    → ((build_fallback_model pi id protocol provider).id ≡ id)
      × ((build_fallback_model pi id protocol provider).provider ≡ provider)
      × ((build_fallback_model pi id protocol provider).api ≡ protocol)
unfolding build_fallback_model
build_fallback_model-id pi h id protocol provider = elim (Option-cases (pi.get_model provider id)) [
  | inl e ↦ rw (build_fallback_model, e) (refl, refl, refl)
  | inr (m, e) ↦ rw (build_fallback_model, e) ((h provider id m e).0, (h provider id m e).1, refl)
]

abbrev resolve_id : {C : Type 0} → Registry C → String → Option SystemInfo → Resolution C
resolve_id pi id none = resolved (pi.get_model "anthropic" fallback_model_id)
resolve_id pi id (some info) =
    resolved (some (build_fallback_model pi id info.api_protocol info.pi_ai_provider))

resolve_kept :
    {C : Type 0} (pi : Registry C) (env : Env) (id : String)
    → id ≢ ""
    → resolve_pi_model pi env (some id) none ≡ resolve_id pi id (system_model_lookup id)
unfolding resolve_pi_model resolve_system
resolve_kept pi env id h = ground (arith, ne_empty id h)

-- A model id that passes isSystemModelId resolves to a model with this id, from the provider and
-- with the protocol of its entry, whatever the environment, if the registry answers under the id
-- and provider it is asked for.
pub system_model-resolve :
    {C : Type 0} (pi : Registry C) (env : Env) (id : String) (info : SystemInfo)
    → IsRegistry pi
    → id ≢ ""
    → system_model_lookup id ≡ some info
    → (m : PiModel C) × (resolve_pi_model pi env (some id) none ≡ resolved (some m))
      × (m.id ≡ id)
      × (m.provider ≡ info.pi_ai_provider)
      × (m.api ≡ info.api_protocol)
unfolding resolve_pi_model resolve_system
system_model-resolve pi env id info h e known =
    let kept = build_fallback_model-id pi h id info.api_protocol info.pi_ai_provider in
    (
      build_fallback_model pi id info.api_protocol info.pi_ai_provider,
      resolve_kept pi env id e ∙ ap (resolve_id pi id) known,
      kept.0,
      kept.1,
      kept.2,
    )

-- A model id that is no system model's is answered, without a BYOK row, by the registry's
-- claude-sonnet-4-5, whatever keys the environment has.
pub unknown_model-resolve :
    {C : Type 0} (pi : Registry C) (env : Env) (id : String)
    → id ≢ ""
    → system_model_lookup id ≡ none
    → resolve_pi_model pi env (some id) none ≡ resolved (pi.get_model "anthropic" fallback_model_id)
unfolding resolve_pi_model resolve_system
unknown_model-resolve pi env id e unknown = resolve_kept pi env id e ∙ ap (resolve_id pi id) unknown

abbrev entry_of : DefaultModel → SystemInfo
entry_of d = record { pi_ai_provider = d.pi_ai_provider; api_protocol = d.api_protocol }

abbrev InCatalog : Option DefaultModel → Type 0
InCatalog none = Unit
InCatalog (some d) =
    (system_model_lookup d.model_id ≡ some (entry_of d)) × (str_eq d.model_id "" ≡ false)

find-InCatalog :
    (p : SystemGroup → Bool) (groups : List SystemGroup)
    → All (λ (g : SystemGroup). InCatalog (first_model (some g))) groups
    → InCatalog (first_model (find p groups))
find-InCatalog p [] h = tt
find-InCatalog p (g ∷ groups) h = elim (Bool-cases (p g)) [
  | inl e ↦ rw e h.0
  | inr e ↦ rw e (find-InCatalog p groups h.1)
]

or_default-InCatalog :
    (a b : Option DefaultModel) → InCatalog a → InCatalog b → InCatalog (or_default a b)
or_default-InCatalog none b ha hb = hb
or_default-InCatalog (some d) b ha hb = ha

default_among-InCatalog :
    (env : Env) (adapters : List String) → InCatalog (default_among env adapters)
unfolding system_model_lookup
default_among-InCatalog env [] = tt
default_among-InCatalog env (adapter ∷ adapters) =
    or_default-InCatalog (first_model (find (has_key env adapter) system_models))
      (default_among env adapters)
      (find-InCatalog (has_key env adapter) system_models ((refl, refl), ((refl, refl), tt)))
      (default_among-InCatalog env adapters)

resolve_default :
    {C : Type 0} (pi : Registry C) (d : DefaultModel)
    → system_model_lookup d.model_id ≡ some (entry_of d)
    → str_eq d.model_id "" ≡ false
    → resolve_system pi none (some d)
      ≡ resolved (some (build_fallback_model pi d.model_id d.api_protocol d.pi_ai_provider))
unfolding resolve_system
resolve_default pi d known named = ground arith

-- Without a model id and a BYOK row, but with a key of a system provider, the resolved model is the
-- default one, by the entry that the catalog has for it: the branch behind the lookup that builds
-- the default model is never taken.
pub default-resolve :
    {C : Type 0} (pi : Registry C) (env : Env) (d : DefaultModel)
    → get_default_system_model env ≡ some d
    → (resolve_pi_model pi env none none
        ≡ resolved (some (build_fallback_model pi d.model_id d.api_protocol d.pi_ai_provider)))
      × (system_model_lookup d.model_id ≡ some (entry_of d))
unfolding get_default_system_model resolve_pi_model resolve_system
default-resolve pi env d e =
    let good : InCatalog (some d) =
      subst InCatalog e (default_among-InCatalog env provider_priority) in
    (ap (resolve_system pi none) e ∙ resolve_default pi d good.0 good.1, good.0)
