-- ===== src/Models/Resolve/Byok.antt =====
-- Models of a BYOK row: when the caller must name one, and where the call goes.
use traceroot.Models.Resolve.Laws.{IsRegistry, build_fallback_model-id}
use traceroot.Prelude.{
  non_empty, Option-cases, ◌∙◌, ◌↔◌, refl, none, Option, arith, some, ◌≡◌, Bool, ◌||◌, All, true,
  String, is_none, [], Bool-cases, ◌∷◌, str_eq, subst, inl, is_some, eq_iff, inr, List,
}
use traceroot.Models.Catalog.{pi_ai_provider_of, catalog_of, adapter_to_pi_ai, lookup}
use traceroot.Models.Resolve.{
  Env, resolve_pi_model, resolve_byok, byok_protocol, byok_base_url, Registry, PiModel,
  build_fallback_model, no_curated_model, resolved, known_adapter, ProviderModelConfig,
  byok_model_id, first_id,
}

-- the adapters that the catalog leaves to free text
abbrev pub is_free_text : String → Bool
is_free_text a = str_eq a "azure" || str_eq a "amazon-bedrock" || str_eq a "openrouter"

abbrev Curated : String → Type 0
Curated a =
    (is_none (non_empty (first_id (catalog_of a))) ≡ is_free_text a)
    × (is_some (non_empty (pi_ai_provider_of a)) ≡ true)

lookup-All {ℓ} :
    {A : Type ℓ} (P : String → Type 0) (table : List (String × A)) (key : String) (value : A)
    → lookup key table ≡ some value
    → All (λ (row : String × A). P row.0) table
    → P key
lookup-All P [] key value e h = cc
lookup-All P ((name, v) ∷ table) key value e h = elim (Bool-cases (str_eq name key)) [
  | inl same ↦ subst P ((eq_iff name key).0 same) h.0
  | inr apart ↦ lookup-All P table key value (rw apart at e) h.1
]

adapter-Curated : (a p : String) → pi_ai_provider_of a ≡ some p → Curated a
unfolding pi_ai_provider_of catalog_of
adapter-Curated a p e = lookup-All Curated adapter_to_pi_ai a p e (
  (refl, refl),
  (
    (refl, refl),
    (
      (refl, refl),
      (
        (refl, refl),
        (
          (refl, refl),
          ((refl, refl), ((refl, refl), ((refl, refl), ((refl, refl), ((refl, refl), tt))))),
        ),
      ),
    ),
  ),
)

known_adapter_lem :
    (c : ProviderModelConfig) (p : String)
    → pi_ai_provider_of c.adapter ≡ some p
    → known_adapter (some c) ≡ some (c, p)
known_adapter_lem c p e = ground (arith, adapter-Curated c.adapter p e)

byok_model_id-none :
    (model_id : Option String) (c : ProviderModelConfig)
    → is_none (non_empty (first_id (catalog_of c.adapter))) ≡ is_free_text c.adapter
    → (byok_model_id model_id c ≡ none)
      ↔ ((non_empty model_id ≡ none) × (is_free_text c.adapter ≡ true))
unfolding byok_model_id
byok_model_id-none model_id c h = ground arith

resolve_byok-none :
    {C : Type 0} (pi : Registry C) (model_id : Option String) (c : ProviderModelConfig) (p : String)
    → (resolve_byok pi model_id c p ≡ no_curated_model) ↔ (byok_model_id model_id c ≡ none)
unfolding resolve_byok
resolve_byok-none pi model_id c p = elim (Option-cases (byok_model_id model_id c)) [
  | inl e ↦ rw (resolve_byok, e) (λ _. refl, λ _. refl)
  | inr (id, e) ↦ rw (resolve_byok, e) (λ h. cc, λ h. cc)
]

resolve_known :
    {C : Type 0} (pi : Registry C) (env : Env) (model_id : Option String) (c : ProviderModelConfig)
    (p : String)
    → pi_ai_provider_of c.adapter ≡ some p
    → resolve_pi_model pi env model_id (some c) ≡ resolve_byok pi model_id c p
unfolding resolve_pi_model
resolve_known pi env model_id c p e = rw (resolve_pi_model, known_adapter_lem c p e) refl

-- For a BYOK row of a known adapter the resolution throws exactly when the caller names no model
-- and the adapter is azure, amazon-bedrock or openrouter.
pub no_curated_iff :
    {C : Type 0} (pi : Registry C) (env : Env) (model_id : Option String) (c : ProviderModelConfig)
    (p : String)
    → pi_ai_provider_of c.adapter ≡ some p
    → (resolve_pi_model pi env model_id (some c) ≡ no_curated_model)
      ↔ ((non_empty model_id ≡ none) × (is_free_text c.adapter ≡ true))
no_curated_iff pi env model_id c p e =
    let a = resolve_byok-none pi model_id c p in
    let b = byok_model_id-none model_id c (adapter-Curated c.adapter p e).0 in
    rw (resolve_known pi env model_id c p e) (λ h. b.0 (a.0 h), λ h. a.1 (b.1 h))

-- A BYOK call of a known adapter goes to the row's own address, or else the adapter's, where there is
-- one; it speaks the protocol that the row, the catalog or the adapter gives, in this order; and its
-- model is the one asked for, or else the adapter's first curated one.
pub byok-resolve :
    {C : Type 0} (pi : Registry C) (env : Env) (model_id : Option String) (c : ProviderModelConfig)
    (p id url : String)
    → IsRegistry pi
    → pi_ai_provider_of c.adapter ≡ some p
    → byok_model_id model_id c ≡ some id
    → byok_base_url c ≡ some url
    → (m : PiModel C) × (resolve_pi_model pi env model_id (some c) ≡ resolved (some m))
      × (m.id ≡ id)
      × (m.provider ≡ p)
      × (m.api ≡ byok_protocol c id)
      × (m.base_url ≡ url)
unfolding resolve_byok
byok-resolve pi env model_id c p id url h e named at =
    let kept = build_fallback_model-id pi h id (byok_protocol c id) p in
    (
      record (build_fallback_model pi id (byok_protocol c id) p) { base_url = url },
      resolve_known pi env model_id c p e ∙ rw (resolve_byok, named, at) refl,
      kept.0,
      kept.1,
      kept.2,
      refl,
    )
