-- ===== src/Models/Resolve.antt =====
-- From a model's id to a model of pi-ai: frontend/packages/core/src/model-resolver.ts. The registry of
-- pi-ai and the type of its prices are parameters, the environment is a function.
pub mod Byok
pub mod Known
pub mod Laws
pub mod Tests
use traceroot.Prelude.{
  non_empty, Bool, str_eq, ◌&&◌, List, is_some, some, String, Option, none, find, get_or, ◌∷◌,
  if◌then◌else◌, false, [], ℕ,
}
use traceroot.Models.Catalog.{
  ModelDef, SystemGroup, lookup, pi_ai_provider_of, default_base_url_of, api_protocol_of,
  catalog_of, system_models, provider_priority,
}

-- A row of the workspace's providers, its key decrypted; `protocols` is `config.modelProtocols`.
pub record ProviderModelConfig : Type 0 where
  pub adapter : String
  pub key : String
  pub base_url : Option String
  pub protocols : List (String × String)

-- pi-ai's `Model<Api>`, over the type of its prices
pub record PiModel (C : Type 0) : Type 0 where
  pub id : String
  pub name : String
  pub api : String
  pub provider : String
  pub base_url : String
  pub reasoning : Bool
  pub inputs : List String
  pub cost : C
  pub context_window : ℕ
  pub max_tokens : ℕ

-- `getModel` of pi-ai, with the price of a model that costs nothing
pub record Registry (C : Type 0) : Type 0 where
  pub get_model : String → String → Option (PiModel C)
  pub no_cost : C

-- the environment variables
abbrev pub Env : Type 0
Env = String → Option String

-- `a || b`
abbrev pub or_else : Option String → Option String → Option String
or_else a b = elim (non_empty a) [ some s ↦ some s | none ↦ b ]

pub record SystemInfo : Type 0 where
  pub pi_ai_provider : String
  pub api_protocol : String

abbrev system_info : SystemGroup → ModelDef → SystemInfo
system_info g m = record {
  pi_ai_provider = g.pi_ai_provider;
  api_protocol = get_or (non_empty m.api_protocol) g.api_protocol;
}

-- `systemModelLookup.set(...)`, over a map that is a function
abbrev put : String → SystemInfo → (String → Option SystemInfo) → String → Option SystemInfo
put key info known id = if str_eq key id then some info else known id

abbrev put_models :
    SystemGroup → List ModelDef → (String → Option SystemInfo) → String → Option SystemInfo
put_models g [] known = known
put_models g (m ∷ ms) known = put_models g ms (put m.id (system_info g m) known)

abbrev put_groups : List SystemGroup → (String → Option SystemInfo) → String → Option SystemInfo
put_groups [] known = known
put_groups (g ∷ groups) known = put_groups groups (put_models g g.models known)

unfoldable pub system_model_lookup : String → Option SystemInfo
system_model_lookup = put_groups system_models (λ id. none)

unfoldable pub is_system_model_id : String → Bool
unfolding system_model_lookup
is_system_model_id id = is_some (system_model_lookup id)

unfoldable pub build_fallback_model :
    {C : Type 0} → Registry C → String → String → String → PiModel C
build_fallback_model pi model_id protocol provider = elim (pi.get_model provider model_id) [
  | some m ↦ record m { api = protocol }
  | none ↦ record {
    id = model_id;
    name = model_id;
    api = protocol;
    provider = provider;
    base_url = "";
    reasoning = false;
    inputs = "text" ∷ "image" ∷ [];
    cost = pi.no_cost;
    context_window = 200000;
    max_tokens = 64000;
  }
]

pub record DefaultModel : Type 0 where
  pub model_id : String
  pub pi_ai_provider : String
  pub api_protocol : String

abbrev has_key : Env → String → SystemGroup → Bool
has_key env adapter g = str_eq g.pi_ai_provider adapter && is_some (non_empty (env g.env_var))

-- the first model of a group
abbrev first_model : Option SystemGroup → Option DefaultModel
first_model none = none
first_model (some g) = elim g.models [
  | [] ↦ none
  | m ∷ ms ↦ some record {
    model_id = m.id;
    pi_ai_provider = g.pi_ai_provider;
    api_protocol = get_or (non_empty m.api_protocol) g.api_protocol;
  }
]

abbrev or_default : Option DefaultModel → Option DefaultModel → Option DefaultModel
or_default none rest = rest
or_default (some d) rest = some d

abbrev default_among : Env → List String → Option DefaultModel
default_among env [] = none
default_among env (adapter ∷ adapters) =
    or_default (first_model (find (has_key env adapter) system_models)) (default_among env adapters)

unfoldable pub get_default_system_model : Env → Option DefaultModel
get_default_system_model env = default_among env provider_priority

-- The thrown error, or the model; `getModel` may know none.
pub data Resolution (C : Type 0) : Type 0 where
  no_curated_model : Resolution C
  resolved : Option (PiModel C) → Resolution C

abbrev first_id : Option (List ModelDef) → Option String
first_id none = none
first_id (some []) = none
first_id (some (m ∷ ms)) = some m.id

abbrev own_protocol : Option (List ModelDef) → String → Option String
own_protocol none id = none
own_protocol (some ms) id = elim (find (λ (m : ModelDef). str_eq m.id id) ms) [
  | some m ↦ m.api_protocol
  | none ↦ none
]

unfoldable pub byok_protocol : ProviderModelConfig → String → String
byok_protocol c id =
    get_or
      (or_else (lookup id c.protocols)
        (or_else (own_protocol (catalog_of c.adapter) id) (non_empty (api_protocol_of c.adapter))))
      "openai-completions"

abbrev with_base_url : {C : Type 0} → Option String → PiModel C → PiModel C
with_base_url none m = m
with_base_url (some url) m = record m { base_url = url }

-- the address that a BYOK call goes to, where the row or the adapter has one
unfoldable pub byok_base_url : ProviderModelConfig → Option String
byok_base_url c = or_else c.base_url (non_empty (default_base_url_of c.adapter))

-- the id of a BYOK call's model
unfoldable pub byok_model_id : Option String → ProviderModelConfig → Option String
byok_model_id model_id c = or_else model_id (non_empty (first_id (catalog_of c.adapter)))

unfoldable pub resolve_byok :
    {C : Type 0} → Registry C → Option String → ProviderModelConfig → String → Resolution C
unfolding byok_model_id
resolve_byok pi model_id c provider = elim (byok_model_id model_id c) [
  | none ↦ no_curated_model
  | some id ↦ resolved (
      some (
        with_base_url (byok_base_url c) (build_fallback_model pi id (byok_protocol c id) provider)))
]

abbrev pub fallback_model_id : String
fallback_model_id = "claude-sonnet-4-5"

abbrev default_id : Option DefaultModel → Option String
default_id none = none
default_id (some d) = some d.model_id

abbrev effective_id : Option String → Option DefaultModel → String
effective_id model_id d = get_or (or_else model_id (non_empty (default_id d))) fallback_model_id

unfoldable pub resolve_system :
    {C : Type 0} → Registry C → Option String → Option DefaultModel → Resolution C
resolve_system pi model_id d = elim (system_model_lookup (effective_id model_id d)) [
  | some info ↦ resolved (
      some
        (build_fallback_model pi (effective_id model_id d) info.api_protocol info.pi_ai_provider))
  | none ↦ elim d [
    | some m ↦ resolved (some (build_fallback_model pi m.model_id m.api_protocol m.pi_ai_provider))
    | none ↦ resolved (pi.get_model "anthropic" fallback_model_id)
  ]
]

-- the BYOK row with its provider at pi-ai, where its adapter is known
abbrev pub known_adapter : Option ProviderModelConfig → Option (ProviderModelConfig × String)
known_adapter none = none
known_adapter (some c) = elim (non_empty (pi_ai_provider_of c.adapter)) [
  | some provider ↦ some (c, provider)
  | none ↦ none
]

abbrev default_if_unset : Env → Option String → Option DefaultModel
default_if_unset env model_id = elim (non_empty model_id) [
  | some id ↦ none
  | none ↦ get_default_system_model env
]

unfoldable pub resolve_pi_model :
    {C : Type 0} → Registry C → Env → Option String → Option ProviderModelConfig → Resolution C
resolve_pi_model pi env model_id config = elim (known_adapter config) [
  | some (c, provider) ↦ resolve_byok pi model_id c provider
  | none ↦ resolve_system pi model_id (default_if_unset env model_id)
]
