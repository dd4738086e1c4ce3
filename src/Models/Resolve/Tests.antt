-- ===== src/Models/Resolve/Tests.antt =====
-- A registry that knows every model, and rows of two adapters.
use traceroot.Models.Catalog.{pi_ai_provider_of}
use traceroot.Prelude.{
  non_empty, true, String, ◌∷◌, sym, ◌≢◌, ap, ◌≡◌, [], if◌then◌else◌, eq_iff, false≢true, str_eq,
  none, refl, some, ◌↔◌, ℕ,
}
use traceroot.Models.Resolve.{
  Env, ProviderModelConfig, PiModel, resolve_pi_model, Registry, no_curated_model,
}
use traceroot.Models.Resolve.Laws.{IsRegistry}
use traceroot.Models.Resolve.Byok.{is_free_text, no_curated_iff}

abbrev listed : String → String → PiModel ℕ
listed provider id = record {
  id = id;
  name = id;
  api = "registry-protocol";
  provider = provider;
  base_url = "https://registry.example";
  reasoning = true;
  inputs = "text" ∷ [];
  cost = 3;
  context_window = 200000;
  max_tokens = 64000;
}

abbrev listing : Registry ℕ
listing = record { get_model = λ provider id. some (listed provider id); no_cost = 0 }

listing-IsRegistry : IsRegistry listing
listing-IsRegistry provider id m e =
    let same : listed provider id ≡ m = cc in
    (ap (λ (k : PiModel ℕ). k.id) (sym same), ap (λ (k : PiModel ℕ). k.provider) (sym same))

abbrev openai_env : Env
openai_env name = if str_eq name "OPENAI_API_KEY" then some "key" else none

abbrev azure_row : ProviderModelConfig
azure_row = record {
  adapter = "azure";
  key = "k";
  base_url = some "https://a.example";
  protocols = [];
}

abbrev moonshot_row : ProviderModelConfig
moonshot_row = record { adapter = "moonshot"; key = "k"; base_url = none; protocols = [] }

abbrev retired : String
retired = "claude-2"

retired_named : retired ≢ ""
retired_named h = false≢true ((eq_iff retired "").1 h)

no_curated_iff_example :
    (resolve_pi_model listing openai_env none (some azure_row) ≡ no_curated_model)
    ↔ ((non_empty none ≡ none) × (is_free_text "azure" ≡ true))
unfolding pi_ai_provider_of
no_curated_iff_example =
    no_curated_iff listing openai_env none azure_row "azure-openai-responses" refl
