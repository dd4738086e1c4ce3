-- ===== src/Models/Project/Tests.antt =====
-- A project that names a model which only an old provider row lists.
use traceroot.Models.Resolve.Laws.{IsRegistry}
use traceroot.Models.Catalog.{default_base_url_of, catalog_of, pi_ai_provider_of}
use traceroot.Prelude.{
  ap, [], Option, if◌then◌else◌, str_eq, ◌≢◌, ◌∷◌, none, sym, ◌≡◌, List, refl, some, false≢true,
  String, eq_iff, true, ℕ,
}
use traceroot.Models.Resolve.{
  Env, resolve_pi_model, Registry, ProviderModelConfig, byok_base_url, resolve_byok, byok_protocol,
  PiModel, build_fallback_model,
}
use traceroot.Models.Project.{resolve_project_model, ProjectModel, LegacyRow, answered, from_byok}
use traceroot.Models.Project.Chosen.{IsUsable, project_model-IsUsable}

abbrev listed : String → String → PiModel ℕ
listed provider id = record {
  id = id;
  name = id;
  api = "registry-protocol";
  provider = provider;
  base_url = "https://registry.example";
  reasoning = true;
  inputs = "text" ∷ [];
  cost = 3;
  context_window = 200000;
  max_tokens = 64000;
}

abbrev listing : Registry ℕ
listing = record { get_model = λ provider id. some (listed provider id); no_cost = 0 }

listing-IsRegistry : IsRegistry listing
listing-IsRegistry provider id m e =
    let same : listed provider id ≡ m = cc in
    (ap (λ (k : PiModel ℕ). k.id) (sym same), ap (λ (k : PiModel ℕ). k.provider) (sym same))

abbrev no_env : Env
no_env name = none

abbrev identity : String → String
identity s = s

abbrev only_old : String → Option ProviderModelConfig
only_old label =
    if str_eq label "old"
    then some (record { adapter = "openrouter"; key = "k"; base_url = none; protocols = [] })
    else none

abbrev old_rows : List LegacyRow
old_rows =
    record { provider = "gone"; custom_models = "qwen" ∷ [] }
    ∷ record { provider = "old"; custom_models = "llama" ∷ "qwen" ∷ [] }
    ∷ []

abbrev forwarded : ProjectModel
forwarded = record { model = "qwen"; provider_name = "old"; source = from_byok }

legacy_result :
    resolve_project_model listing no_env identity only_old (some "qwen") none none (some old_rows)
    ≡ answered (some forwarded)
unfolding resolve_project_model resolve_pi_model resolve_byok pi_ai_provider_of catalog_of
    build_fallback_model byok_base_url byok_protocol default_base_url_of
legacy_result = refl

abbrev qwen : String
qwen = "qwen"

qwen_named : qwen ≢ ""
qwen_named h = false≢true ((eq_iff qwen "").1 h)

project_model-IsUsable_example : IsUsable listing no_env identity only_old "qwen" forwarded
project_model-IsUsable_example =
    project_model-IsUsable listing no_env identity only_old "qwen" none none (some old_rows)
      forwarded listing-IsRegistry qwen_named legacy_result
