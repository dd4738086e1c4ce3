-- ===== src/Models/Catalog.antt =====
-- The catalog of frontend/packages/core/src/llm-providers.ts. A key of `Object.prototype` is not
-- taken for an adapter's name.
use traceroot.Prelude.{some, if◌then◌else◌, str_eq, none, String, [], ◌∷◌, List, Option}

-- The name is also the label that the user interface shows.
pub record ModelDef : Type 0 where
  pub id : String
  pub label : String
  pub api_protocol : Option String

abbrev plain : String → ModelDef
plain id = record { id = id; label = id; api_protocol = none }

abbrev over : String → String → ModelDef
over id protocol = record { id = id; label = id; api_protocol = some protocol }

pub record SystemGroup : Type 0 where
  pub provider : String
  pub env_var : String
  pub pi_ai_provider : String
  pub api_protocol : String
  pub models : List ModelDef

module _ {ℓ} {A : Type ℓ} where
  -- `table[key]`
  abbrev pub lookup : String → List (String × A) → Option A
  lookup key [] = none
  lookup key ((name, value) ∷ table) = if str_eq name key then some value else lookup key table

abbrev pub adapter_to_pi_ai : List (String × String)
adapter_to_pi_ai =
    ("openai", "openai")
    ∷ ("anthropic", "anthropic")
    ∷ ("azure", "azure-openai-responses")
    ∷ ("google", "google")
    ∷ ("amazon-bedrock", "amazon-bedrock")
    ∷ ("deepseek", "openai")
    ∷ ("openrouter", "openrouter")
    ∷ ("xai", "openai")
    ∷ ("moonshot", "openai")
    ∷ ("zai", "openai")
    ∷ []

abbrev pub adapter_default_base_url : List (String × String)
adapter_default_base_url =
    ("openai", "https://api.openai.com/v1")
    ∷ ("anthropic", "https://api.anthropic.com")
    ∷ ("google", "https://generativelanguage.googleapis.com/v1alpha")
    ∷ ("deepseek", "https://api.deepseek.com/v1")
    ∷ ("openrouter", "https://openrouter.ai/api/v1")
    ∷ ("xai", "https://api.x.ai/v1")
    ∷ ("moonshot", "https://api.moonshot.ai/v1")
    ∷ ("zai", "https://open.bigmodel.cn/api/paas/v4")
    ∷ []

abbrev pub adapter_api_protocol : List (String × String)
adapter_api_protocol =
    ("openai", "openai-completions")
    ∷ ("anthropic", "anthropic-messages")
    ∷ ("azure", "azure-openai-responses")
    ∷ ("google", "google-generative-ai")
    ∷ ("amazon-bedrock", "bedrock-converse-stream")
    ∷ ("deepseek", "openai-completions")
    ∷ ("openrouter", "openai-completions")
    ∷ ("xai", "openai-completions")
    ∷ ("moonshot", "openai-completions")
    ∷ ("zai", "openai-completions")
    ∷ []

abbrev pub detector_system_default_model_id : String
detector_system_default_model_id = "claude-haiku-4-5"

abbrev pub system_models : List SystemGroup
system_models =
    record {
      provider = "Anthropic";
      env_var = "ANTHROPIC_API_KEY";
      pi_ai_provider = "anthropic";
      api_protocol = "anthropic-messages";
      models =
          plain "claude-opus-4-8"
          ∷ plain "claude-opus-4-7"
          ∷ plain "claude-opus-4-6"
          ∷ plain "claude-sonnet-5"
          ∷ plain "claude-sonnet-4-6"
          ∷ plain "claude-opus-4-5"
          ∷ plain "claude-sonnet-4-5"
          ∷ plain "claude-haiku-4-5"
          ∷ [];
    }
    ∷ record {
      provider = "OpenAI";
      env_var = "OPENAI_API_KEY";
      pi_ai_provider = "openai";
      api_protocol = "openai-completions";
      models =
          plain "gpt-5.5"
          ∷ plain "gpt-5.4"
          ∷ plain "gpt-5.4-mini"
          ∷ plain "gpt-5.4-nano"
          ∷ plain "gpt-5"
          ∷ plain "gpt-5-mini"
          ∷ plain "o3"
          ∷ plain "o4-mini"
          ∷ over "gpt-5.3-codex" "openai-responses"
          ∷ [];
    }
    ∷ []

abbrev pub provider_priority : List String
provider_priority =
    "anthropic" ∷ "openai" ∷ "deepseek" ∷ "xai" ∷ "moonshot" ∷ "zai" ∷ "google" ∷ "openrouter"
    ∷ "azure" ∷ "amazon-bedrock" ∷ []

abbrev pub adapter_models : List (String × List ModelDef)
adapter_models =
    (
      "openai",
      plain "gpt-5.6-sol"
          ∷ plain "gpt-5.6-terra"
          ∷ plain "gpt-5.6-luna"
          ∷ plain "gpt-5.5"
          ∷ plain "gpt-5.5-pro"
          ∷ plain "gpt-5.4"
          ∷ plain "gpt-5.4-pro"
          ∷ plain "gpt-5.4-mini"
          ∷ plain "gpt-5.4-nano"
          ∷ over "gpt-5.3-codex" "openai-responses"
          ∷ plain "gpt-5.2"
          ∷ plain "gpt-5"
          ∷ plain "gpt-5-mini"
          ∷ plain "o3"
          ∷ plain "o4-mini"
          ∷ [],
    )
    ∷ (
      "anthropic",
      plain "claude-opus-5"
          ∷ plain "claude-opus-4-8"
          ∷ plain "claude-opus-4-7"
          ∷ plain "claude-opus-4-6"
          ∷ plain "claude-opus-4-5"
          ∷ plain "claude-sonnet-5"
          ∷ plain "claude-sonnet-4-6"
          ∷ plain "claude-sonnet-4-5"
          ∷ plain "claude-haiku-4-5"
          ∷ plain "claude-fable-5"
          ∷ [],
    )
    ∷ (
      "google",
      plain "gemini-3.5-flash"
          ∷ plain "gemini-3.1-pro-preview"
          ∷ plain "gemini-3-flash-preview"
          ∷ plain "gemini-3.1-flash-lite-preview"
          ∷ plain "gemini-2.5-flash"
          ∷ plain "gemini-2.5-pro"
          ∷ [],
    )
    ∷ ("deepseek", plain "deepseek-v4-pro" ∷ plain "deepseek-v4-flash" ∷ plain "deepseek-chat" ∷ [])
    ∷ ("xai", plain "grok-4.5" ∷ plain "grok-4.20" ∷ plain "grok-4" ∷ [])
    ∷ (
      "moonshot",
      plain "kimi-k3" ∷ plain "kimi-k2.6" ∷ plain "kimi-k2.5" ∷ plain "kimi-k2-thinking" ∷ [],
    )
    ∷ (
      "zai",
      plain "glm-5.2"
          ∷ plain "glm-5.1"
          ∷ plain "glm-5"
          ∷ plain "glm-5-turbo"
          ∷ plain "glm-4.7"
          ∷ plain "glm-4.6"
          ∷ plain "glm-4.5"
          ∷ plain "glm-4.5-air"
          ∷ plain "glm-4.5-flash"
          ∷ [],
    )
    ∷ []

unfoldable pub pi_ai_provider_of : String → Option String
pi_ai_provider_of adapter = lookup adapter adapter_to_pi_ai

unfoldable pub default_base_url_of : String → Option String
default_base_url_of adapter = lookup adapter adapter_default_base_url

unfoldable pub api_protocol_of : String → Option String
api_protocol_of adapter = lookup adapter adapter_api_protocol

unfoldable pub catalog_of : String → Option (List ModelDef)
catalog_of adapter = lookup adapter adapter_models
