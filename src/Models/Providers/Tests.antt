-- ===== src/Models/Providers/Tests.antt =====
-- A provider that is disabled while it is cached, and a DeepSeek key that is found for OpenAI.
use traceroot.Models.Resolve.{ProviderModelConfig}
use traceroot.Models.Catalog.{pi_ai_provider_of}
use traceroot.Prelude.{
  ◌≡◌, List, ◌<◌, String, refl, some, ◌+◌, ◌∷◌, arith, none, [], ◌≤◌, Option, Bool, ltb, ℕ,
}
use traceroot.Models.Providers.{
  read_config, config_cache_ttl_ms, ProviderRow, Cache, serves, find_byok_key_for_pi_provider,
  ScanRow, fetch_provider_config, row,
}
use traceroot.Models.Providers.Fresh.{History, served_fresh, launched, waited, fetched}

abbrev deepseek : Bool → ProviderRow
deepseek enabled = record {
  provider = "mine";
  adapter = "deepseek";
  key_cipher = some "cipher";
  enabled = enabled;
  base_url = none;
  protocols = [];
}

-- enabled until 1000
abbrev history : History
history t w p = row (some (deepseek (ltb t 1000)))

abbrev decrypt : String → Option String
decrypt cipher = some "sk-deepseek"

abbrev config : ProviderModelConfig
config = record { adapter = "deepseek"; key = "sk-deepseek"; base_url = none; protocols = [] }

abbrev filled : Cache
filled = (fetch_provider_config decrypt 1 "mine" 500 (history 500 1 "mine") (λ w p. none)).1

-- served at 60,000 although it is disabled, and not at 60,500
stale_result :
    (fetch_provider_config decrypt 1 "mine" 60000 (history 60000 1 "mine") filled).0 ≡ some config
unfolding fetch_provider_config
stale_result = refl

expired_result :
    (fetch_provider_config decrypt 1 "mine" 60500 (history 60500 1 "mine") filled).0 ≡ none
unfolding fetch_provider_config
expired_result = refl

served_fresh_example :
    (u : ℕ) × (u ≤ 60000)
    × (60000 < u + config_cache_ttl_ms)
    × (read_config decrypt (history u 1 "mine") ≡ some config)
served_fresh_example =
    served_fresh decrypt history 1 "mine"
      (waited 60000 (fetched 1 "mine" (launched 500)) (omega arith)) stale_result

abbrev scanned : List ScanRow
scanned = record { provider = "mine"; adapter = "deepseek" } ∷ []

abbrev fetch_at : String → Cache → Option ProviderModelConfig × Cache
fetch_at p c = fetch_provider_config decrypt 1 p 500 (history 500 1 p) c

-- the key that a system model of OpenAI is called with, where the environment has none
shared_key_result :
    (find_byok_key_for_pi_provider fetch_at "openai" (some scanned) (λ w p. none)).0
    ≡ some "sk-deepseek"
unfolding find_byok_key_for_pi_provider fetch_provider_config serves pi_ai_provider_of
shared_key_result = refl
