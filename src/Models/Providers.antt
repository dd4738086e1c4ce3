-- ===== src/Models/Providers.antt =====
-- The workspace's own providers behind a cache: fetchProviderConfig, invalidateProviderConfigCache
-- and findByokKeyForPiProvider of frontend/packages/core/src/model-resolver.ts. The cache is a map
-- from a workspace and a provider's label, whose joined text is the program's key. A query that
-- fails and a key that cannot be decrypted are answers of the database and of `decrypt`.
pub mod Fresh
pub mod Keys
pub mod Tests
use traceroot.Prelude.{
  non_empty, List, ◌∷◌, ◌==◌, if◌then◌else◌, str_eq, true, some, false, ◌&&◌, none, String, [],
  Option, ◌+◌, Bool, ltb, ℕ,
}
use traceroot.Models.Catalog.{pi_ai_provider_of}
use traceroot.Models.Resolve.{ProviderModelConfig}

pub record ProviderRow : Type 0 where
  pub provider : String
  pub adapter : String
  pub key_cipher : Option String
  pub enabled : Bool
  pub base_url : Option String
  pub protocols : List (String × String)

-- The answer to a query for one row.
pub data RowAnswer : Type 0 where
  query_failed : RowAnswer
  row : Option ProviderRow → RowAnswer

pub record CacheEntry : Type 0 where
  pub config : ProviderModelConfig
  pub expires_at : ℕ

abbrev pub Cache : Type 0
Cache = ℕ → String → Option CacheEntry

abbrev pub config_cache_ttl_ms : ℕ
config_cache_ttl_ms = 60000

abbrev same_key : ℕ → String → ℕ → String → Bool
same_key w p w' p' = w == w' && str_eq p p'

-- `configCache.set` and, with `none`, `configCache.delete`
unfoldable pub put_entry : ℕ → String → Option CacheEntry → Cache → Cache
put_entry w p e cache w' p' = if same_key w p w' p' then e else cache w' p'

abbrev to_config : ProviderRow → String → ProviderModelConfig
to_config r key = record {
  adapter = r.adapter;
  key = key;
  base_url = r.base_url;
  protocols = r.protocols;
}

abbrev decrypted : ProviderRow → Option String → Option ProviderModelConfig
decrypted r none = none
decrypted r (some key) = some (to_config r key)

-- what the answer of the database is worth: only an enabled row with a key
unfoldable pub read_config : (String → Option String) → RowAnswer → Option ProviderModelConfig
read_config decrypt query_failed = none
read_config decrypt (row none) = none
read_config decrypt (row (some r)) = elim (non_empty r.key_cipher) [
  | none ↦ none
  | some cipher ↦ if r.enabled then decrypted r (decrypt cipher) else none
]

abbrev live : Option CacheEntry → ℕ → Option ProviderModelConfig
live none now = none
live (some e) now = if ltb now e.expires_at then some e.config else none

abbrev keep_config :
    ℕ → String → ℕ → Option ProviderModelConfig → Cache → Option ProviderModelConfig × Cache
keep_config w p now none cache = (none, cache)
keep_config w p now (some config) cache = (
  some config,
  put_entry w p (some (record { config = config; expires_at = now + config_cache_ttl_ms })) cache,
)

unfoldable pub fetch_provider_config :
    (String → Option String)
    → ℕ
    → String
    → ℕ
    → RowAnswer
    → Cache
    → Option ProviderModelConfig × Cache
unfolding read_config put_entry
fetch_provider_config decrypt w p now answer cache = elim (live (cache w p) now) [
  | some config ↦ (some config, cache)
  | none ↦ keep_config w p now (read_config decrypt answer) cache
]

unfoldable pub invalidate_provider_config_cache : ℕ → String → Cache → Cache
unfolding put_entry
invalidate_provider_config_cache w p cache = put_entry w p none cache

-- A row of the scan: its label and adapter.
pub record ScanRow : Type 0 where
  pub provider : String
  pub adapter : String

-- `ADAPTER_TO_PI_AI[row.adapter] === piProvider`
unfoldable pub serves : String → ScanRow → Bool
serves pi_provider r = elim (pi_ai_provider_of r.adapter) [
  | some p ↦ str_eq p pi_provider
  | none ↦ false
]

-- The loop of the scan, over the state of the cache; `fetch` is a call of fetchProviderConfig.
abbrev scan :
    (String → Cache → Option ProviderModelConfig × Cache)
    → String
    → List ScanRow
    → Cache
    → Option String × Cache
scan fetch pi_provider [] cache = (none, cache)
scan fetch pi_provider (r ∷ rows) cache = elim (serves pi_provider r) [
  | false ↦ scan fetch pi_provider rows cache
  | true ↦ elim (fetch r.provider cache).0 [
    | some config ↦ (some config.key, (fetch r.provider cache).1)
    | none ↦ scan fetch pi_provider rows (fetch r.provider cache).1
  ]
]

-- `rows` is the answer of the query for the workspace's enabled rows, `none` if it fails.
unfoldable pub find_byok_key_for_pi_provider :
    (String → Cache → Option ProviderModelConfig × Cache)
    → String
    → Option (List ScanRow)
    → Cache
    → Option String × Cache
find_byok_key_for_pi_provider fetch pi_provider none cache = (none, cache)
find_byok_key_for_pi_provider fetch pi_provider (some rows) cache =
    scan fetch pi_provider rows cache
