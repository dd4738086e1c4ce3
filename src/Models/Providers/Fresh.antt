-- ===== src/Models/Providers/Fresh.antt =====
-- How old a served configuration can be.
use traceroot.Models.Resolve.{ProviderModelConfig}
use traceroot.Prelude.{
  true, sym, ◌<◌, ◌∙◌, ◌≡◌, refl, arith, Option, subst, ◌+◌, some, String, inl, Bool-cases, none,
  ◌≤◌, eq_iff, Option-cases, inr, ℕ,
}
use traceroot.Models.Providers.{
  live, config_cache_ttl_ms, same_key, CacheEntry, read_config, keep_config, fetch_provider_config,
  RowAnswer, invalidate_provider_config_cache, Cache, put_entry,
}

-- The database over time: its answer for a workspace and a label at a moment.
abbrev pub History : Type 0
History = ℕ → ℕ → String → RowAnswer

same_key_self : (w : ℕ) (p : String) → same_key w p w p ≡ true
same_key_self w p = ground (arith, eq_iff p p)

pub put_entry_self :
    (w : ℕ) (p : String) (e : Option CacheEntry) (c : Cache) → put_entry w p e c w p ≡ e
unfolding put_entry
put_entry_self w p e c = rw (same_key_self w p) refl

module _ (decrypt : String → Option String) (db : History) where
  -- What the calls of one process make of the cache, in the order of their times.
  pub data Reaches : ℕ → Cache → Type 0 where
    launched : (t : ℕ) → Reaches t (λ w p. none)
    waited : {t : ℕ} {c : Cache} (u : ℕ) → Reaches t c → t ≤ u → Reaches u c
    fetched :
        {t : ℕ} {c : Cache} (w : ℕ) (p : String)
        → Reaches t c
        → Reaches t (fetch_provider_config decrypt w p t (db t w p) c).1
    invalidated :
        {t : ℕ} {c : Cache} (w : ℕ) (p : String)
        → Reaches t c
        → Reaches t (invalidate_provider_config_cache w p c)

  -- an entry was read at a moment, from a usable row, and expires a minute after it
  abbrev WasRead : ℕ → ℕ → String → Option CacheEntry → Type 0
  WasRead t w p none = Unit
  WasRead t w p (some e) =
      (u : ℕ) × (u ≤ t)
      × (e.expires_at ≡ u + config_cache_ttl_ms)
      × (read_config decrypt (db u w p) ≡ some e.config)

  abbrev IsFresh : ℕ → Cache → Type 0
  IsFresh t c = (w : ℕ) (p : String) → WasRead t w p (c w p)

  WasRead-later :
      (t u w : ℕ) (p : String) (e : Option CacheEntry) → t ≤ u → WasRead t w p e → WasRead u w p e
  WasRead-later t u w p none h r = tt
  WasRead-later t u w p (some e) h (v, before, expires, read) = (v, omega arith, expires, read)

  put_entry-IsFresh :
      (t w : ℕ) (p : String) (e : Option CacheEntry) (c : Cache)
      → WasRead t w p e
      → IsFresh t c
      → IsFresh t (put_entry w p e c)
  unfolding put_entry
  put_entry-IsFresh t w p e c r h w' p' = elim (Bool-cases (same_key w p w' p')) [
    | inl same ↦ rw same (
        subst (λ (q : String). WasRead t w' q e) (ground (arith, eq_iff p p'))
          (subst (λ (v : ℕ). WasRead t v p e) (ground arith) r))
    | inr apart ↦ rw apart (h w' p')
  ]

  keep_config-IsFresh :
      (t w : ℕ) (p : String) (c : Cache) (config : Option ProviderModelConfig)
      → read_config decrypt (db t w p) ≡ config
      → IsFresh t c
      → IsFresh t (keep_config w p t config c).1
  keep_config-IsFresh t w p c none e h = h
  keep_config-IsFresh t w p c (some config) e h =
      put_entry-IsFresh t w p
        (some (record { config = config; expires_at = t + config_cache_ttl_ms })) c
        (t, omega arith, refl, e) h

  fetch-IsFresh :
      (t w : ℕ) (p : String) (c : Cache)
      → IsFresh t c
      → IsFresh t (fetch_provider_config decrypt w p t (db t w p) c).1
  unfolding fetch_provider_config
  fetch-IsFresh t w p c h = elim (Option-cases (live (c w p) t)) [
    | inr (config, e) ↦ rw (fetch_provider_config, e) h
    | inl e ↦
        rw (fetch_provider_config, e)
          (keep_config-IsFresh t w p c (read_config decrypt (db t w p)) refl h)
  ]

  pub Reaches-IsFresh : {t : ℕ} {c : Cache} → Reaches t c → IsFresh t c
  unfolding invalidate_provider_config_cache
  Reaches-IsFresh (launched t) w p = tt
  Reaches-IsFresh {c} (waited {t} u r h) w p =
      WasRead-later t u w p (c w p) h (Reaches-IsFresh r w p)
  Reaches-IsFresh (fetched {t} {c} v q r) w p = fetch-IsFresh t v q c (Reaches-IsFresh r) w p
  Reaches-IsFresh (invalidated {t} {c} v q r) w p =
      put_entry-IsFresh t v q none c tt (Reaches-IsFresh r) w p

  live_read :
      (t w : ℕ) (p : String) (e : Option CacheEntry) {config : ProviderModelConfig}
      → WasRead t w p e
      → live e t ≡ some config
      → (u : ℕ) × (u ≤ t)
        × (t < u + config_cache_ttl_ms)
        × (read_config decrypt (db u w p) ≡ some config)
  live_read t w p none r h = cc
  live_read t w p (some e) (u, before, expires, read) h =
      (u, before, ground arith, read ∙ ground arith)

  keep_config-value :
      (w t : ℕ) (p : String) (config : Option ProviderModelConfig) (c : Cache)
      → (keep_config w p t config c).0 ≡ config
  keep_config-value w t p none c = refl
  keep_config-value w t p (some config) c = refl

  -- Whatever the calls before, a configuration that is served was read from a row that was enabled
  -- and had a key less than a minute ago: a provider that was disabled or whose key was replaced is
  -- served for less than a minute, also by a process that is never told.
  pub served_fresh :
      {t : ℕ} {c : Cache} (w : ℕ) (p : String) {config : ProviderModelConfig}
      → Reaches t c
      → (fetch_provider_config decrypt w p t (db t w p) c).0 ≡ some config
      → (u : ℕ) × (u ≤ t)
        × (t < u + config_cache_ttl_ms)
        × (read_config decrypt (db u w p) ≡ some config)
  unfolding fetch_provider_config
  served_fresh {t} {c} w p {config} r h = elim (Option-cases (live (c w p) t)) [
    | inr (found, e) ↦
        live_read t w p (c w p) (Reaches-IsFresh r w p) (e ∙ rw (fetch_provider_config, e) at h)
    | inl e ↦ (
      t,
      omega arith,
      omega arith,
      sym (keep_config-value w t p (read_config decrypt (db t w p)) c)
          ∙ rw (fetch_provider_config, e) at h,
    )
  ]

  fetch_unset :
      (t w : ℕ) (p : String) (c : Cache)
      → c w p ≡ none
      → (fetch_provider_config decrypt w p t (db t w p) c).0 ≡ read_config decrypt (db t w p)
  unfolding fetch_provider_config
  fetch_unset t w p c e =
      rw (fetch_provider_config, e) (keep_config-value w t p (read_config decrypt (db t w p)) c)

  -- In the process that invalidates a provider's entry, the next call for it answers from the
  -- database.
  pub fetch-invalidate :
      (t w : ℕ) (p : String) (c : Cache)
      → (fetch_provider_config decrypt w p t (db t w p) (invalidate_provider_config_cache w p c)).0
        ≡ read_config decrypt (db t w p)
  unfolding fetch_provider_config invalidate_provider_config_cache
  fetch-invalidate t w p c = fetch_unset t w p (put_entry w p none c) (put_entry_self w p none c)
