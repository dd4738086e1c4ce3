-- ===== src/Models/Providers/Keys.antt =====
-- Whose key the scan of a workspace's providers returns.
use traceroot.Models.Resolve.{ProviderModelConfig}
use traceroot.Models.Providers.{scan, serves, Cache, find_byok_key_for_pi_provider, ScanRow}
use traceroot.Models.Catalog.{pi_ai_provider_of}
use traceroot.Prelude.{
  [], false≢true, ap, none, inr, ◌∷◌, ◌≡◌, true, eq_iff, some, String, Option, refl, Bool-cases,
  List, Option-cases, inl, ◌∙◌, IsIn,
}

module _ (fetch : String → Cache → Option ProviderModelConfig × Cache) (pi_provider : String) where
  -- the listed row that a key was read for
  abbrev pub IsKeyOf : List ScanRow → String → Type 0
  IsKeyOf rows key =
      (r : ScanRow) × IsIn r rows
      × (pi_ai_provider_of r.adapter ≡ some pi_provider)
      × ((c : Cache) × (config : ProviderModelConfig) × ((fetch r.provider c).0 ≡ some config)
          × (config.key ≡ key))

  IsKeyOf-later :
      (r : ScanRow) (rows : List ScanRow) (key : String) → IsKeyOf rows key → IsKeyOf (r ∷ rows) key
  IsKeyOf-later r rows key (s, listed, serving, found) = (s, inr listed, serving, found)

  serves-eq :
      (r : ScanRow) → serves pi_provider r ≡ true → pi_ai_provider_of r.adapter ≡ some pi_provider
  unfolding serves
  serves-eq r h = elim (Option-cases (pi_ai_provider_of r.adapter)) [
    | inl e ↦ absurd (false≢true (rw (serves, e) at h))
    | inr (p, e) ↦ e ∙ ap some ((eq_iff p pi_provider).0 (rw (serves, e) at h))
  ]

  scan-IsKeyOf :
      (rows : List ScanRow) (c : Cache) (key : String)
      → (scan fetch pi_provider rows c).0 ≡ some key
      → IsKeyOf rows key
  scan-IsKeyOf [] c key h = cc
  scan-IsKeyOf (r ∷ rows) c key h = elim (Bool-cases (serves pi_provider r)) [
    | inr e ↦ IsKeyOf-later r rows key (scan-IsKeyOf rows c key (rw (scan, e) at h))
    | inl e ↦ elim (Option-cases (fetch r.provider c).0) [
      | inl g ↦
          IsKeyOf-later r rows key
            (scan-IsKeyOf rows (fetch r.provider c).1 key (rw (scan, e, g) at h))
      | inr (config, g) ↦
          let k : some config.key ≡ some key = rw (scan, e, g) at h in
          (r, inl refl, serves-eq r e, (c, config, g, cc))
    ]
  ]

  -- A key that the scan returns is that of a listed row whose adapter stands for the provider that is
  -- asked for, as the configuration of this row is fetched; no key comes from a query that fails.
  pub find_byok_key-IsKeyOf :
      (rows : Option (List ScanRow)) (c : Cache) (key : String)
      → (find_byok_key_for_pi_provider fetch pi_provider rows c).0 ≡ some key
      → (listed : List ScanRow) × (rows ≡ some listed) × IsKeyOf listed key
  unfolding find_byok_key_for_pi_provider
  find_byok_key-IsKeyOf none c key h = cc
  find_byok_key-IsKeyOf (some rows) c key h = (rows, refl, scan-IsKeyOf rows c key h)
