-- ===== src/Models/Resolve/Known.antt =====
-- The lookup table knows every model that the catalog lists.
use traceroot.Models.Resolve.{
  put, SystemInfo, put_groups, put_models, system_info, system_model_lookup,
}
use traceroot.Prelude.{
  is_some, inr, inl, none, Option, arith, any, [], true, List, ◌≡◌, Bool-cases, ◌∷◌, String, str_eq,
}
use traceroot.Models.Catalog.{ModelDef, SystemGroup, system_models}

put_models_known :
    (g : SystemGroup) (ms : List ModelDef) (known : String → Option SystemInfo) (id : String)
    → is_some (known id) ≡ true
    → is_some (put_models g ms known id) ≡ true
put_models_known g [] known id h = h
put_models_known g (m ∷ ms) known id h =
    put_models_known g ms (put m.id (system_info g m) known) id (ground arith)

put_models_in :
    (g : SystemGroup) (ms : List ModelDef) (known : String → Option SystemInfo) (id : String)
    → any (λ (m : ModelDef). str_eq m.id id) ms ≡ true
    → is_some (put_models g ms known id) ≡ true
put_models_in g [] known id h = cc
put_models_in g (m ∷ ms) known id h = elim (Bool-cases (str_eq m.id id)) [
  | inl e ↦ put_models_known g ms (put m.id (system_info g m) known) id (ground arith)
  | inr e ↦ put_models_in g ms (put m.id (system_info g m) known) id (rw e at h)
]

put_groups_known :
    (groups : List SystemGroup) (known : String → Option SystemInfo) (id : String)
    → is_some (known id) ≡ true
    → is_some (put_groups groups known id) ≡ true
put_groups_known [] known id h = h
put_groups_known (g ∷ groups) known id h =
    put_groups_known groups (put_models g g.models known) id
      (put_models_known g g.models known id h)

put_groups_in :
    (groups : List SystemGroup) (known : String → Option SystemInfo) (id : String)
    → any (λ (g : SystemGroup). any (λ (m : ModelDef). str_eq m.id id) g.models) groups ≡ true
    → is_some (put_groups groups known id) ≡ true
put_groups_in [] known id h = cc
put_groups_in (g ∷ groups) known id h =
    elim (Bool-cases (any (λ (m : ModelDef). str_eq m.id id) g.models)) [
      | inl e ↦
          put_groups_known groups (put_models g g.models known) id
            (put_models_in g g.models known id e)
      | inr e ↦ put_groups_in groups (put_models g g.models known) id (rw e at h)
    ]

pub system_models_known :
    (id : String)
    → any (λ (g : SystemGroup). any (λ (m : ModelDef). str_eq m.id id) g.models) system_models
      ≡ true
    → is_some (system_model_lookup id) ≡ true
unfolding system_model_lookup
system_models_known id h = put_groups_in system_models (λ key. none) id h
