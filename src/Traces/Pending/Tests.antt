-- ===== src/Traces/Pending/Tests.antt =====
-- A span whose parent and grandparent have not arrived.
use traceroot.Traces.Pending.{enrich_spans_with_pending, LiveSpan, has_id}
use traceroot.Prelude.{◌≡◌, some, refl, [], ◌∷◌, false, map, inl, true}
use traceroot.Traces.Pending.Ancestors.{ancestors_shown}

abbrev late : LiveSpan
late = record {
  id = 3;
  parent = some 2;
  name = 30;
  starts = 12;
  pending = false;
  ids_path = some (1 ∷ 2 ∷ []);
  name_path = some (10 ∷ 20 ∷ 30 ∷ []);
}

enriched : map (λ (s : LiveSpan). s.id) (enrich_spans_with_pending (late ∷ [])) ≡ 3 ∷ 1 ∷ 2 ∷ []
unfolding enrich_spans_with_pending
enriched = refl

ancestors_shown_example : has_id 1 (enrich_spans_with_pending (late ∷ [])) ≡ true
ancestors_shown_example =
    ancestors_shown (late ∷ []) late (1 ∷ 2 ∷ []) (10 ∷ 20 ∷ []) 1 (inl refl) refl (inl refl)
