-- ===== src/Traces/Tree.antt =====
-- The rows of the span tree: compareSpansForStableDisplay and buildSpanTree of
-- frontend/ui/src/features/traces/utils/index.ts. Times are numbers of milliseconds and ids are numbers
-- compared by `id_le`, which stands for localeCompare; `sort` is stable, as Array.prototype.sort is.
-- The recursion of the program takes fuel here.
pub mod Sorted
pub mod Rows
pub mod Depth
pub mod Tests
use traceroot.Prelude.{
  suc, ltb, ◌∷◌, ◌++◌, any, ◌+◌, keep, if◌then◌else◌, not, some, opt_eq, [], ◌==◌, none, true, zero,
  Option, false, Bool, List, ℕ,
}

pub record Span : Type 0 where
  pub id : ℕ
  pub parent : Option ℕ
  pub starts : ℕ
  pub ends : Option ℕ

pub record SpanTreeRow : Type 0 where
  pub span : Span
  pub level : ℕ
  pub is_terminal : Bool
  pub parent_levels : List ℕ

-- A missing end is later than any, and two of them are equal.
abbrev end_before : Option ℕ → Option ℕ → Bool
end_before (some a) (some b) = ltb a b
end_before (some a) none = true
end_before none b = false

module _ (id_le : ℕ → ℕ → Bool) where
  -- whether the comparison of two spans is not positive
  unfoldable pub span_le : Span → Span → Bool
  span_le a b =
      if not (a.starts == b.starts)
      then ltb a.starts b.starts
      else if not (opt_eq a.ends b.ends)
      then end_before a.ends b.ends
      else id_le a.id b.id

  unfoldable pub insert : Span → List Span → List Span
  unfolding span_le
  insert s [] = s ∷ []
  insert s (x ∷ xs) = if span_le s x then s ∷ x ∷ xs else x ∷ insert s xs

  unfoldable pub sort : List Span → List Span
  unfolding insert
  sort [] = []
  sort (s ∷ xs) = insert s (sort xs)

  unfoldable pub children_of : List Span → Option ℕ → List Span
  unfolding sort
  children_of spans parent = sort (keep (λ (s : Span). opt_eq s.parent parent) spans)

  -- a span with a parent that is not there
  abbrev pub is_orphan : List Span → Span → Bool
  is_orphan spans s = elim s.parent [
    | none ↦ false
    | some p ↦ not (any (λ (x : Span). x.id == p) spans)
  ]

  unfoldable pub top_level : List Span → List Span
  unfolding children_of
  top_level spans = sort (children_of spans none ++ keep (is_orphan spans) spans)

  abbrev pub is_nil : List Span → Bool
  is_nil [] = true
  is_nil (x ∷ xs) = false

  -- `forEach`, which tells each span whether it is the last one
  abbrev pub visit : (Span → Bool → List SpanTreeRow) → List Span → List SpanTreeRow
  visit go [] = []
  visit go (x ∷ xs) = go x (is_nil xs) ++ visit go xs

  unfoldable pub traverse : List Span → ℕ → Span → ℕ → Bool → List ℕ → List SpanTreeRow
  unfolding children_of
  traverse spans zero s level terminal levels = []
  traverse spans (suc fuel) s level terminal levels =
      record { span = s; level = level; is_terminal = terminal; parent_levels = levels }
      ∷ visit
          (λ c t. traverse spans fuel c (level + 1) t (if t then levels else levels ++ level ∷ []))
          (children_of spans (some s.id))

  unfoldable pub build_span_tree : ℕ → List Span → List SpanTreeRow
  unfolding traverse top_level
  build_span_tree fuel spans = visit (λ s t. traverse spans fuel s 0 t []) (top_level spans)
