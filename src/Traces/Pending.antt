-- ===== src/Traces/Pending.antt =====
-- Placeholders for the ancestors that have not arrived: enrichSpansWithPending of
-- frontend/ui/src/features/traces/utils/index.ts. The two paths of a span's metadata are fields, as
-- the parse of the metadata gives them; the columns that a placeholder leaves null are left out.
pub mod Ancestors
pub mod Tests
use traceroot.Prelude.{
  not, Option, [], none, if◌then◌else◌, ltb, Bool, ◌++◌, length, List, some, ◌&&◌, ◌==◌, keep, any,
  true, ◌∷◌, ℕ,
}

pub record LiveSpan : Type 0 where
  pub id : ℕ
  pub parent : Option ℕ
  pub name : ℕ
  pub starts : ℕ
  pub pending : Bool
  pub ids_path : Option (List ℕ)
  pub name_path : Option (List ℕ)

abbrev pub has_id : ℕ → List LiveSpan → Bool
has_id id spans = any (λ (s : LiveSpan). s.id == id) spans

-- `namePath.slice(0, -1)`
abbrev pub drop_last : List ℕ → List ℕ
drop_last [] = []
drop_last (x ∷ []) = []
drop_last (x ∷ y ∷ xs) = x ∷ drop_last (y ∷ xs)

-- `pendingSpans.set` of a key that is there keeps its place
unfoldable pub put_pending : LiveSpan → List LiveSpan → List LiveSpan
put_pending s [] = s ∷ []
put_pending s (x ∷ xs) = if x.id == s.id then s ∷ xs else x ∷ put_pending s xs

-- an earlier start of a placeholder that is there
unfoldable pub pull_start : ℕ → ℕ → List LiveSpan → List LiveSpan
pull_start id starts [] = []
pull_start id starts (x ∷ xs) =
    if x.id == id
    then (if ltb starts x.starts then record x { starts = starts } else x) ∷ xs
    else x ∷ pull_start id starts xs

abbrev placeholder : ℕ → Option ℕ → ℕ → ℕ → LiveSpan
placeholder id parent name starts = record {
  id = id;
  parent = parent;
  name = name;
  starts = starts;
  pending = true;
  ids_path = none;
  name_path = none;
}

-- one ancestor of a span
unfoldable pub add_ancestor : List LiveSpan → ℕ → ℕ → Option ℕ → ℕ → List LiveSpan → List LiveSpan
unfolding put_pending pull_start
add_ancestor spans starts id parent name pending =
    if has_id id spans && not (has_id id pending)
    then pending
    else if has_id id pending
    then pull_start id starts pending
    else put_pending (placeholder id parent name starts) pending

-- the loop over the path, with the id in front
unfoldable pub add_path :
    List LiveSpan → ℕ → Option ℕ → List ℕ → List ℕ → List LiveSpan → List LiveSpan
unfolding add_ancestor
add_path spans starts parent (id ∷ ids) (name ∷ names) pending =
    add_path spans starts (some id) ids names (add_ancestor spans starts id parent name pending)
add_path spans starts parent [] names pending = pending
add_path spans starts parent (id ∷ ids) [] pending = pending

-- a span whose two paths fit
abbrev path_of : LiveSpan → Option (List ℕ × List ℕ)
path_of s = elim s.parent [
  | none ↦ none
  | some p ↦ elim s.ids_path [
    | none ↦ none
    | some ids ↦ elim s.name_path [
      | none ↦ none
      | some names ↦
          if ltb 0 (length ids) && length ids == length (drop_last names)
          then some (ids, drop_last names)
          else none
    ]
  ]
]

abbrev add_span : List LiveSpan → LiveSpan → List LiveSpan → List LiveSpan
add_span spans s pending = elim (path_of s) [
  | none ↦ pending
  | some (ids, names) ↦ add_path spans s.starts none ids names pending
]

unfoldable pub add_all : List LiveSpan → List LiveSpan → List LiveSpan → List LiveSpan
unfolding add_path
add_all spans [] pending = pending
add_all spans (s ∷ rest) pending = add_all spans rest (add_span spans s pending)

-- the pending spans that are there at the start, by id
unfoldable pub given_pending : List LiveSpan → List LiveSpan → List LiveSpan
unfolding put_pending
given_pending [] pending = pending
given_pending (s ∷ rest) pending =
    given_pending rest (if s.pending then put_pending s pending else pending)

abbrev pub real : List LiveSpan → List LiveSpan
real spans = keep (λ (s : LiveSpan). not s.pending) spans

unfoldable pub enrich_spans_with_pending : List LiveSpan → List LiveSpan
unfolding add_all given_pending
enrich_spans_with_pending spans =
    real spans
    ++ keep (λ (s : LiveSpan). not (has_id s.id (real spans)))
        (add_all spans spans (given_pending spans []))
