-- ===== src/Traces/Tree/Sorted.antt =====
-- Sorting keeps the spans.
use traceroot.Traces.Tree.{insert, Span, sort}
use traceroot.Prelude.{◌≡◌, ◌⊎◌, [], ◌↔◌, ◌∷◌, arith, Bool, ◌++◌, List, ℕ, IsIn}

module _ (id_le : ℕ → ℕ → Bool) where
  IsIn-insert : (s a : Span) (xs : List Span) → IsIn a (insert id_le s xs) ↔ ((s ≡ a) ⊎ IsIn a xs)
  unfolding insert
  IsIn-insert s a [] = ground arith
  IsIn-insert s a (x ∷ xs) = ground (arith, IsIn-insert s a xs)

  pub IsIn-sort : (a : Span) (xs : List Span) → IsIn a (sort id_le xs) ↔ IsIn a xs
  unfolding sort
  IsIn-sort a [] = ground arith
  IsIn-sort a (x ∷ xs) = ground (arith, IsIn-insert x a (sort id_le xs), IsIn-sort a xs)

pub IsIn-append :
    {A : Type 0} (a : A) (xs ys : List A) → IsIn a (xs ++ ys) ↔ (IsIn a xs ⊎ IsIn a ys)
IsIn-append a [] ys = ground arith
IsIn-append a (x ∷ xs) ys = ground (arith, IsIn-append a xs ys)
