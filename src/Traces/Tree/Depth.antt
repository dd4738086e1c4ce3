-- ===== src/Traces/Tree/Depth.antt =====
-- The recursion of the tree ends where the spans have no cycle.
use traceroot.Traces.Tree.Rows.{IsIn-top_level, IsIn-children}
use traceroot.Traces.Tree.{
  SpanTreeRow, visit, traverse, build_span_tree, children_of, is_nil, Span, top_level,
}
use traceroot.Prelude.{
  ap, ◌≡◌, suc, inl, refl, Bool, ◌++◌, All, [], if◌then◌else◌, ◌∷◌, ◌<◌, arith, zero, inr, ◌+◌,
  List, ◌≤◌, subst, some, ℕ, IsIn,
}

-- a measure that falls from every span to its children: there is one where no chain returns
abbrev pub IsHeight : List Span → (Span → ℕ) → Type 0
IsHeight spans height = (s c : Span) → IsIn c spans → c.parent ≡ some s.id → height c < height s

module _ (id_le : ℕ → ℕ → Bool) (spans : List Span) where
  visit-same :
      (go go' : Span → Bool → List SpanTreeRow) (xs : List Span)
      → ((x : Span) (t : Bool) → IsIn x xs → go x t ≡ go' x t)
      → visit id_le go xs ≡ visit id_le go' xs
  visit-same go go' [] h = refl
  visit-same go go' (x ∷ xs) h =
      rw (h x (is_nil id_le xs) (inl refl), visit-same go go' xs (λ y t m. h y t (inr m))) refl

  traverse-same :
      (height : Span → ℕ) (f g : ℕ) (s : Span) (level : ℕ) (t : Bool) (levels : List ℕ)
      → IsHeight spans height
      → height s < f
      → height s < g
      → traverse id_le spans f s level t levels ≡ traverse id_le spans g s level t levels
  unfolding traverse
  traverse-same height zero g s level t levels falls h k = absurd (omega arith)
  traverse-same height (suc f) zero s level t levels falls h k = absurd (omega arith)
  traverse-same height (suc f) (suc g) s level t levels falls h k =
      ap
        (λ (rest : List SpanTreeRow).
          record { span = s; level = level; is_terminal = t; parent_levels = levels } ∷ rest)
        (visit-same
          (λ x u.
            traverse id_le spans f x (level + 1) u (if u then levels else levels ++ level ∷ []))
          (λ x u.
            traverse id_le spans g x (level + 1) u (if u then levels else levels ++ level ∷ []))
          (children_of id_le spans (some s.id))
          (λ x u m.
            let (listed, parent) = (IsIn-children id_le spans x s).0 m in
            let lower : height x < height s = falls s x listed parent in
            traverse-same height f g x (level + 1) u (if u then levels else levels ++ level ∷ [])
              falls (omega arith) (omega arith)))

  -- Where the spans have no cycle the recursion ends: once the fuel exceeds the height of every span,
  -- more fuel changes nothing.
  pub build_span_tree_ends :
      (height : Span → ℕ) (f g : ℕ)
      → IsHeight spans height
      → All (λ (s : Span). height s < f) spans
      → f ≤ g
      → build_span_tree id_le f spans ≡ build_span_tree id_le g spans
  unfolding build_span_tree
  build_span_tree_ends height f g falls bound le =
      visit-same (λ s t. traverse id_le spans f s 0 t []) (λ s t. traverse id_le spans g s 0 t [])
        (top_level id_le spans)
        (λ s t top.
          let low : height s < f =
            IsIn-All s spans ((IsIn-top_level id_le spans s).0 top).0 bound in
          traverse-same height f g s 0 t [] falls low (omega arith))
    where
      IsIn-All :
          (s : Span) (xs : List Span)
          → IsIn s xs
          → All (λ (x : Span). height x < f) xs
          → height s < f
      IsIn-All s [] m b = absurd m
      IsIn-All s (x ∷ xs) (inl e) b = subst (λ (y : Span). height y < f) e b.0
      IsIn-All s (x ∷ xs) (inr m) b = IsIn-All s xs m b.1
