-- ===== src/Traces/Tree/Rows.antt =====
-- The rows of the tree are the spans that hang on a top-level one, at their depth.
use traceroot.Traces.Tree.Sorted.{IsIn-append, IsIn-sort}
use traceroot.Traces.Tree.{
  build_span_tree, sort, is_orphan, top_level, children_of, Span, traverse, visit, SpanTreeRow,
  is_nil,
}
use traceroot.Prelude.{
  none, true, ◌⊎◌, opt_eq, zero, [], arith, ◌∙◌, subst, sym, ◌<◌, ◌+◌, some, inl, ◌↔◌, refl, suc,
  Bool, inr, ap, List, if◌then◌else◌, Option, keep, ◌∷◌, ◌≡◌, ◌++◌, opt_eq→eq, ℕ, IsIn,
  IsIn-keep_iff, opt_eq_self,
}

-- A chain of children from one span to another, by its length.
pub data Below (spans : List Span) : Span → ℕ → Span → Type 0 where
  self : (s : Span) → Below spans s 0 s
  child :
      {s c d : Span} {n : ℕ}
      → IsIn c spans
      → c.parent ≡ some s.id
      → Below spans c n d
      → Below spans s (suc n) d

-- a row that shows a span at a level, among others
abbrev pub ShownAt : List SpanTreeRow → Span → ℕ → Type 0
ShownAt rows d n = (row : SpanTreeRow) × IsIn row rows × (row.span ≡ d) × (row.level ≡ n)

ShownAt-left :
    (xs ys : List SpanTreeRow) (d : Span) (n : ℕ) → ShownAt xs d n → ShownAt (xs ++ ys) d n
ShownAt-left xs ys d n (row, here, s, l) = (row, (IsIn-append row xs ys).1 (inl here), s, l)

ShownAt-right :
    (xs ys : List SpanTreeRow) (d : Span) (n : ℕ) → ShownAt ys d n → ShownAt (xs ++ ys) d n
ShownAt-right xs ys d n (row, here, s, l) = (row, (IsIn-append row xs ys).1 (inr here), s, l)

module _ (id_le : ℕ → ℕ → Bool) (spans : List Span) where
  pub IsIn-children :
      (c s : Span)
      → IsIn c (children_of id_le spans (some s.id)) ↔ (IsIn c spans × (c.parent ≡ some s.id))
  unfolding children_of
  IsIn-children c s =
      let k = IsIn-keep_iff (λ (x : Span). opt_eq x.parent (some s.id)) c spans in
      let o = IsIn-sort id_le c (keep (λ (x : Span). opt_eq x.parent (some s.id)) spans) in
      (
        λ h. ((k.0 (o.0 h)).0, opt_eq→eq c.parent (some s.id) (k.0 (o.0 h)).1),
        λ h.
            o.1 (
              k.1 (h.0, ap (λ (p : Option ℕ). opt_eq p (some s.id)) h.1 ∙ opt_eq_self (some s.id))),
      )

  visit_shown :
      (go : Span → Bool → List SpanTreeRow) (x d : Span) (n : ℕ) (xs : List Span)
      → IsIn x xs
      → ((t : Bool) → ShownAt (go x t) d n)
      → ShownAt (visit id_le go xs) d n
  visit_shown go x d n [] h f = absurd h
  visit_shown go x d n (y ∷ xs) (inl e) f =
      ShownAt-left (go y (is_nil id_le xs)) (visit id_le go xs) d n
        (subst (λ (z : Span). ShownAt (go z (is_nil id_le xs)) d n) (sym e) (f (is_nil id_le xs)))
  visit_shown go x d n (y ∷ xs) (inr h) f =
      ShownAt-right (go y (is_nil id_le xs)) (visit id_le go xs) d n (visit_shown go x d n xs h f)

  visit_sound :
      (P : SpanTreeRow → Type 0) (go : Span → Bool → List SpanTreeRow) (xs : List Span)
      → ((x : Span) (t : Bool) → IsIn x xs → (row : SpanTreeRow) → IsIn row (go x t) → P row)
      → (row : SpanTreeRow) → IsIn row (visit id_le go xs)
      → P row
  visit_sound P go [] f row h = absurd h
  visit_sound P go (x ∷ xs) f row h =
      elim ((IsIn-append row (go x (is_nil id_le xs)) (visit id_le go xs)).0 h) [
        | inl k ↦ f x (is_nil id_le xs) (inl refl) row k
        | inr k ↦ visit_sound P go xs (λ y t m. f y t (inr m)) row k
      ]

  traverse_shown :
      {s d : Span} {n : ℕ} (fuel level : ℕ) (t : Bool) (levels : List ℕ)
      → Below spans s n d
      → n < fuel
      → ShownAt (traverse id_le spans fuel s level t levels) d (level + n)
  unfolding traverse
  traverse_shown zero level t levels b h = absurd (omega arith)
  traverse_shown (suc fuel) level t levels (self s) h = (
    record { span = s; level = level; is_terminal = t; parent_levels = levels },
    inl refl,
    refl,
    omega arith,
  )
  traverse_shown (suc fuel) level t levels (child {s} {c} {d} {n} listed parent b) h =
      let (row, there, span, depth) =
        visit_shown
          (λ x u.
            traverse id_le spans fuel x (level + 1) u (if u then levels else levels ++ level ∷ []))
          c d (level + 1 + n) (children_of id_le spans (some s.id))
          ((IsIn-children c s).1 (listed, parent))
          (λ u.
            traverse_shown fuel (level + 1) u (if u then levels else levels ++ level ∷ []) b
              (omega arith)) in
      (row, inr there, span, omega arith)

  -- a row is of a span at the depth of its chain
  abbrev FoundBelow : Span → ℕ → SpanTreeRow → Type 0
  FoundBelow s level row = (n : ℕ) × Below spans s n row.span × (row.level ≡ level + n)

  traverse_sound :
      (fuel : ℕ) (s : Span) (level : ℕ) (t : Bool) (levels : List ℕ) (row : SpanTreeRow)
      → IsIn row (traverse id_le spans fuel s level t levels)
      → FoundBelow s level row
  unfolding traverse
  traverse_sound zero s level t levels row h = absurd h
  traverse_sound (suc fuel) s level t levels row (inl e) =
      subst (FoundBelow s level) e (0, self s, omega arith)
  traverse_sound (suc fuel) s level t levels row (inr h) =
      visit_sound (FoundBelow s level)
        (λ x u.
          traverse id_le spans fuel x (level + 1) u (if u then levels else levels ++ level ∷ []))
        (children_of id_le spans (some s.id))
        (λ x u listed r k.
          let (n, b, depth) =
            traverse_sound fuel x (level + 1) u (if u then levels else levels ++ level ∷ []) r k in
          let (there, parent) = (IsIn-children x s).0 listed in
          (suc n, child there parent b, omega arith))
        row h

  -- a span without a parent, or whose parent is not there
  abbrev pub IsTop : Span → Type 0
  IsTop s = (s.parent ≡ none) ⊎ (is_orphan id_le spans s ≡ true)

  -- a span that hangs on a top-level one, by the length of its chain
  abbrev pub IsInTree : Span → ℕ → Type 0
  IsInTree d n = (s : Span) × IsIn s spans × IsTop s × Below spans s n d

  pub IsIn-top_level : (s : Span) → IsIn s (top_level id_le spans) ↔ (IsIn s spans × IsTop s)
  unfolding top_level children_of
  IsIn-top_level s =
      let roots = keep (λ (x : Span). opt_eq x.parent none) spans in
      let orphans = keep (is_orphan id_le spans) spans in
      let k = IsIn-keep_iff (λ (x : Span). opt_eq x.parent none) s spans in
      let l = IsIn-keep_iff (is_orphan id_le spans) s spans in
      let both = IsIn-append s (sort id_le roots) orphans in
      let o = IsIn-sort id_le s roots in
      let all = IsIn-sort id_le s (sort id_le roots ++ orphans) in
      (
        λ h. elim (both.0 (all.0 h)) [
          | inl m ↦ ((k.0 (o.0 m)).0, inl (opt_eq→eq s.parent none (k.0 (o.0 m)).1))
          | inr m ↦ ((l.0 m).0, inr (l.0 m).1)
        ],
        λ (h : IsIn s spans × IsTop s). elim h.1 [
          | inl e ↦ all.1 (both.1 (inl (o.1 (k.1 (h.0, ap (λ (p : Option ℕ). opt_eq p none) e)))))
          | inr e ↦ all.1 (both.1 (inr (l.1 (h.0, e))))
        ],
      )

  -- The tree shows a span at a level exactly if it hangs, by a chain of children of this length, on a
  -- span that has no parent or whose parent has not arrived; this needs more fuel than the level.
  pub rows_exact :
      (fuel n : ℕ) (d : Span)
      → n < fuel
      → ShownAt (build_span_tree id_le fuel spans) d n ↔ IsInTree d n
  unfolding build_span_tree
  rows_exact fuel n d h = (
    λ shown.
        let (row, there, span, depth) = shown in
        visit_sound (λ r. r.span ≡ d → r.level ≡ n → IsInTree d n)
          (λ s t. traverse id_le spans fuel s 0 t []) (top_level id_le spans)
          (λ s t top r k e l.
            let (m, b, len) = traverse_sound fuel s 0 t [] r k in
            let (listed, is_top) = (IsIn-top_level s).0 top in
            let same : m ≡ n = omega arith in
            (
              s,
              listed,
              is_top,
              subst (λ (q : ℕ). Below spans s q d) same
                  (subst (λ (x : Span). Below spans s m x) e b),
            ))
          row there span depth,
    λ (tree : IsInTree d n).
        let (s, listed, is_top, b) = tree in
        visit_shown (λ x t. traverse id_le spans fuel x 0 t []) s d n (top_level id_le spans)
          ((IsIn-top_level s).1 (listed, is_top))
          (λ t.
            let same : 0 + n ≡ n = omega arith in
            subst (λ (q : ℕ). ShownAt (traverse id_le spans fuel s 0 t []) d q) same
              (traverse_shown fuel 0 t [] b h)),
  )
