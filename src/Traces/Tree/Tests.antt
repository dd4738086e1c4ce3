-- ===== src/Traces/Tree/Tests.antt =====
-- A trace with a root, two children that start together, a grandchild and an orphan.
use traceroot.Traces.Tree.{build_span_tree, Span, SpanTreeRow}
use traceroot.Prelude.{
  ◌<◌, sym, ap, inr, inl, ◌∷◌, map, if◌then◌else◌, List, arith, none, Option, [], some, ◌↔◌, ◌==◌,
  ◌≡◌, refl, ℕ, leb,
}
use traceroot.Traces.Tree.Rows.{IsInTree, ShownAt, rows_exact}
use traceroot.Traces.Tree.Depth.{IsHeight, build_span_tree_ends}

abbrev span : ℕ → Option ℕ → ℕ → Option ℕ → Span
span id parent starts ends = record { id = id; parent = parent; starts = starts; ends = ends }

abbrev trace : List Span
trace =
    span 5 (some 9) 30 (some 40)
    ∷ span 3 (some 1) 10 none
    ∷ span 4 (some 2) 12 (some 13)
    ∷ span 2 (some 1) 10 (some 15)
    ∷ span 1 none 0 (some 50)
    ∷ []

abbrev height_of : ℕ → ℕ
height_of id = if id == 1 then 2 else if id == 2 then 1 else if id == 9 then 1 else 0

abbrev height : Span → ℕ
height s = height_of s.id

tree_result :
    map (λ (r : SpanTreeRow). r.span.id) (build_span_tree leb 3 trace) ≡ 1 ∷ 2 ∷ 4 ∷ 3 ∷ 5 ∷ []
unfolding build_span_tree
tree_result = refl

rows_exact_example :
    ShownAt (build_span_tree leb 3 trace) (span 4 (some 2) 12 (some 13)) 2
    ↔ IsInTree leb trace (span 4 (some 2) 12 (some 13)) 2
rows_exact_example = rows_exact leb trace 3 2 (span 4 (some 2) 12 (some 13)) (omega arith)

lower :
    (s c x : Span) (p : ℕ)
    → x ≡ c
    → c.parent ≡ some s.id
    → x.parent ≡ some p
    → height_of x.id < height_of p
    → height c < height s
lower s c x p e h k lt =
    let same : s.id ≡ p = cc (ap (λ (y : Span). y.parent) e) in
    rw (sym (ap (λ (y : Span). y.id) e), same) lt

height-IsHeight : IsHeight trace height
height-IsHeight s c (inl e) p = lower s c _ 9 e p refl (omega arith)
height-IsHeight s c (inr (inl e)) p = lower s c _ 1 e p refl (omega arith)
height-IsHeight s c (inr (inr (inl e))) p = lower s c _ 2 e p refl (omega arith)
height-IsHeight s c (inr (inr (inr (inl e)))) p = lower s c _ 1 e p refl (omega arith)
height-IsHeight s c (inr (inr (inr (inr (inl e))))) p = cc (ap (λ (y : Span). y.parent) e)
height-IsHeight s c (inr (inr (inr (inr (inr h))))) p = absurd h

build_span_tree_ends_example : build_span_tree leb 3 trace ≡ build_span_tree leb 7 trace
build_span_tree_ends_example =
    build_span_tree_ends leb trace height 3 7 height-IsHeight (omega arith) (omega arith)
