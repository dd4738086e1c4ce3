-- ===== src/Traces/Pending/Ancestors.antt =====
-- Every ancestor that a span names is shown.
use traceroot.Traces.Pending.{
  enrich_spans_with_pending, path_of, add_all, given_pending, add_span, add_ancestor, pull_start,
  add_path, placeholder, real, put_pending, LiveSpan, has_id,
}
use traceroot.Prelude.{
  any-append, ◌∙◌, ap, ◌==◌, ==_iff, Bool-cases, Option-cases, keep, none, not, false, refl, inr,
  sym, some, subst, Option, inl, ◌||◌, List, [], ◌∷◌, ◌≡◌, arith, true, length, ℕ, IsIn,
}

module _ (k : ℕ) where
  put_keeps :
      (s : LiveSpan) (xs : List LiveSpan) → has_id k xs ≡ true → has_id k (put_pending s xs) ≡ true
  unfolding put_pending
  put_keeps s [] h = cc
  put_keeps s (x ∷ xs) h = ground (arith, put_keeps s xs)

  put_has : (s : LiveSpan) (xs : List LiveSpan) → s.id ≡ k → has_id k (put_pending s xs) ≡ true
  unfolding put_pending
  put_has s [] h = ground arith
  put_has s (x ∷ xs) h = ground (arith, put_has s xs)

  pull_keeps :
      (id starts : ℕ) (xs : List LiveSpan) → has_id k (pull_start id starts xs) ≡ has_id k xs
  unfolding pull_start
  pull_keeps id starts [] = refl
  pull_keeps id starts (x ∷ xs) = ground (arith, pull_keeps id starts xs)

  -- the id is one of a span that is there, or of a placeholder
  abbrev Shown : List LiveSpan → List LiveSpan → Type 0
  Shown spans pending = (has_id k (real spans) || has_id k pending) ≡ true

  add_ancestor_keeps :
      (spans : List LiveSpan) (starts id : ℕ) (parent : Option ℕ) (name : ℕ)
      (pending : List LiveSpan)
      → Shown spans pending
      → Shown spans (add_ancestor spans starts id parent name pending)
  unfolding add_ancestor
  add_ancestor_keeps spans starts id parent name pending h =
      ground
        (arith, put_keeps (placeholder id parent name starts) pending, pull_keeps id starts pending)

  add_ancestor-Shown :
      (spans : List LiveSpan) (starts : ℕ) (parent : Option ℕ) (name : ℕ) (pending : List LiveSpan)
      → (has_id k spans ≡ true → Shown spans pending)
      → Shown spans (add_ancestor spans starts k parent name pending)
  unfolding add_ancestor
  add_ancestor-Shown spans starts parent name pending h =
      ground
        (arith, put_has (placeholder k parent name starts) pending, pull_keeps k starts pending)

  add_path_keeps :
      (spans : List LiveSpan) (starts : ℕ) (parent : Option ℕ) (ids names : List ℕ)
      (pending : List LiveSpan)
      → Shown spans pending
      → Shown spans (add_path spans starts parent ids names pending)
  unfolding add_path
  add_path_keeps spans starts parent [] names pending h = h
  add_path_keeps spans starts parent (id ∷ ids) [] pending h = h
  add_path_keeps spans starts parent (id ∷ ids) (name ∷ names) pending h =
      add_path_keeps spans starts (some id) ids names
        (add_ancestor spans starts id parent name pending)
        (add_ancestor_keeps spans starts id parent name pending h)

  add_path-Shown :
      (spans : List LiveSpan) (starts : ℕ) (parent : Option ℕ) (ids names : List ℕ)
      (pending : List LiveSpan)
      → length ids ≡ length names
      → IsIn k ids
      → (has_id k spans ≡ true → Shown spans pending)
      → Shown spans (add_path spans starts parent ids names pending)
  unfolding add_path
  add_path-Shown spans starts parent [] names pending l m h = absurd m
  add_path-Shown spans starts parent (id ∷ ids) [] pending l m h = absurd (omega arith)
  add_path-Shown spans starts parent (id ∷ ids) (name ∷ names) pending l (inl e) h =
      add_path_keeps spans starts (some id) ids names
        (add_ancestor spans starts id parent name pending)
        (subst (λ (j : ℕ). Shown spans (add_ancestor spans starts j parent name pending)) (sym e)
          (add_ancestor-Shown spans starts parent name pending h))
  add_path-Shown spans starts parent (id ∷ ids) (name ∷ names) pending l (inr m) h =
      add_path-Shown spans starts (some id) ids names
        (add_ancestor spans starts id parent name pending) (omega arith) m
        (λ there. add_ancestor_keeps spans starts id parent name pending (h there))

  add_span_keeps :
      (spans : List LiveSpan) (s : LiveSpan) (pending : List LiveSpan)
      → Shown spans pending
      → Shown spans (add_span spans s pending)
  add_span_keeps spans s pending h = elim (Option-cases (path_of s)) [
    | inl e ↦ rw (add_span, e) h
    | inr ((ids, names), e) ↦
        rw (add_span, e) (add_path_keeps spans s.starts none ids names pending h)
  ]

  add_all_keeps :
      (spans rest pending : List LiveSpan)
      → Shown spans pending
      → Shown spans (add_all spans rest pending)
  unfolding add_all
  add_all_keeps spans [] pending h = h
  add_all_keeps spans (s ∷ rest) pending h =
      add_all_keeps spans rest (add_span spans s pending) (add_span_keeps spans s pending h)

  given_keeps :
      (rest pending : List LiveSpan)
      → has_id k pending ≡ true
      → has_id k (given_pending rest pending) ≡ true
  unfolding given_pending
  given_keeps [] pending h = h
  given_keeps (s ∷ rest) pending h = ground (
    arith,
    given_keeps rest (put_pending s pending),
    given_keeps rest pending,
    put_keeps s pending,
  )

  given-Shown :
      (rest pending : List LiveSpan)
      → has_id k rest ≡ true
      → (has_id k (real rest) || has_id k (given_pending rest pending)) ≡ true
  unfolding given_pending
  given-Shown [] pending h = cc
  given-Shown (s ∷ rest) pending h = ground (
    arith,
    given-Shown rest (put_pending s pending),
    given-Shown rest pending,
    put_has s pending,
    given_keeps rest (put_pending s pending),
  )

  unlisted_kept :
      (others xs : List LiveSpan)
      → has_id k others ≡ false
      → has_id k xs ≡ true
      → has_id k (keep (λ (s : LiveSpan). not (has_id s.id others)) xs) ≡ true
  unlisted_kept others [] h m = cc
  unlisted_kept others (x ∷ xs) h m = elim (Bool-cases (x.id == k)) [
    | inl e ↦
        let same : has_id x.id others ≡ false =
          ap (λ (j : ℕ). has_id j others) ((==_iff x.id k).0 e) ∙ h in
        rw same (rw e refl)
    | inr e ↦ ground (arith, unlisted_kept others xs)
  ]

  add_all-Shown :
      (spans rest pending : List LiveSpan) (s : LiveSpan) (ids names : List ℕ)
      → IsIn s rest
      → path_of s ≡ some (ids, names)
      → length ids ≡ length names
      → IsIn k ids
      → (has_id k spans ≡ true → Shown spans pending)
      → Shown spans (add_all spans rest pending)
  unfolding add_all
  add_all-Shown spans [] pending s ids names m e l i h = absurd m
  add_all-Shown spans (x ∷ rest) pending s ids names (inl same) e l i h =
      let there : path_of x ≡ some (ids, names) = ap path_of same ∙ e in
      add_all_keeps spans rest (add_span spans x pending)
        (rw (add_span, there) (add_path-Shown spans x.starts none ids names pending l i h))
  add_all-Shown spans (x ∷ rest) pending s ids names (inr m) e l i h =
      add_all-Shown spans rest (add_span spans x pending) s ids names m e l i
        (λ there. add_span_keeps spans x pending (h there))

path_fits :
    (s : LiveSpan) (ids names : List ℕ) → path_of s ≡ some (ids, names) → length ids ≡ length names
path_fits s ids names e = ground arith

-- Every id of the path of a span, where its paths fit, is the id of a span that is shown: of one that
-- has arrived, or of a placeholder.
pub ancestors_shown :
    (spans : List LiveSpan) (s : LiveSpan) (ids names : List ℕ) (k : ℕ)
    → IsIn s spans
    → path_of s ≡ some (ids, names)
    → IsIn k ids
    → has_id k (enrich_spans_with_pending spans) ≡ true
unfolding enrich_spans_with_pending
ancestors_shown spans s ids names k m e i =
    let l = path_fits s ids names e in
    let base : has_id k spans ≡ true → Shown k spans (given_pending spans []) =
      given-Shown k spans [] in
    let all = add_all spans spans (given_pending spans []) in
    let shown : Shown k spans all =
      add_all-Shown k spans spans (given_pending spans []) s ids names m e l i base in
    any-append (λ (x : LiveSpan). x.id == k) (real spans)
      (keep (λ (x : LiveSpan). not (has_id x.id (real spans))) all)
    ∙ elim (Bool-cases (has_id k (real spans))) [
      | inl there ↦ rw there refl
      | inr absent ↦ rw absent (unlisted_kept k (real spans) all absent (rw absent at shown))
    ]
