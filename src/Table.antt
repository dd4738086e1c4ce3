-- ===== src/Table.antt =====
-- Database tables as lists of rows with a numeric primary key: the Prisma calls that the route
-- handlers make by primary key, and how they change the number of rows that satisfy a condition.
pub mod Updates
use traceroot.Prelude.{
  IsIn-keep_iff, ◌≢◌, subst, Bool-cases, ==_iff, ==_self, inl, sym, ◌∙◌, inr, false≢true, arith,
  count_if, true, ◌≡◌, List, [], some, false, find, ◌≤◌, ◌==◌, ap, IsIn, not, none, ◌∷◌, keep,
  if◌then◌else◌, Bool, any, ◌+◌, refl, ℕ,
}

module _ {A : Type 0} where
  pub find_sound :
      (p : A → Bool) (xs : List A) (a : A) → find p xs ≡ some a → IsIn a xs × (p a ≡ true)
  find_sound p [] a h = ground arith
  find_sound p (x ∷ xs) a h = ground (arith, find_sound p xs a, ap p)

  pub find-none : (p : A → Bool) (xs : List A) → find p xs ≡ none → count_if p xs ≡ 0
  find-none p [] h = refl
  find-none p (x ∷ xs) h = ground (arith, find-none p xs)

  pub IsIn-count_if :
      (p : A → Bool) (a : A) (xs : List A) → IsIn a xs → p a ≡ true → 1 ≤ count_if p xs
  IsIn-count_if p a [] m h = elim m [ ]
  IsIn-count_if p a (x ∷ xs) m h = ground (arith, IsIn-count_if p a xs, ap p)

module _ {A : Type 0} (id : A → ℕ) where
  -- `update` and `delete` where the primary key is given
  unfoldable pub update_by_id : ℕ → (A → A) → List A → List A
  update_by_id k f [] = []
  update_by_id k f (x ∷ xs) = (if id x == k then f x else x) ∷ update_by_id k f xs

  unfoldable pub delete_by_id : ℕ → List A → List A
  delete_by_id k xs = keep (λ x. not (id x == k)) xs

  abbrev pub has_id : ℕ → List A → Bool
  has_id k xs = any (λ x. id x == k) xs

  abbrev pub UniqueIds : List A → Type 0
  UniqueIds [] = Unit
  UniqueIds (x ∷ xs) = (has_id (id x) xs ≡ false) × UniqueIds xs

abbrev pub bit : Bool → ℕ
bit true = 1
bit false = 0

module _ {A : Type 0} (id : A → ℕ) (p : A → Bool) where
  count_if-update_fresh :
      (k : ℕ) (f : A → A) (xs : List A)
      → has_id id k xs ≡ false
      → count_if p (update_by_id id k f xs) ≡ count_if p xs
  unfolding update_by_id
  count_if-update_fresh k f [] h = refl
  count_if-update_fresh k f (x ∷ xs) h = ground (arith, count_if-update_fresh k f xs)

  count_if-delete_fresh :
      (k : ℕ) (xs : List A)
      → has_id id k xs ≡ false
      → count_if p (delete_by_id id k xs) ≡ count_if p xs
  unfolding delete_by_id
  count_if-delete_fresh k [] h = refl
  count_if-delete_fresh k (x ∷ xs) h = ground (arith, count_if-delete_fresh k xs)

  IsIn-has_id : (a : A) (xs : List A) → IsIn a xs → has_id id (id a) xs ≡ true
  IsIn-has_id a [] m = elim m [ ]
  IsIn-has_id a (x ∷ xs) m = ground (arith, IsIn-has_id a xs, ap id)

  other_id : (a x : A) (xs : List A) → UniqueIds id (x ∷ xs) → IsIn a xs → (id x == id a) ≡ false
  other_id a x xs u m = elim (Bool-cases (id x == id a)) [
    | inl same ↦ absurd (
        false≢true (
          sym (subst (λ k. has_id id k xs ≡ false) ((==_iff (id x) (id a)).0 same) u.0)
          ∙ IsIn-has_id a xs m))
    | inr other ↦ other
  ]

  -- An update of one row changes a count by that row's old and new worth.
  pub count_if-update :
      (f : A → A) (a : A) (xs : List A)
      → UniqueIds id xs
      → IsIn a xs
      → count_if p (update_by_id id (id a) f xs) + bit (p a) ≡ count_if p xs + bit (p (f a))
  unfolding update_by_id
  count_if-update f a [] u m = elim m [ ]
  count_if-update f a (x ∷ xs) u (inl e) =
      subst
        (λ b.
          count_if p (update_by_id id (id b) f (x ∷ xs)) + bit (p b)
          ≡ count_if p (x ∷ xs) + bit (p (f b)))
        e (ground (arith, ==_self (id x), count_if-update_fresh (id x) f xs))
  count_if-update f a (x ∷ xs) u (inr m) =
      ground (arith, other_id a x xs u m, count_if-update f a xs u.1 m)

  pub count_if-delete :
      (a : A) (xs : List A)
      → UniqueIds id xs
      → IsIn a xs
      → count_if p (delete_by_id id (id a) xs) + bit (p a) ≡ count_if p xs
  unfolding delete_by_id
  count_if-delete a [] u m = elim m [ ]
  count_if-delete a (x ∷ xs) u (inl e) =
      subst (λ b. count_if p (delete_by_id id (id b) (x ∷ xs)) + bit (p b) ≡ count_if p (x ∷ xs)) e
        (ground (arith, ==_self (id x), count_if-delete_fresh (id x) xs))
  count_if-delete a (x ∷ xs) u (inr m) =
      ground (arith, other_id a x xs u m, count_if-delete a xs u.1 m)

module _ {A : Type 0} (id : A → ℕ) where
  clash : (x b : A) (xs : List A) → UniqueIds id (x ∷ xs) → IsIn b xs → id x ≡ id b → ⊥
  clash x b xs u m e =
      false≢true (sym (other_id id (λ _. true) b x xs u m) ∙ (==_iff (id x) (id b)).1 e)

  -- Rows with one id are one row.
  pub same_row :
      (a b : A) (xs : List A) → UniqueIds id xs → IsIn a xs → IsIn b xs → id a ≡ id b → a ≡ b
  same_row a b [] u m n e = elim m [ ]
  same_row a b (x ∷ xs) u (inl p) (inl q) e = sym p ∙ q
  same_row a b (x ∷ xs) u (inr p) (inr q) e = same_row a b xs u.1 p q e
  same_row a b (x ∷ xs) u (inl p) (inr q) e = absurd (clash x b xs u q (ap id p ∙ e))
  same_row a b (x ∷ xs) u (inr p) (inl q) e = absurd (clash x a xs u p (ap id q ∙ sym e))

  -- Two rows that both satisfy a condition count for two.
  pub two_rows :
      (p : A → Bool) (a b : A) (xs : List A)
      → UniqueIds id xs
      → IsIn a xs
      → IsIn b xs
      → a ≢ b
      → p a ≡ true
      → p b ≡ true
      → 2 ≤ count_if p xs
  unfolding delete_by_id
  two_rows p a b xs u m n differ pa pb =
      let rest = count_if-delete id p a xs u m in
      let not_same : not (id b == id a) ≡ true = elim (Bool-cases (id b == id a)) [
        | inl same ↦ absurd (differ (same_row a b xs u m n (sym ((==_iff (id b) (id a)).0 same))))
        | inr other ↦ ap not other
      ] in
      let kept = (IsIn-keep_iff (λ x. not (id x == id a)) b xs).1 (n, not_same) in
      ground (arith, rest, IsIn-count_if p b (keep (λ x. not (id x == id a)) xs) kept pb)

  has_id-update :
      (k j : ℕ) (f : A → A) (xs : List A)
      → ((x : A) → id (f x) ≡ id x)
      → has_id id j (update_by_id id k f xs) ≡ has_id id j xs
  unfolding update_by_id
  has_id-update k j f [] same = refl
  has_id-update k j f (x ∷ xs) same = ground (arith, same x, has_id-update k j f xs same)

  pub UniqueIds-update :
      (k : ℕ) (f : A → A) (xs : List A)
      → ((x : A) → id (f x) ≡ id x)
      → UniqueIds id xs
      → UniqueIds id (update_by_id id k f xs)
  unfolding update_by_id
  UniqueIds-update k f [] same u = tt
  UniqueIds-update k f (x ∷ xs) same u = (
    elim (Bool-cases (id x == k)) [
      | inl hit ↦ ground (arith, hit, u.0, same x, has_id-update k (id x) f xs same)
      | inr miss ↦ ground (arith, miss, u.0, has_id-update k (id x) f xs same)
    ],
    UniqueIds-update k f xs same u.1,
  )

  has_id-delete :
      (k j : ℕ) (xs : List A) → has_id id j xs ≡ false → has_id id j (delete_by_id id k xs) ≡ false
  unfolding delete_by_id
  has_id-delete k j [] h = refl
  has_id-delete k j (x ∷ xs) h = ground (arith, has_id-delete k j xs)

  pub UniqueIds-delete :
      (k : ℕ) (xs : List A) → UniqueIds id xs → UniqueIds id (delete_by_id id k xs)
  unfolding delete_by_id
  UniqueIds-delete k [] u = tt
  UniqueIds-delete k (x ∷ xs) u = elim (Bool-cases (id x == k)) [
    | inl gone ↦
        subst (λ b. UniqueIds id (if not b then x ∷ delete_by_id id k xs else delete_by_id id k xs))
          (sym gone) (UniqueIds-delete k xs u.1)
    | inr stays ↦
        subst (λ b. UniqueIds id (if not b then x ∷ delete_by_id id k xs else delete_by_id id k xs))
          (sym stays) (has_id-delete k (id x) xs u.0, UniqueIds-delete k xs u.1)
  ]
