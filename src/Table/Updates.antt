-- ===== src/Table/Updates.antt =====
-- What an update by primary key does to searches and filters.
use traceroot.Table.{other_id, find_sound, UniqueIds, has_id, update_by_id}
use traceroot.Prelude.{
  ◌==◌, if◌then◌else◌, some, find, keep, Bool, refl, ◌∷◌, subst, inr, false, ◌≡◌, inl, [], List,
  arith, IsIn, Bool-cases, ==_self, ℕ,
}

module _ {A : Type 0} (id : A → ℕ) where
  update_fresh :
      (k : ℕ) (f : A → A) (xs : List A) → has_id id k xs ≡ false → update_by_id id k f xs ≡ xs
  unfolding update_by_id
  update_fresh k f [] h = refl
  update_fresh k f (x ∷ xs) h = ground (arith, update_fresh k f xs)

  -- The row that a search finds is found again, as updated, if the update keeps what is searched for.
  pub find-update :
      (p : A → Bool) (f : A → A) (a : A) (xs : List A)
      → ((x : A) → p (f x) ≡ p x)
      → UniqueIds id xs
      → find p xs ≡ some a
      → find p (update_by_id id (id a) f xs) ≡ some (f a)
  unfolding update_by_id
  find-update p f a [] same u h = cc
  find-update p f a (x ∷ xs) same u h = elim (Bool-cases (p x)) [
    | inl hit ↦
        let one : x ≡ a = ground (arith, hit, h) in
        subst (λ b. find p (update_by_id id (id b) f (x ∷ xs)) ≡ some (f b)) one
          (ground (arith, hit, ==_self (id x), same x))
    | inr miss ↦
        let later : find p xs ≡ some a = ground (arith, miss, h) in
        ground (
          arith,
          miss,
          other_id id p a x xs u (find_sound p xs a later).0,
          find-update p f a xs same u.1 later,
        )
  ]

  -- An update of a row that a filter drops, before and after, changes nothing of what it keeps.
  pub keep-update :
      (r : A → Bool) (f : A → A) (a : A) (xs : List A)
      → UniqueIds id xs
      → IsIn a xs
      → r a ≡ false
      → r (f a) ≡ false
      → keep r (update_by_id id (id a) f xs) ≡ keep r xs
  unfolding update_by_id
  keep-update r f a [] u m h k = refl
  keep-update r f a (x ∷ xs) u (inl e) h k =
      subst
        (λ b.
          r b ≡ false
          → r (f b) ≡ false
          → keep r (update_by_id id (id b) f (x ∷ xs)) ≡ keep r (x ∷ xs))
        e
        (λ out still_out.
          ground (arith, out, still_out, ==_self (id x), update_fresh (id x) f xs u.0))
        h k
  keep-update r f a (x ∷ xs) u (inr m) h k =
      ground (arith, other_id id r a x xs u m, keep-update r f a xs u.1 m h k)

  -- An update leaves the other rows.
  pub IsIn-update :
      (k : ℕ) (f : A → A) (b : A) (xs : List A)
      → (id b == k) ≡ false
      → IsIn b xs
      → IsIn b (update_by_id id k f xs)
  unfolding update_by_id
  IsIn-update k f b [] other m = elim m [ ]
  IsIn-update k f b (x ∷ xs) other (inl e) = inl (
      subst (λ c. (id c == k) ≡ false → (if id x == k then f x else x) ≡ c) e
        (λ miss. ground (arith, miss)) other)
  IsIn-update k f b (x ∷ xs) other (inr m) = inr (IsIn-update k f b xs other m)
