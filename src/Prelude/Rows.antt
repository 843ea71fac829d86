-- ===== src/Prelude/Rows.antt =====
-- Rows under a text key: what an update does to the row of a key, and unique keys.
use mathlib.Core.Option
use project_constellation.Prelude.Sort.{insert_by, insert_by-All, sort_by-All}
use project_constellation.Prelude.{
  ◌≡◌, ◌∙◌, Bool, false, ◌==◌, String, List, [], ◌∷◌, ◌++◌, Option, some, arith, eq_iff, eq_refl,
  eq_comm, Bool-cases, inl, inr, find?, select, update_where, any, All, All-append, All-select,
  sort_by, if◌then◌else◌,
}

module _ {ℓ} {A : Type ℓ} (key : A → String) where
  -- The row of a key.
  abbrev pub row_of : String → List A → Option A
  row_of i = find? (λ x. key x == i)

  -- No two rows have the same key.
  abbrev pub IsUnique : List A → Type 0
  IsUnique [] = Unit
  IsUnique (x ∷ xs) = All (λ y. (key y == key x) ≡ false) xs × IsUnique xs

  pub row_of-update_where :
      (f : A → A) (keep : (x : A) → key (f x) ≡ key x) (i j : String) (xs : List A)
      → row_of j (update_where (λ x. key x == i) f xs)
        ≡ (if i == j then Option.map f (row_of j xs) else row_of j xs)
  row_of-update_where f keep i j [] = ground arith
  row_of-update_where f keep i j (x ∷ xs) = ground (
    arith,
    keep x,
    eq_iff (key x) i,
    eq_iff (key x) j,
    eq_iff i j,
    row_of-update_where f keep i j xs,
  )

  All-fresh-update_where :
      (f : A → A) (keep : (x : A) → key (f x) ≡ key x) (p : A → Bool) (i : String) (xs : List A)
      → All (λ y. (key y == i) ≡ false) xs
      → All (λ y. (key y == i) ≡ false) (update_where p f xs)
  All-fresh-update_where f keep p i [] h = tt
  All-fresh-update_where f keep p i (x ∷ xs) h = ground (
    arith,
    keep x,
    eq_iff (key x) i,
    eq_iff (key (f x)) i,
    All-fresh-update_where f keep p i xs h.1,
  )

  -- An update that keeps the keys keeps them unique.
  pub IsUnique-update_where :
      (f : A → A) (keep : (x : A) → key (f x) ≡ key x) (p : A → Bool) (xs : List A)
      → IsUnique xs
      → IsUnique (update_where p f xs)
  IsUnique-update_where f keep p [] h = tt
  IsUnique-update_where f keep p (x ∷ xs) h = elim (Bool-cases (p x)) [
    | inl e ↦
        rw (e, keep x)
          (All-fresh-update_where f keep p (key x) xs h.0, IsUnique-update_where f keep p xs h.1)
    | inr e ↦
        rw e (All-fresh-update_where f keep p (key x) xs h.0, IsUnique-update_where f keep p xs h.1)
  ]

  pub IsUnique-select : (p : A → Bool) (xs : List A) → IsUnique xs → IsUnique (select p xs)
  IsUnique-select p [] h = tt
  IsUnique-select p (x ∷ xs) h = elim (Bool-cases (p x)) [
    | inl e ↦ rw e (All-select (λ y. (key y == key x) ≡ false) p xs h.0, IsUnique-select p xs h.1)
    | inr e ↦ rw e (IsUnique-select p xs h.1)
  ]

  -- A row whose key is not in use may be added.
  pub IsUnique-append :
      (xs : List A) (y : A)
      → IsUnique xs
      → any (λ x. key x == key y) xs ≡ false
      → IsUnique (xs ++ y ∷ [])
  IsUnique-append [] y h e = (tt, tt)
  IsUnique-append (x ∷ xs) y h e = (
    All-append (λ z. (key z == key x) ≡ false) xs (y ∷ []) h.0 (head_fresh, tt),
    IsUnique-append xs y h.1 (ground arith),
  )
    where
      head_fresh : (key y == key x) ≡ false
      head_fresh = ground (arith, eq_iff (key x) (key y), eq_iff (key y) (key x))

  insert_by-IsUnique :
      (le : A → A → Bool) (a : A) (xs : List A)
      → All (λ y. (key y == key a) ≡ false) xs
      → IsUnique xs
      → IsUnique (insert_by le a xs)
  insert_by-IsUnique le a [] h u = (tt, tt)
  insert_by-IsUnique le a (x ∷ xs) h u = elim (Bool-cases (le a x)) [
    | inl e ↦ rw e (h, u)
    | inr e ↦ rw e (
      insert_by-All le (λ y. (key y == key x) ≡ false) a xs (eq_comm _ _ ∙ h.0) u.0,
      insert_by-IsUnique le a xs h.1 u.1,
    )
  ]

  pub IsUnique-sort_by : (le : A → A → Bool) (xs : List A) → IsUnique xs → IsUnique (sort_by le xs)
  unfolding sort_by
  IsUnique-sort_by le [] h = tt
  IsUnique-sort_by le (x ∷ xs) h =
      insert_by-IsUnique le x (sort_by le xs)
        (sort_by-All le (λ y. (key y == key x) ≡ false) xs h.0) (IsUnique-sort_by le xs h.1)

  -- Under unique keys a query by key finds the row itself.
  pub row_of-All : (xs : List A) → IsUnique xs → All (λ q. row_of (key q) xs ≡ some q) xs
  row_of-All [] h = tt
  row_of-All (x ∷ xs) h = (rw (eq_refl (key x)), later xs (row_of-All xs h.1) h.0)
    where
      later :
          (ys : List A)
          → All (λ q. row_of (key q) xs ≡ some q) ys
          → All (λ y. (key y == key x) ≡ false) ys
          → All (λ q. row_of (key q) (x ∷ xs) ≡ some q) ys
      later [] a b = tt
      later (y ∷ ys) a b = (rw (eq_comm (key x) (key y), b.0) a.0, later ys a.1 b.1)

module _ {ℓ} {A : Type ℓ} where
  -- A predicate that a change keeps holds of every row after the update.
  pub All-update_where {κ} :
      (P : A → Type κ) (p : A → Bool) (f : A → A) (xs : List A)
      → ((x : A) → P x → P (f x))
      → All P xs
      → All P (update_where p f xs)
  All-update_where P p f [] k h = tt
  All-update_where P p f (x ∷ xs) k h = elim (Bool-cases (p x)) [
    | inl e ↦ rw e (k x h.0, All-update_where P p f xs k h.1)
    | inr e ↦ rw e (h.0, All-update_where P p f xs k h.1)
  ]
