-- ===== src/Prelude/Sort.antt =====
-- `ORDER BY`: a stable insertion sort by a Boolean order on rows.
use mathlib.Core.Path.{◌≡◌}
use mathlib.Core.Bool.{Bool, true, false}
use mathlib.Core.Logic.{inl, inr}
use mathlib.Core.List.{List, [], ◌∷◌, Perm}
use mathlib.Core.List.Perm
use project_constellation.Prelude.Tests.{if◌then◌else◌, Bool-cases}
use project_constellation.Prelude.Lists.{All}

module _ {ℓ} {A : Type ℓ} where
  abbrev pub insert_by : (A → A → Bool) → A → List A → List A
  insert_by le a [] = a ∷ []
  insert_by le a (x ∷ xs) = if le a x then a ∷ x ∷ xs else x ∷ insert_by le a xs

  -- Rows that the order does not separate keep the order of the table.
  unfoldable pub sort_by : (A → A → Bool) → List A → List A
  sort_by le [] = []
  sort_by le (x ∷ xs) = insert_by le x (sort_by le xs)

  module _ (le : A → A → Bool) where
    insert_by-perm : (a : A) (xs : List A) → Perm (insert_by le a xs) (a ∷ xs)
    insert_by-perm a [] = Perm.refl (a ∷ [])
    insert_by-perm a (x ∷ xs) = elim (Bool-cases (le a x)) [
      | inl e ↦ rw e (Perm.refl (a ∷ x ∷ xs))
      | inr e ↦ rw e (Perm.trans (Perm.cons x (insert_by-perm a xs)) (Perm.swap a x xs))
    ]

    pub sort_by-perm : (xs : List A) → Perm (sort_by le xs) xs
    unfolding sort_by
    sort_by-perm [] = Perm.refl []
    sort_by-perm (x ∷ xs) =
        Perm.trans (insert_by-perm x (sort_by le xs)) (Perm.cons x (sort_by-perm xs))

    pub insert_by-All {κ} :
        (P : A → Type κ) (a : A) (xs : List A) → P a → All P xs → All P (insert_by le a xs)
    insert_by-All P a [] p h = (p, tt)
    insert_by-All P a (x ∷ xs) p h = elim (Bool-cases (le a x)) [
      | inl e ↦ rw e (p, h)
      | inr e ↦ rw e (h.0, insert_by-All P a xs p h.1)
    ]

    -- What holds of every row holds of every sorted row.
    pub sort_by-All {κ} : (P : A → Type κ) (xs : List A) → All P xs → All P (sort_by le xs)
    unfolding sort_by
    sort_by-All P [] h = tt
    sort_by-All P (x ∷ xs) h = insert_by-All P x (sort_by le xs) h.0 (sort_by-All P xs h.1)

    -- Each row may stand before every later one.
    abbrev pub IsOrdered : List A → Type 0
    IsOrdered [] = Unit
    IsOrdered (x ∷ xs) = All (λ y. le x y ≡ true) xs × IsOrdered xs

    module _ (le_trans : (a b c : A) → le a b ≡ true → le b c ≡ true → le a c ≡ true)
        (le_total : (a b : A) → le a b ≡ false → le b a ≡ true) where
      below-All :
          (a x : A) (xs : List A)
          → le a x ≡ true
          → All (λ y. le x y ≡ true) xs
          → All (λ y. le a y ≡ true) xs
      below-All a x [] h hs = tt
      below-All a x (y ∷ ys) h hs = (le_trans a x y h hs.0, below-All a x ys h hs.1)

      insert_by-IsOrdered : (a : A) (xs : List A) → IsOrdered xs → IsOrdered (insert_by le a xs)
      insert_by-IsOrdered a [] h = (tt, tt)
      insert_by-IsOrdered a (x ∷ xs) h = elim (Bool-cases (le a x)) [
        | inl e ↦ rw e ((e, below-All a x xs e h.0), h)
        | inr e ↦ rw e (
          insert_by-All (λ y. le x y ≡ true) a xs (le_total a x e) h.0,
          insert_by-IsOrdered a xs h.1,
        )
      ]

      pub sort_by-IsOrdered : (xs : List A) → IsOrdered (sort_by le xs)
      unfolding sort_by
      sort_by-IsOrdered [] = tt
      sort_by-IsOrdered (x ∷ xs) = insert_by-IsOrdered x (sort_by le xs) (sort_by-IsOrdered xs)
