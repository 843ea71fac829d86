-- ===== src/State/Valid/Rows.antt =====
-- What the schema demands of a table holds after its rows are added to, changed or removed.
use project_constellation.Prelude.{
  ◌≡◌, ◌==◌, Bool, true, false, not, ◌&&◌, ◌||◌, List, [], ◌∷◌, ◌++◌, String, arith, any, All,
  All-append, All-select, select, update_where, Bool-cases, inl, inr,
}
use project_constellation.Prelude.Rows.{
  IsUnique, IsUnique-append, IsUnique-select, IsUnique-update_where,
}

pub not-true : (b : Bool) → not b ≡ true → b ≡ false
not-true b h = ground arith

module _ {ℓ} {A : Type ℓ} where
  -- The rows pass their check after an update that is refused when a changed row fails it.
  pub All-checked :
      (p check : A → Bool) (f : A → A) (xs : List A)
      → any (λ x. p x && not (check (f x))) xs ≡ false
      → All (λ x. check x ≡ true) xs
      → All (λ x. check x ≡ true) (update_where p f xs)
  All-checked p check f [] h a = tt
  All-checked p check f (x ∷ xs) h a = elim (Bool-cases (p x)) [
    | inl e ↦ rw e (ground arith, All-checked p check f xs (ground arith) a.1)
    | inr e ↦ rw e (a.0, All-checked p check f xs (ground arith) a.1)
  ]

  pub any-first :
      (p q : A → Bool) (xs : List A) → any (λ x. p x || q x) xs ≡ false → any p xs ≡ false
  any-first p q [] h = h
  any-first p q (x ∷ xs) h = ground (arith, any-first p q xs)

  pub any-second :
      (p q : A → Bool) (xs : List A) → any (λ x. p x || q x) xs ≡ false → any q xs ≡ false
  any-second p q [] h = h
  any-second p q (x ∷ xs) h = ground (arith, any-second p q xs)

-- A table with a text key and a check.
module _ {A : Type 0} (key : A → String) (check : A → Bool) where
  abbrev pub Keyed : List A → Type 0
  Keyed xs = IsUnique key xs × All (λ x. check x ≡ true) xs

  pub Keyed-append :
      (xs : List A) (y : A)
      → Keyed xs
      → check y ≡ true
      → any (λ x. key x == key y) xs ≡ false
      → Keyed (xs ++ y ∷ [])
  Keyed-append xs y h c fresh =
      (IsUnique-append key xs y h.0 fresh, All-append (λ x. check x ≡ true) xs (y ∷ []) h.1 (c, tt))

  pub Keyed-update_where :
      (p : A → Bool) (f : A → A) (keep : (x : A) → key (f x) ≡ key x) (xs : List A)
      → any (λ x. p x && not (check (f x))) xs ≡ false
      → Keyed xs
      → Keyed (update_where p f xs)
  Keyed-update_where p f keep xs passes h =
      (IsUnique-update_where key f keep p xs h.0, All-checked p check f xs passes h.1)

  pub Keyed-select : (p : A → Bool) (xs : List A) → Keyed xs → Keyed (select p xs)
  Keyed-select p xs h = (IsUnique-select key p xs h.0, All-select (λ x. check x ≡ true) p xs h.1)
