-- ===== src/State/Chunks/Completion.antt =====
-- What AreAllChunksCompleted of controller/state/store.go tells of the chunks of a task.
use project_constellation.Prelude.{
  ◌≤◌, ◌≡◌, refl, ap, inl, inr, Bool, true, ◌&&◌, String, List, [], ◌∷◌, arith, All, ◌↔◌, ◌<◌,
  Bool-cases, length, select,
}
use project_constellation.State.Engine.{Engine, Store, ok}
use project_constellation.State.Engine.Rules.{exec-ok, exec-made}
use project_constellation.State.Chunks.{chunk_parent, is_finished, are_all_chunks_completed}

module _ {ℓ} {A : Type ℓ} where
  select_and : (p q : A → Bool) (xs : List A) → select (λ x. p x && q x) xs ≡ select q (select p xs)
  select_and p q [] = refl
  select_and p q (x ∷ xs) = ground (arith, select_and p q xs)

  length-select : (q : A → Bool) (xs : List A) → length (select q xs) ≤ length xs
  length-select q [] = omega arith
  length-select q (x ∷ xs) = ground (arith, length-select q xs)

  -- As many rows pass the test as there are exactly when all pass it.
  All-pass :
      (q : A → Bool) (xs : List A) → length xs ≡ length (select q xs) → All (λ x. q x ≡ true) xs
  All-pass q [] h = tt
  All-pass q (x ∷ xs) h = elim (Bool-cases (q x)) [
    | inl e ↦ (e, All-pass q xs (ground arith))
    | inr e ↦ absurd (ground (arith, length-select q xs))
  ]

  count-All :
      (q : A → Bool) (xs : List A) → All (λ x. q x ≡ true) xs → length xs ≡ length (select q xs)
  count-All q [] h = refl
  count-All q (x ∷ xs) h = rw h.0 (ground (arith, count-All q xs h.1))

-- The answer of AreAllChunksCompleted, where it gives one, is yes exactly when the task has a chunk
-- and each of its chunks is completed or failed.
pub are_all_chunks_completed_lem :
    {F : Type 0} (e : Engine) (s : Store F) (i : String) (b : Bool)
    → are_all_chunks_completed e i s ≡ ok b
    → (b ≡ true) ↔ (
        (0 < length (select (chunk_parent i) s.task_chunks))
        × All (λ c. is_finished c ≡ true) (select (chunk_parent i) s.task_chunks))
unfolding are_all_chunks_completed
are_all_chunks_completed_lem e s i b h =
    let chunks = select (chunk_parent i) s.task_chunks in
    let counts : (length (select (λ c. chunk_parent i c && is_finished c) s.task_chunks)
        ≡ length (select is_finished chunks)) =
      ap length (select_and (chunk_parent i) is_finished s.task_chunks) in
    let answer = exec-ok e _ _ _ (exec-made e _ _ _ h) in
    (
      (λ told.
          (ground (arith, answer), All-pass is_finished chunks (ground (arith, answer, counts)))),
      (λ q. ground (arith, answer, counts, q.0, count-All is_finished chunks q.1)),
    )
