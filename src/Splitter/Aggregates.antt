-- ===== src/Splitter/Aggregates.antt =====
-- AggregateResults agrees with AreAllChunksCompleted of the store.
use project_constellation.Prelude.{
  ◌≡◌, ◌<◌, refl, sym, ap, ◌∙◌, Bool, true, false, not, ◌&&◌, ◌||◌, ◌==◌, Bool-cases, inl, inr,
  String, List, [], ◌∷◌, any, All, length, select, arith,
}
use project_constellation.Prelude.Sort.{insert_by, sort_by}
use project_constellation.State.Model.{Task, TaskChunk}
use project_constellation.State.Engine.{Engine, Store, ok}
use project_constellation.State.Chunks.{
  are_all_chunks_completed, chunk_parent, is_finished, get_task,
}
use project_constellation.State.Chunks.Completion.{are_all_chunks_completed_lem}
use project_constellation.State.Chunks.Loaded.{index_order, get_task-sorted}
use project_constellation.Splitter.{aggregate_results}

module _ {ℓ} {A : Type ℓ} (le : A → A → Bool) (p : A → Bool) where
  any-insert_by : (a : A) (xs : List A) → any p (insert_by le a xs) ≡ (p a || any p xs)
  any-insert_by a [] = refl
  any-insert_by a (x ∷ xs) = elim (Bool-cases (le a x)) [
    | inl e ↦ rw e refl
    | inr e ↦ rw e (ground (arith, any-insert_by a xs))
  ]

  any-sort_by : (xs : List A) → any p (sort_by le xs) ≡ any p xs
  unfolding sort_by
  any-sort_by [] = refl
  any-sort_by (x ∷ xs) = any-insert_by x (sort_by le xs) ∙ ap (λ b. p x || b) (any-sort_by xs)

abbrev is_unfinished : TaskChunk → Bool
is_unfinished c = not (c.status == "completed") && not (c.status == "failed")

finished-All :
    (cs : List TaskChunk) → any is_unfinished cs ≡ false → All (λ c. is_finished c ≡ true) cs
finished-All [] h = tt
finished-All (c ∷ cs) h = (ground arith, finished-All cs (ground arith))

any-unfinished :
    (cs : List TaskChunk) → All (λ c. is_finished c ≡ true) cs → any is_unfinished cs ≡ false
any-unfinished [] h = refl
any-unfinished (c ∷ cs) h = ground (arith, h.0, any-unfinished cs h.1)

-- On a split task that GetTask reads, and that has a chunk, AggregateResults tells that it is complete
-- exactly when AreAllChunksCompleted, where it answers, says so.
pub aggregate_results-are_all_chunks_completed :
    {F : Type 0} (e q : Engine) (s : Store F) (i : String) (t : Task) (b : Bool)
    → get_task e i s ≡ ok t
    → (t.type == "split") ≡ true
    → 0 < length (select (chunk_parent i) s.task_chunks)
    → are_all_chunks_completed q i s ≡ ok b
    → (aggregate_results t).complete ≡ b
unfolding aggregate_results
aggregate_results-are_all_chunks_completed e q s i t b read split some_chunk told =
    let rows = select (chunk_parent i) s.task_chunks in
    let same : any is_unfinished t.chunks ≡ any is_unfinished rows =
      ap (any is_unfinished) (get_task-sorted e i s t read split)
      ∙ any-sort_by index_order is_unfinished rows in
    let answer = are_all_chunks_completed_lem q s i b told in
    elim (Bool-cases (any is_unfinished rows)) [
      | inr none_open ↦
          let yes_told = answer.1 (some_chunk, finished-All rows none_open) in
          rw (split, same, none_open) (sym yes_told)
      | inl open_one ↦ elim (Bool-cases b) [
        | inl t' ↦ absurd (cc (open_one, any-unfinished rows (answer.0 t').1))
        | inr f ↦ rw (split, same, open_one) (sym f)
      ]
    ]
