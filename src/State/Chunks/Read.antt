-- ===== src/State/Chunks/Read.antt =====
-- The task that GetTask of controller/state/store.go returns has the status of its row.
use project_constellation.Prelude.{
  ◌≡◌, refl, sym, ap, ◌∙◌, ◌==◌, String, List, Option, none, some, some_inj, find?, Bool-cases, inl,
  inr,
}
use project_constellation.State.Model.{Task, TaskChunk}
use project_constellation.State.Engine.{Engine, Store, Result, ok, err, ◌>>=◌}
use project_constellation.State.Engine.Rules.{exec-made, ok_inj}
use project_constellation.State.Tasks.Updates.{task_row}
use project_constellation.State.Chunks.{get_task, get_task_chunks, scan_task, with_chunks}

module _ {F : Type 0} (e : Engine) (i : String) (s : Store F) where
  with_chunks-status : (t q : Task) → with_chunks e t s ≡ ok q → q.status ≡ t.status
  unfolding with_chunks
  with_chunks-status t q h = elim (Bool-cases (t.type == "split")) [
    | inr simple ↦ sym (ap (λ x. x.status) (ok_inj t q (rw simple at h)))
    | inl split ↦ loaded (get_task_chunks e t.id s) (rw split at h)
  ]
    where
      loaded :
          (r : Result (List TaskChunk))
          → (r >>= λ cs. ok (record t { chunks = cs })) ≡ ok q
          → q.status ≡ t.status
      loaded (ok cs) k = sym (ap (λ x. x.status) (ok_inj _ q k))
      loaded (err x) k = absurd (cc k)

  pub get_task-row :
      (q t : Task) → get_task e i s ≡ ok q → task_row i s ≡ some t → q.status ≡ t.status
  unfolding get_task
  get_task-row q t h r = scanned (find? (λ p. p.id == i) s.tasks) r (exec-made e _ _ _ h)
    where
      scanned :
          (o : Option Task)
          → o ≡ some t
          → (scan_task o >>= λ p. with_chunks e p s) ≡ ok q
          → q.status ≡ t.status
      scanned none a b = absurd (cc a)
      scanned (some p) a b =
          with_chunks-status p q (unfold scan_task in b) ∙ ap (λ x. x.status) (some_inj a)

  -- A task that GetTask returns has a row.
  pub get_task-task_row : (q : Task) → get_task e i s ≡ ok q → (t : Task) × (task_row i s ≡ some t)
  unfolding get_task
  get_task-task_row q h = scanned (find? (λ p. p.id == i) s.tasks) refl (exec-made e _ _ _ h)
    where
      scanned :
          (o : Option Task)
          → find? (λ p. p.id == i) s.tasks ≡ o
          → (scan_task o >>= λ p. with_chunks e p s) ≡ ok q
          → (t : Task) × (task_row i s ≡ some t)
      scanned none a b = let refused : err _ ≡ ok q = unfold scan_task in b in absurd (cc refused)
      scanned (some t) a b = (t, a)
