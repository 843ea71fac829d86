-- ===== src/State/Chunks/Loaded.antt =====
-- The chunks that GetTask of controller/state/store.go loads.
use project_constellation.Prelude.{
  ◌≡◌, refl, sym, ap, ◌∙◌, subst, ◌==◌, eq_iff, Bool, true, String, List, Option, none, some, find?,
  find?_sound, Bool-cases, inl, inr, leb, select, sort_by,
}
use project_constellation.State.Model.{Task, TaskChunk}
use project_constellation.State.Engine.{Engine, Store, Result, ok, err, ◌>>=◌}
use project_constellation.State.Engine.Rules.{exec-made, ok_inj}
use project_constellation.State.Chunks.{
  get_task, get_task_chunks, scan_task, with_chunks, chunk_parent,
}

abbrev pub index_order : TaskChunk → TaskChunk → Bool
index_order a b = leb a.chunk_index b.chunk_index

module _ {F : Type 0} (e : Engine) (i : String) (s : Store F) where
  with_chunks-sorted :
      (p t : Task)
      → with_chunks e p s ≡ ok t
      → (t.type == "split") ≡ true
      → t.chunks ≡ sort_by index_order (select (chunk_parent p.id) s.task_chunks)
  unfolding with_chunks get_task_chunks
  with_chunks-sorted p t h k = elim (Bool-cases (p.type == "split")) [
    | inr simple ↦ absurd (cc (k, simple, ap (λ x. x.type) (ok_inj p t (rw simple at h))))
    | inl split ↦ loaded (get_task_chunks e p.id s) refl (rw split at h)
  ]
    where
      loaded :
          (r : Result (List TaskChunk))
          → get_task_chunks e p.id s ≡ r
          → (r >>= λ cs. ok (record p { chunks = cs })) ≡ ok t
          → t.chunks ≡ sort_by index_order (select (chunk_parent p.id) s.task_chunks)
      loaded (ok cs) g b =
          sym (ap (λ x. x.chunks) (ok_inj _ t b)) ∙ sym (ok_inj _ cs (exec-made e _ _ _ g))
      loaded (err x) g b = absurd (cc b)

  pub get_task-sorted :
      (t : Task)
      → get_task e i s ≡ ok t
      → (t.type == "split") ≡ true
      → t.chunks ≡ sort_by index_order (select (chunk_parent i) s.task_chunks)
  unfolding get_task
  get_task-sorted t h k = scanned (find? (λ p. p.id == i) s.tasks) refl (exec-made e _ _ _ h)
    where
      scanned :
          (o : Option Task)
          → find? (λ p. p.id == i) s.tasks ≡ o
          → (scan_task o >>= λ p. with_chunks e p s) ≡ ok t
          → t.chunks ≡ sort_by index_order (select (chunk_parent i) s.task_chunks)
      scanned none a b = unfold scan_task in absurd (cc b)
      scanned (some p) a b =
          subst (λ q. t.chunks ≡ sort_by index_order (select (chunk_parent q) s.task_chunks))
            ((eq_iff p.id i).0 (find?_sound (λ q. q.id == i) s.tasks p a))
            (with_chunks-sorted p t (unfold scan_task in b) k)
