-- ===== src/State/Tasks/Updates.antt =====
-- What the task updates of the store do to the row of each id, whether the database refuses them or
-- not.
use project_constellation.Prelude.{
  ℕ, ℤ, ◌∙◌, ap, ◌≡◌, refl, ◌⊎◌, inl, inr, Bool, true, false, not, ◌&&◌, ◌||◌, ◌==◌, String, Option,
  some, any, update_where, arith, eq_refl, Bool-cases,
}
use project_constellation.Prelude.Rows.{
  row_of, row_of-update_where, IsUnique, IsUnique-update_where,
}
use project_constellation.State.Model.{Task}
use project_constellation.State.Engine.{
  Engine, Store, after, require, references_node, has_task, task_check, Statement, Table,
}
use project_constellation.State.Tasks.{
  update_task, task_key, set_assignment, set_result, set_retry, set_status, update_task_assignment,
  update_task_result, update_task_status, increment_task_retry,
}

-- The row of the task with an id.
abbrev pub task_row : {F : Type 0} → String → Store F → Option Task
task_row i s = row_of (λ t. t.id) i s.tasks

-- The store after an update of one task: as it was, or with `f` made on the rows of the id.
pub data Updated {F : Type 0} (i : String) (f : Task → Task) (s s' : Store F) : Type 0 where
  kept : s'.tasks ≡ s.tasks → Updated i f s s'
  changed : s'.tasks ≡ update_where (task_key i) f s.tasks → Updated i f s s'

pub set_status-id : (now : ℕ) (status : String) (t : Task) → (set_status now status t).id ≡ t.id
set_status-id now status t = ground arith

module _ {F : Type 0} where
  update_task-Updated :
      (e : Engine) (i : String) (f : Task → Task) (s : Store F)
      → Updated i f s (after s (update_task e i f s))
  update_task-Updated e i f s = elim (Bool-cases (e.fault (Statement.update Table.tasks i))) [
    | inl h ↦ rw h (kept refl)
    | inr h ↦ rw h (elim (Bool-cases (any (λ t. task_key i t && not (task_check (f t))) s.tasks)) [
      | inl g ↦ rw g (kept refl)
      | inr g ↦ rw g (changed refl)
    ])
  ]

  Updated-require :
      (e : Engine) (b : Bool) (i : String) (f : Task → Task) (s : Store F)
      → Updated i f s (after s (require b (update_task e i f s)))
  Updated-require e true i f s = update_task-Updated e i f s
  Updated-require e false i f s = kept refl

  pub update_task_status-Updated :
      (e : Engine) (now : ℕ) (i status : String) (s : Store F)
      → Updated i (set_status now status) s (after s (update_task_status e now i status s))
  unfolding update_task_status
  update_task_status-Updated e now i status s = update_task-Updated e i _ s

  pub update_task_assignment-Updated :
      (e : Engine) (i node_id : String) (s : Store F)
      → Updated i (set_assignment node_id) s (after s (update_task_assignment e i node_id s))
  unfolding update_task_assignment
  update_task_assignment-Updated e i node_id s =
      Updated-require e (references_node e node_id s || not (has_task i s)) i _ s

  pub update_task_result-Updated :
      (e : Engine) (now : ℕ) (i : String) (exit_code : ℤ) (message : String) (s : Store F)
      → Updated i
          (set_result now exit_code message)
          s
          (after s (update_task_result e now i exit_code message s))
  unfolding update_task_result
  update_task_result-Updated e now i exit_code message s = update_task-Updated e i _ s

  pub increment_task_retry-Updated :
      (e : Engine) (i : String) (s : Store F)
      → Updated i set_retry s (after s (increment_task_retry e i s))
  unfolding increment_task_retry
  increment_task_retry-Updated e i s =
      Updated-require e (references_node e "" s || not (has_task i s)) i _ s

  -- The row of another id stays.
  pub task_row-Updated :
      {i : String} {f : Task → Task} {s s' : Store F} (j : String)
      → ((t : Task) → (f t).id ≡ t.id)
      → (i == j) ≡ false
      → Updated i f s s'
      → task_row j s' ≡ task_row j s
  task_row-Updated j keep h (kept e) = rw e
  task_row-Updated {i} {f} {s} j keep h (changed e) =
      rw e (row_of-update_where (λ t. t.id) f keep i j s.tasks ∙ rw h)

  -- The row of the id itself stays, or is changed by `f`.
  pub task_row-Updated_self :
      {i : String} {f : Task → Task} {s s' : Store F} {t : Task}
      → ((t : Task) → (f t).id ≡ t.id)
      → task_row i s ≡ some t
      → Updated i f s s'
      → (task_row i s' ≡ some t) ⊎ (task_row i s' ≡ some (f t))
  task_row-Updated_self keep h (kept e) = inl (rw e h)
  task_row-Updated_self {i} {f} {s} keep h (changed e) =
      inr (rw e (row_of-update_where (λ t. t.id) f keep i i s.tasks ∙ rw (eq_refl i, h)))

  -- What goes before the update may leave the tasks alone.
  pub Updated-after :
      {i : String} {f : Task → Task} {s s1 s' : Store F}
      → s1.tasks ≡ s.tasks
      → Updated i f s1 s'
      → Updated i f s s'
  Updated-after e (kept h) = kept (h ∙ e)
  Updated-after {i} {f} e (changed h) = changed (h ∙ ap (update_where (task_key i) f) e)

  -- An update keeps the ids unique.
  pub Updated-IsUnique :
      {i : String} {f : Task → Task} {s s' : Store F}
      → ((t : Task) → (f t).id ≡ t.id)
      → Updated i f s s'
      → IsUnique (λ t. t.id) s.tasks
      → IsUnique (λ t. t.id) s'.tasks
  Updated-IsUnique keep (kept h) u = rw h u
  Updated-IsUnique {i} {f} {s} keep (changed h) u =
      rw h (IsUnique-update_where (λ t. t.id) f keep (task_key i) s.tasks u)
