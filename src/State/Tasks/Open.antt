-- ===== src/State/Tasks/Open.antt =====
-- The updates of tasks in a database that refuses nothing.
use project_constellation.Prelude.{
  ℕ, pos, ◌≡◌, refl, ◌∙◌, true, false, not, ◌&&◌, String, List, [], ◌∷◌, some, any, All, and_true,
  update_where, eq_refl, arith,
}
use project_constellation.Prelude.Rows.{row_of-update_where}
use project_constellation.State.Model.{Task}
use project_constellation.State.Engine.{Engine, Store, ok, Statement, Table, task_check}
use project_constellation.State.Valid.{IsValid}
use project_constellation.State.Tasks.{
  task_key, update_task, set_assignment, set_result, update_task_assignment, update_task_result,
}
use project_constellation.State.Tasks.Updates.{task_row}

-- The database refuses no statement, and does not enforce foreign keys, as SQLite's default is.
pub record IsOpen (e : Engine) : Type 0 where
  pub no_fault : (s : Statement) → e.fault s ≡ false
  pub no_keys : e.foreign_keys ≡ false

-- A change of a row that keeps its id and passes the CHECKs.
record Fits (f : Task → Task) : Type 0 where
  keeps_id : (t : Task) → (f t).id ≡ t.id
  checked : (t : Task) → task_check t ≡ true → task_check (f t) ≡ true

Fits-any :
    (f : Task → Task) (j : String) (ts : List Task)
    → Fits f
    → All (λ t. task_check t ≡ true) ts
    → any (λ t. task_key j t && not (task_check (f t))) ts ≡ false
Fits-any f j [] fits h = refl
Fits-any f j (t ∷ ts) fits h =
    let here : task_check (f t) ≡ true = fits.checked t h.0 in
    let later = Fits-any f j ts fits h.1 in rw (here, later) (ground arith)

module _ {F : Type 0} (e : Engine) (o : IsOpen e) (j : String) (t : Task) (s : Store F)
    (v : IsValid s) (r : task_row j s ≡ some t) where
  update_task-row :
      (f : Task → Task)
      → Fits f
      → (s' : Store F) × (update_task e j f s ≡ ok s') × (task_row j s' ≡ some (f t))
  update_task-row f fits = (
    record s { tasks = update_where (task_key j) f s.tasks },
    rw (o.no_fault (Statement.update Table.tasks j), Fits-any f j s.tasks fits v.tasks_valid.1)
        refl,
    row_of-update_where (λ q. q.id) f fits.keeps_id j j s.tasks ∙ rw (eq_refl j, r) refl,
  )

  pub update_task_assignment-row :
      (node_id : String)
      → (s' : Store F) × (update_task_assignment e j node_id s ≡ ok s')
        × (task_row j s' ≡ some (set_assignment node_id t))
  unfolding update_task_assignment
  update_task_assignment-row node_id = rw (o.no_keys) (
      update_task-row (set_assignment node_id)
        (record { keeps_id = λ q. refl; checked = λ q h. (and_true _ _ h).1 }))

  pub update_task_result-row :
      (now : ℕ)
      → (s' : Store F) × (update_task_result e now j (pos 0) "" s ≡ ok s')
        × (task_row j s' ≡ some (set_result now (pos 0) "" t))
  unfolding update_task_result
  update_task_result-row now =
      update_task-row (set_result now (pos 0) "")
        (record { keeps_id = λ q. refl; checked = λ q h. (and_true _ _ h).1 })
