-- ===== src/State/Chunks/Created.antt =====
-- What CreateTask of controller/state/store.go has passed and stored when it succeeds.
use project_constellation.Prelude.{ℕ, ◌≡◌, ap, false, not, ◌||◌, ◌==◌, String, [], ◌∷◌, ◌++◌, arith}
use project_constellation.State.Model.{Task}
use project_constellation.State.Engine.{
  Engine, Store, ok, Statement, Table, task_check, has_task, references_node,
}
use project_constellation.State.Engine.Rules.{exec-made, require-made, ok_inj}
use project_constellation.State.Tasks.{create_task, task_defaults}

-- The row that CreateTask inserts: columns that its INSERT does not name are empty.
abbrev pub created_row : Task → Task
created_row t = record t { started_at = 0; completed_at = 0; chunks = [] }

module _ {F : Type 0} (e : Engine) (now : ℕ) (uuid : String) (task : Task) (s : Store F) where
  abbrev pub made : Store F
  made = record s { tasks = s.tasks ++ created_row (task_defaults now uuid task) ∷ [] }

  -- What a call of CreateTask that succeeds has passed and gives.
  pub create_task-made :
      (t : Task) (s' : Store F)
      → create_task e now uuid task s ≡ ok (t, s')
      → (has_task (task_defaults now uuid task).id s ≡ false)
        × ((task_defaults now uuid task ≡ t) × (made ≡ s'))
  unfolding create_task
  create_task-made t s' h =
      let d = task_defaults now uuid task in
      let inserted = exec-made e (Statement.insert Table.tasks d.id) _ _ h in
      let checked = require-made (task_check d) _ _ inserted in
      let fresh = require-made (not (has_task d.id s)) _ _ checked.1 in
      let refers =
        require-made (d.assigned_node == "" || references_node e d.assigned_node s) _ _ fresh.1 in
      let same = ok_inj _ _ refers.1 in
      (ground (arith, fresh.0), (ap (λ p. p.0) same, ap (λ p. p.1) same))
