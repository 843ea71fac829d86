-- ===== src/State/Chunks.antt =====
-- The chunk operations of controller/state/store.go, and GetTask, which loads a task's chunks.
pub mod Completion
pub mod Created
pub mod Read
pub mod Loaded
use project_constellation.Prelude.{
  ℕ, ℤ, negsuc, Bool, ◌&&◌, ◌||◌, not, ◌==◌, String, List, [], ◌∷◌, ◌++◌, none, some, Option,
  concat, eqb, leb, ltb, one_of, length, select, find?, update_where, sort_by, if◌then◌else◌,
}
use project_constellation.Prelude.Text.{show_ℕ}
use project_constellation.State.Model.{Task, TaskChunk}
use project_constellation.State.Engine.{
  Engine, Store, Result, ok, err, Error, ◌>>=◌, Statement, Table, exec, require, has_task,
  has_chunk, references_node,
}

abbrev pub chunk_key : String → TaskChunk → Bool
chunk_key i c = c.id == i

abbrev pub chunk_parent : String → TaskChunk → Bool
chunk_parent i c = c.parent_task_id == i

-- The id that a chunk gets from its strategy's prefix, its task and its index.
abbrev pub chunk_id : String → String → ℕ → String
chunk_id prefix task_id index =
    concat prefix (concat "-" (concat task_id (concat "-" (show_ℕ index))))

-- The defaults that CreateTaskChunk writes into its argument.
unfoldable pub chunk_defaults : TaskChunk → TaskChunk
chunk_defaults c = record c {
  id = if c.id == "" then chunk_id "chunk" c.parent_task_id c.chunk_index else c.id;
  status = if c.status == "" then "queued" else c.status;
}

-- The columns that the INSERT does not name have their defaults.
abbrev pub chunk_row : TaskChunk → TaskChunk
chunk_row c = record c { exit_code = negsuc 0; started_at = 0; completed_at = 0 }

-- The changes that the updates make to a row. The table has no CHECK on a chunk's status.
abbrev pub set_chunk_status : ℕ → String → ℤ → TaskChunk → TaskChunk
set_chunk_status now status exit_code c =
    if status == "running"
    then record c { status = status; started_at = now }
    else if one_of status ("completed" ∷ "failed" ∷ [])
    then record c { status = status; exit_code = exit_code; completed_at = now }
    else record c { status = status }

abbrev pub set_chunk_assignment : String → TaskChunk → TaskChunk
set_chunk_assignment node_id c = record c { assigned_node = node_id; status = "scheduled" }

abbrev pub update_chunk :
    {F : Type 0} → Engine → String → (TaskChunk → TaskChunk) → Store F → Result (Store F)
update_chunk e i f s =
    exec e (Statement.update Table.task_chunks i)
      (ok (record s { task_chunks = update_where (chunk_key i) f s.task_chunks }))

abbrev pub is_finished : TaskChunk → Bool
is_finished c = one_of c.status ("completed" ∷ "failed" ∷ [])

-- What scanTask makes of the row that `SELECT … WHERE id = ?` finds, or of none. That each column goes
-- into the field of its name is taken for granted.
scan_task : Option Task → Result Task
scan_task none = err Error.not_found
scan_task (some t) = ok t

module _ {F : Type 0} (e : Engine) where
  -- CreateTaskChunk: the chunk with its defaults, and the store with its row.
  unfoldable pub create_task_chunk : TaskChunk → Store F → Result (TaskChunk × Store F)
  unfolding chunk_defaults
  create_task_chunk chunk s =
      let c = chunk_defaults chunk in
      exec e (Statement.insert Table.task_chunks c.id) (
        require (not (has_chunk c.id s)) (
          require (not e.foreign_keys || has_task c.parent_task_id s) (
            require (c.assigned_node == "" || references_node e c.assigned_node s)
              (ok (c, record s { task_chunks = s.task_chunks ++ chunk_row c ∷ [] })))))

  unfoldable pub get_task_chunks : String → Store F → Result (List TaskChunk)
  get_task_chunks task_id s = exec e (Statement.select Table.task_chunks task_id) (
      ok (
        sort_by (λ a b. leb a.chunk_index b.chunk_index)
          (select (chunk_parent task_id) s.task_chunks)))

  unfoldable pub get_queued_chunks : Store F → Result (List TaskChunk)
  get_queued_chunks s =
      exec e (Statement.select Table.task_chunks "queued")
        (ok (select (λ c. c.status == "queued") s.task_chunks))

  unfoldable pub get_pending_chunks_for_node : String → Store F → Result (List TaskChunk)
  get_pending_chunks_for_node node_id s =
      exec e (Statement.select Table.task_chunks node_id)
        (ok (select (λ c. c.assigned_node == node_id && c.status == "scheduled") s.task_chunks))

  -- Two counts: all chunks of the task, and those that are completed or failed.
  unfoldable pub are_all_chunks_completed : String → Store F → Result Bool
  are_all_chunks_completed task_id s =
      let total = length (select (chunk_parent task_id) s.task_chunks) in
      let completed =
        length (select (λ c. chunk_parent task_id c && is_finished c) s.task_chunks) in
      exec e (Statement.count Table.task_chunks task_id) (
        exec e (Statement.count Table.task_chunks "finished")
          (ok (ltb 0 total && eqb total completed)))

  unfoldable pub update_chunk_status : ℕ → String → String → ℤ → Store F → Result (Store F)
  update_chunk_status now i status exit_code s =
      update_chunk e i (set_chunk_status now status exit_code) s

  unfoldable pub update_chunk_assignment : String → String → Store F → Result (Store F)
  update_chunk_assignment i node_id s =
      require (references_node e node_id s || not (has_chunk i s))
        (update_chunk e i (set_chunk_assignment node_id) s)

  with_chunks : Task → Store F → Result Task
  unfolding get_task_chunks
  with_chunks t s =
      if t.type == "split"
      then (do cs ← get_task_chunks t.id s; ok (record t { chunks = cs }))
      else ok t

  unfoldable pub get_task : String → Store F → Result Task
  unfolding scan_task with_chunks
  get_task i s =
      exec e (Statement.select Table.tasks i)
        do t ← scan_task (find? (λ t. t.id == i) s.tasks); with_chunks t s
