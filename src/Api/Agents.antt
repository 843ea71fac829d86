-- ===== src/Api/Agents.antt =====
-- The handlers of controller/api/tasks.go that an agent calls: it takes the tasks and chunks that
-- are scheduled on its node, and reports their results. The log lines of a report go to a file
-- that the scheduler never reads.
pub mod Ids
use Prim.Native.Char.{Char, code}
use Prim.Native.String.{slice, len}
use project_constellation.Prelude.{
  ℕ, ℤ, pos, eqb_ℤ, Bool, true, false, ◌&&◌, ◌||◌, ◌==◌, String, List, [], ◌∷◌, ◌++◌, Option, none,
  some, concat, eqb, ltb, if◌then◌else◌,
}
use project_constellation.Prelude.Text.{split_on}
use project_constellation.State.Model.{Task, TaskChunk}
use project_constellation.State.Engine.{Engine, Result, ok, err}
use project_constellation.State.Tasks.{
  get_pending_tasks_for_node, update_task_result, update_task_status,
}
use project_constellation.State.Chunks.{
  are_all_chunks_completed, get_pending_chunks_for_node, get_task, update_chunk_status,
}
use project_constellation.Scheduler.Events.{text}
use project_constellation.Api.Handler.{
  Handler, give, ◌>>=◌, ◌>>◌, respond, decoded, peek, query, write, attempt, emit, skip, collect,
  panic, internal_error, status_ok,
}

pub record ExecutableTask : Type 0 where
  pub id : String
  pub command : String
  pub working_dir : String
  pub timeout_seconds : ℤ
  pub env_vars : List (String × String)
  pub input_file : String
  pub output_file : String

abbrev pub task_executable : Task → ExecutableTask
task_executable t = record {
  id = t.id;
  command = t.command;
  working_dir = t.working_dir;
  timeout_seconds = t.timeout_seconds;
  env_vars = t.env_vars;
  input_file = t.input_file;
  output_file = "";
}

-- A chunk runs its parent's command on its own files.
abbrev pub chunk_executable : TaskChunk → Task → ExecutableTask
chunk_executable c parent = record {
  id = c.id;
  command = parent.command;
  working_dir = parent.working_dir;
  timeout_seconds = parent.timeout_seconds;
  env_vars = parent.env_vars;
  input_file = c.input_file;
  output_file = c.output_file;
}

module _ {F : Type 0} (e : Engine) (now : ℕ) where
  -- The bodies of the two loops of HandleGetPendingTasks.
  unfoldable pub hand_out_task : Task → Handler F (List ExecutableTask) (List ExecutableTask)
  hand_out_task t = do
    attempt (update_task_status e now t.id "running")
    give (task_executable t ∷ [])

  unfoldable pub hand_out_with_parent :
      TaskChunk → Result Task → Handler F (List ExecutableTask) (List ExecutableTask)
  hand_out_with_parent c (err x) = give []
  hand_out_with_parent c (ok parent) = do
    attempt (update_chunk_status e now c.id "running" (pos 0))
    give (chunk_executable c parent ∷ [])

  unfoldable pub hand_out_chunk : TaskChunk → Handler F (List ExecutableTask) (List ExecutableTask)
  unfolding hand_out_with_parent
  hand_out_chunk c = peek (get_task e c.parent_task_id) >>= hand_out_with_parent c

  -- HandleGetPendingTasks.
  unfoldable pub handle_get_pending_tasks :
      String → Handler F (List ExecutableTask) (List ExecutableTask)
  unfolding hand_out_task hand_out_chunk
  handle_get_pending_tasks node_id = do
    tasks ← query (get_pending_tasks_for_node e node_id) internal_error
    chunks ← query (get_pending_chunks_for_node e node_id) internal_error
    handed_tasks ← collect hand_out_task tasks
    handed_chunks ← collect hand_out_chunk chunks
    respond status_ok (handed_tasks ++ handed_chunks)

-- The id of the parent task in the parts of a chunk's id.
unfoldable pub parent_of : List String → Option String
parent_of (prefix ∷ word ∷ hex ∷ index ∷ rest) =
    if word == "task" then some (concat word (concat "-" hex)) else none
parent_of _ = none

-- What the id in a report is taken for. An id that is shorter than the prefixes that the test
-- slices off, and is no chunk's, is out of range.
pub data ReportKind : Type 0 where
  of_chunk of_task out_of_range : ReportKind

unfoldable pub report_kind : String → ReportKind
report_kind i =
    if ltb 6 (len i) && slice i 0 6 == "chunk-"
    then of_chunk
    else if ltb (len i) 7
    then out_of_range
    else if slice i 0 7 == "replica" || (slice i 0 4 == "map-" || slice i 0 5 == "pipe-")
    then of_chunk
    else of_task

pub record TaskResultRequest : Type 0 where
  pub exit_code : ℤ
  pub logs : List String
  pub status : String

module _ {F : Type 0} (e : Engine) (now : ℕ) where
  -- When all chunks of the parent are completed or failed, the parent is completed.
  unfoldable pub finish_parent : String → Result Bool → Handler F (Unit {0}) (Unit {0})
  finish_parent parent (ok true) = do
    attempt (update_task_result e now parent (pos 0) "")
    emit "task_completed" (("task_id", text parent) ∷ ("status", text "completed") ∷ [])
  finish_parent parent (ok false) = skip
  finish_parent parent (err x) = skip

  unfoldable pub check_parent : Option String → Handler F (Unit {0}) (Unit {0})
  unfolding finish_parent
  check_parent none = skip
  check_parent (some parent) = peek (are_all_chunks_completed e parent) >>= finish_parent parent

  unfoldable pub report_chunk : String → TaskResultRequest → Handler F (Unit {0}) (Unit {0})
  unfolding check_parent parent_of
  report_chunk i req = do
    write (update_chunk_status e now i req.status req.exit_code) internal_error
    emit "chunk_completed" (("chunk_id", text i) ∷ ("status", text req.status) ∷ [])
    check_parent (parent_of (split_on b'-' i))
    respond status_ok tt

  unfoldable pub report_task : String → TaskResultRequest → Handler F (Unit {0}) (Unit {0})
  report_task i req = do
    write
        (update_task_result e now i req.exit_code
          (if eqb_ℤ req.exit_code (pos 0) then "" else "Task failed with exit code"))
        internal_error
    emit "task_completed" (("task_id", text i) ∷ ("status", text req.status) ∷ [])
    respond status_ok tt

  unfoldable pub report : String → TaskResultRequest → ReportKind → Handler F (Unit {0}) (Unit {0})
  unfolding report_chunk report_task
  report i req of_chunk = report_chunk i req
  report i req of_task = report_task i req
  report i req out_of_range = panic

  -- HandleTaskResult.
  unfoldable pub handle_task_result :
      String → Option TaskResultRequest → Handler F (Unit {0}) (Unit {0})
  unfolding report report_kind
  handle_task_result i body = do req ← decoded body; report i req (report_kind i)
