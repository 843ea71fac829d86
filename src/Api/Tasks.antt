-- ===== src/Api/Tasks.antt =====
-- The task handlers of controller/api/tasks.go that a user calls.
-- `scan` is what fmt.Sscanf reads of a size with "%f%s", after TrimSpace and ToUpper.
use Prim.Native.String.{slice, len}
use project_constellation.Prelude.{
  ℕ, ℤ, pos, negsuc, ltb_ℤ, Bool, false, not, ◌&&◌, ◌||◌, ◌==◌, String, List, [], ◌∷◌, Option,
  concat, ltb, one_of, if◌then◌else◌, Float,
}
use project_constellation.State.Model.{Task}
use project_constellation.State.Engine.{Engine, priorities}
use project_constellation.State.Tasks.{
  or_default, create_task, list_tasks, update_task_status, increment_task_retry,
}
use project_constellation.State.Chunks.{get_task}
use project_constellation.State.Nodes.{get_node}
use project_constellation.State.Clusters.{add_audit_entry}
use project_constellation.Scheduler.Events.{text, task_value}
use project_constellation.Api.Handler.{
  Handler, ◌>>=◌, ◌>>◌, respond, check, decoded, query, write, insert, attempt, emit, skip,
  bad_request, not_found, internal_error, status_ok, created,
}
use project_constellation.Api.Numbers.{atoi}

pub record SubmitTaskRequest : Type 0 where
  pub name : String
  pub command : String
  pub cpu_required : ℤ
  pub memory_required : String
  pub priority : String
  pub retry_max : ℤ
  pub timeout_seconds : ℤ
  pub env_vars : List (String × String)
  pub working_dir : String
  pub runtime : String
  pub docker_image : String
  pub target_node : String
  pub split_strategy : String
  pub input_file : String
  pub split_by : String
  pub chunk_size : ℤ
  pub reduce_command : String
  pub max_nodes : ℤ

-- The fields that the handler may set before it goes on: the name is cut at 50 bytes.
unfoldable pub request_defaults : SubmitTaskRequest → SubmitTaskRequest
request_defaults req = record req {
  name =
      if req.name == ""
      then (if ltb 50 (len req.command) then slice req.command 0 50 else req.command)
      else req.name;
  priority = or_default "normal" req.priority;
  runtime = or_default "bare" req.runtime;
  cpu_required = if ltb_ℤ (pos 0) req.cpu_required then req.cpu_required else pos 1;
}

abbrev pub strategies : List String
strategies = "chunk" ∷ "map-reduce" ∷ "pipeline" ∷ "replicated" ∷ []

-- The requests, with their defaults, that pass the tests which read nothing.
unfoldable pub is_acceptable : SubmitTaskRequest → Bool
is_acceptable req =
    not (req.command == "")
    && (one_of req.priority priorities
        && (one_of req.runtime ("bare" ∷ "docker" ∷ [])
            && (not (req.runtime == "docker" && req.docker_image == "")
                && (req.split_strategy == "" || one_of req.split_strategy strategies))))

pub record SubmitReply : Type 0 where
  pub task_id : String
  pub name : String
  pub status : String

module _ {F : Type 0} ⦃fl : Float F⦄ (scan : String → F × String) where
  -- The value of a size in bytes.
  unfoldable pub parse_memory_size : String → ℤ
  parse_memory_size s =
      let (value, unit) = scan s in
      let kilo = λ (v : F). fl.mul v (fl.of_int (pos 1024)) in
      if unit == "TB"
      then fl.to_int (kilo (kilo (kilo (kilo value))))
      else if unit == "GB"
      then fl.to_int (kilo (kilo (kilo value)))
      else if unit == "MB"
      then fl.to_int (kilo (kilo value))
      else if unit == "KB"
      then fl.to_int (kilo value)
      else fl.to_int value

  -- The task that a request with its defaults asks for.
  unfoldable pub requested_task : SubmitTaskRequest → Task
  requested_task req = record {
    id = "";
    name = req.name;
    status = "queued";
    type = if req.split_strategy == "" then "simple" else "split";
    split_strategy = req.split_strategy;
    command = req.command;
    runtime = req.runtime;
    docker_image = req.docker_image;
    cpu_required = req.cpu_required;
    memory_required =
        if req.memory_required == "" then pos 0 else parse_memory_size req.memory_required;
    gpu_required = pos 0;
    gpu_memory_required = pos 0;
    priority = req.priority;
    retry_max = req.retry_max;
    retry_count = pos 0;
    timeout_seconds = req.timeout_seconds;
    submitted_by = "";
    assigned_node = "";
    target_node = req.target_node;
    exit_code = negsuc 0;
    error_message = "";
    created_at = 0;
    started_at = 0;
    completed_at = 0;
    env_vars = req.env_vars;
    working_dir = req.working_dir;
    input_file = req.input_file;
    output_dir = "";
    reduce_command = req.reduce_command;
    max_nodes = req.max_nodes;
    chunk_size = req.chunk_size;
    split_by = req.split_by;
    chunks = [];
    is_distributed = false;
    world_size = pos 0;
    gang_id = "";
  }

module _ {F : Type 0} ⦃fl : Float F⦄ (e : Engine) (now : ℕ) (uuid : String) where
  -- The target node, if there is one, must be online.
  unfoldable pub check_target : String → Handler F SubmitReply (Unit {0})
  check_target target =
      if target == ""
      then skip
      else (query (get_node e target) bad_request >>= λ node.
          check (node.status == "online") bad_request)

  unfoldable pub submit_steps :
      (String → F × String) → SubmitTaskRequest → Handler F SubmitReply SubmitReply
  unfolding check_target request_defaults requested_task
  submit_steps scan asked = do
    check (not (asked.command == "")) bad_request
    let req = request_defaults asked
    check (one_of req.priority priorities) bad_request
    check (one_of req.runtime ("bare" ∷ "docker" ∷ [])) bad_request
    check (not (req.runtime == "docker" && req.docker_image == "")) bad_request
    check (req.split_strategy == "" || one_of req.split_strategy strategies) bad_request
    check_target req.target_node
    task ← insert (create_task e now uuid (requested_task scan req)) internal_error
    attempt (
        add_audit_entry e now "" "task_submit" "task" task.id
          (concat "Task '" (concat task.name "' submitted")))
    emit "task_submitted" (("task", task_value task) ∷ [])
    respond created (record { task_id = task.id; name = task.name; status = task.status })

  -- HandleSubmitTask.
  unfoldable pub handle_submit_task :
      (String → F × String) → Option SubmitTaskRequest → Handler F SubmitReply SubmitReply
  unfolding submit_steps
  handle_submit_task scan body = do asked ← decoded body; submit_steps scan asked

module _ {F : Type 0} (e : Engine) (now : ℕ) where
  -- HandleListTasks, from the four texts of the query: a missing one is empty.
  unfoldable pub handle_list_tasks :
      String → String → String → String → Handler F (List Task × ℕ) (List Task × ℕ)
  handle_list_tasks status priority limit offset = do
    found ← query (list_tasks e status priority (atoi limit) (atoi offset)) internal_error
    respond status_ok found

  -- HandleGetTask.
  unfoldable pub handle_get_task : String → Handler F Task Task
  handle_get_task i = do task ← query (get_task e i) not_found; respond status_ok task

  -- HandleCancelTask.
  unfoldable pub handle_cancel_task : String → Handler F (Unit {0}) (Unit {0})
  handle_cancel_task i = do
    task ← query (get_task e i) not_found
    check (not (one_of task.status ("completed" ∷ "failed" ∷ "cancelled" ∷ []))) bad_request
    write (update_task_status e now i "cancelled") internal_error
    attempt (
        add_audit_entry e now "" "task_cancel" "task" i
          (concat "Task '" (concat task.name "' cancelled")))
    emit "task_cancelled" (("task_id", text i) ∷ [])
    respond status_ok tt

  -- HandleRetryTask.
  unfoldable pub handle_retry_task : String → Handler F String String
  handle_retry_task i = do
    task ← query (get_task e i) not_found
    check (one_of task.status ("failed" ∷ "cancelled" ∷ [])) bad_request
    write (increment_task_retry e i) internal_error
    attempt (
        add_audit_entry e now "" "task_retry" "task" i
          (concat "Task '" (concat task.name "' retried")))
    emit "task_retried" (("task_id", text i) ∷ [])
    respond status_ok i

  -- HandleTaskLogs: the one line that it always answers.
  unfoldable pub handle_task_logs : String → Handler F (String × List String) (String × List String)
  handle_task_logs i = do
    task ← query (get_task e i) not_found
    respond status_ok (i, "[Log streaming available when agent is connected]" ∷ [])
