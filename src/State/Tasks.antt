-- ===== src/State/Tasks.antt =====
-- The task operations of controller/state/store.go.
-- `now` is the time of the call, `uuid` the text of a fresh UUID.
pub mod Updates
pub mod Open
pub mod Queue
use Prim.Native.String.{slice}
use project_constellation.Prelude.{
  ℕ, ◌*◌, ◌/◌, ◌^◌, ℤ, pos, negsuc, ◌+ℤ◌, eqb_ℤ, Bool, true, not, ◌&&◌, ◌||◌, ◌==◌, String, List,
  [], ◌∷◌, ◌++◌, concat, eqb, leb, ltb, one_of, length, take, drop, select, update_where, any,
  sort_by, if◌then◌else◌,
}
use project_constellation.State.Model.{Task}
use project_constellation.State.Engine.{
  Engine, Store, Result, ok, Statement, Table, exec, require, task_check, has_task, references_node,
}

-- SQLite's datetime('now') keeps whole seconds.
abbrev pub datetime : ℕ → ℕ
datetime now = now / 10 ^ 9 * 10 ^ 9

abbrev pub or_default : String → String → String
or_default d s = if s == "" then d else s

-- The defaults that CreateTask writes into its argument.
unfoldable pub task_defaults : ℕ → String → Task → Task
task_defaults now uuid t = record t {
  id = if t.id == "" then concat "task-" (slice uuid 0 8) else t.id;
  created_at = if eqb t.created_at 0 then now else t.created_at;
  status = or_default "submitted" t.status;
  priority = or_default "normal" t.priority;
  runtime = or_default "bare" t.runtime;
  type = or_default "simple" t.type;
  world_size = if eqb_ℤ t.world_size (pos 0) then pos 1 else t.world_size;
}

abbrev pub task_key : String → Task → Bool
task_key i t = t.id == i

-- `UPDATE tasks SET … WHERE id = ?`: refused where a changed row breaks a CHECK.
abbrev pub update_task : {F : Type 0} → Engine → String → (Task → Task) → Store F → Result (Store F)
update_task e i f s = exec e (Statement.update Table.tasks i) (
    require (not (any (λ t. task_key i t && not (task_check (f t))) s.tasks))
      (ok (record s { tasks = update_where (task_key i) f s.tasks })))

-- The changes that the updates make to a row.
abbrev pub set_status : ℕ → String → Task → Task
set_status now status t =
    if status == "running"
    then record t { status = status; started_at = now }
    else if one_of status ("completed" ∷ "failed" ∷ "cancelled" ∷ [])
    then record t { status = status; completed_at = now }
    else record t { status = status }

abbrev pub set_assignment : String → Task → Task
set_assignment node_id t = record t { assigned_node = node_id; status = "scheduled" }

abbrev pub result_status : ℤ → String
result_status exit_code = if eqb_ℤ exit_code (pos 0) then "completed" else "failed"

abbrev pub set_result : ℕ → ℤ → String → Task → Task
set_result now exit_code message t = record t {
  status = result_status exit_code;
  exit_code = exit_code;
  error_message = message;
  completed_at = datetime now;
}

abbrev pub set_retry : Task → Task
set_retry t = record t {
  retry_count = t.retry_count +ℤ pos 1;
  status = "queued";
  assigned_node = "";
}

-- The CASE of the ORDER BY of GetQueuedTasks, one higher, to have 0 for the NULL of the missing
-- ELSE, which SQLite puts first.
unfoldable pub rank : String → ℕ
rank p =
    if p == "critical"
    then 1
    else if p == "high"
    then 2
    else if p == "normal"
    then 3
    else if p == "low"
    then 4
    else 0

abbrev pub queue_order : Task → Task → Bool
queue_order a b =
    ltb (rank a.priority) (rank b.priority)
    || (eqb (rank a.priority) (rank b.priority) && leb a.created_at b.created_at)

abbrev pub is_queued : Task → Bool
is_queued t = one_of t.status ("submitted" ∷ "queued" ∷ [])

-- `s = ''` in a filter means no filter.
abbrev pub matches : String → String → Bool
matches filter value = if filter == "" then true else value == filter

-- `LIMIT n OFFSET m`, written only for a positive limit; a negative offset counts as 0.
abbrev pub page {ℓ} : {A : Type ℓ} → ℤ → ℤ → List A → List A
page (pos n) (pos m) xs = if ltb 0 n then take n (drop m xs) else xs
page (pos n) (negsuc _) xs = if ltb 0 n then take n xs else xs
page (negsuc _) _ xs = xs

module _ {F : Type 0} (e : Engine) where
  -- CreateTask: the task with its defaults, and the store with its row.
  unfoldable pub create_task : ℕ → String → Task → Store F → Result (Task × Store F)
  unfolding task_defaults
  create_task now uuid task s =
      let t = task_defaults now uuid task in
      exec e (Statement.insert Table.tasks t.id) (
        require (task_check t) (
          require (not (has_task t.id s)) (
            require (t.assigned_node == "" || references_node e t.assigned_node s) (
              ok (
                t,
                record s {
                  tasks =
                      s.tasks ++ record t { started_at = 0; completed_at = 0; chunks = [] } ∷ [];
                },
              )))))

  unfoldable pub update_task_status : ℕ → String → String → Store F → Result (Store F)
  update_task_status now i status s = update_task e i (set_status now status) s

  unfoldable pub update_task_assignment : String → String → Store F → Result (Store F)
  update_task_assignment i node_id s =
      require (references_node e node_id s || not (has_task i s))
        (update_task e i (set_assignment node_id) s)

  unfoldable pub update_task_result : ℕ → String → ℤ → String → Store F → Result (Store F)
  update_task_result now i exit_code message s =
      update_task e i (set_result now exit_code message) s

  -- The statement writes the empty text, not NULL, into a column that references `nodes`.
  unfoldable pub increment_task_retry : String → Store F → Result (Store F)
  increment_task_retry i s =
      require (references_node e "" s || not (has_task i s)) (update_task e i set_retry s)

  unfoldable pub list_tasks : String → String → ℤ → ℤ → Store F → Result (List Task × ℕ)
  list_tasks status priority limit offset s =
      let found = select (λ t. matches status t.status && matches priority t.priority) s.tasks in
      exec e (Statement.count Table.tasks status) (
        exec e (Statement.select Table.tasks status) (
          ok (
            page limit offset (sort_by (λ a b. leb b.created_at a.created_at) found),
            length found,
          )))

  unfoldable pub get_queued_tasks : Store F → Result (List Task)
  get_queued_tasks s =
      exec e (Statement.select Table.tasks "queued")
        (ok (sort_by queue_order (select is_queued s.tasks)))

  unfoldable pub get_pending_tasks_for_node : String → Store F → Result (List Task)
  get_pending_tasks_for_node node_id s =
      exec e (Statement.select Table.tasks node_id)
        (ok (select (λ t. t.assigned_node == node_id && t.status == "scheduled") s.tasks))
