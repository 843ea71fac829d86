-- ===== src/Api/Closed.antt =====
-- The handlers of tasks and agents keep what every call of the store keeps.
pub mod Calls
pub mod Admin
use project_constellation.Prelude.{ℕ, Float, String, Option, none, some, Bool, true, false}
use project_constellation.State.Engine.{Engine, Store, Result, ok, err}
use project_constellation.State.Tasks.{create_task}
use project_constellation.State.Valid.{IsClosed, IsClosedAside}
use project_constellation.State.Model.{Cluster, Task, TaskChunk, User}
use project_constellation.Api.Handler.{Handler}
use project_constellation.Api.Keeps.{
  Keeps, InsertKeeps, Keeps-bind, Keeps-seq, Keeps-query, Keeps-check, Keeps-decoded, Keeps-peek,
  Keeps-write, Keeps-insert, Keeps-attempt, Keeps-emit, Keeps-respond, Keeps-refuse, Keeps-skip,
  Keeps-give, Keeps-if, Keeps-panic, Keeps-collect,
}
use project_constellation.Api.Closed.Calls.{
  handler_rules, update_task_status-CallKeeps, update_task_result-CallKeeps,
  increment_task_retry-CallKeeps, update_chunk_status-CallKeeps, update_node_status-CallKeeps,
  update_node_heartbeat-CallKeeps, register_node-CallKeeps, delete_node-CallKeeps,
  delete_user-CallKeeps, delete_cluster-CallKeeps, update_user_login-CallKeeps,
  add_audit_entry-CallKeeps, update_node_live_metrics-CallKeeps, create_user-CallKeeps,
  create_task-InsertKeeps, create_user-InsertKeeps, create_cluster-InsertKeeps,
}
use project_constellation.Api.Tasks.{
  check_target, submit_steps, SubmitTaskRequest, handle_submit_task, handle_list_tasks,
  handle_get_task, handle_cancel_task, handle_retry_task, handle_task_logs,
}
use project_constellation.Api.Agents.{
  finish_parent, check_parent, report_chunk, report_task, report, hand_out_task,
  hand_out_with_parent, hand_out_chunk, handle_get_pending_tasks, handle_task_result, ReportKind,
  of_chunk, of_task, out_of_range, TaskResultRequest,
}
use project_constellation.Api.Users.{
  refuse_known, or_unauthorized, signed, create_user_steps, login_steps, handle_create_user,
  handle_delete_user, handle_login, CreateUserRequest, LoginRequest,
}
use project_constellation.Api.Auth.{Jwt}
use project_constellation.Api.Nodes.{
  or_not_found, join_steps, keep_metrics, status_steps, handle_node_join, handle_delete_node,
  handle_update_node_status, handle_reserve_node, handle_unreserve_node, grpc_heartbeat,
  NodeJoinRequest, UpdateNodeStatusRequest,
}
use project_constellation.Api.Cluster.{
  refuse_existing, init_steps, delete_nodes, handle_cluster_init, handle_cluster_destroy, Machine,
  Uuids,
}

module _ {F : Type 0} (P : Store F → Type 0) (h : IsClosedAside P) (e : Engine) where
  hand_out_with_parent-Keeps :
      (now : ℕ) (c : TaskChunk) (r : Result Task) → Keeps P (hand_out_with_parent {F = F} e now c r)
  unfolding hand_out_with_parent
  hand_out_with_parent-Keeps now c (err x) = search handler_rules
  hand_out_with_parent-Keeps now c (ok parent) = search handler_rules

  pub hand_out_chunk-Keeps : (now : ℕ) (c : TaskChunk) → Keeps P (hand_out_chunk {F = F} e now c)
  unfolding hand_out_chunk
  hand_out_chunk-Keeps now c = search (handler_rules, hand_out_with_parent-Keeps)

module _ {F : Type 0} (P : Store F → Type 0) (h : IsClosed P) (e : Engine) where
  pub handle_cancel_task-Keeps :
      (now : ℕ) (i : String) → Keeps P (handle_cancel_task {F = F} e now i)
  unfolding handle_cancel_task
  handle_cancel_task-Keeps now i = search handler_rules depth 20

  pub handle_retry_task-Keeps : (now : ℕ) (i : String) → Keeps P (handle_retry_task {F = F} e now i)
  unfolding handle_retry_task
  handle_retry_task-Keeps now i = search handler_rules depth 20

  hand_out_task-Keeps : (now : ℕ) (t : Task) → Keeps P (hand_out_task {F = F} e now t)
  unfolding hand_out_task
  hand_out_task-Keeps now t = search handler_rules

  pub handle_get_pending_tasks-Keeps :
      (now : ℕ) (node_id : String) → Keeps P (handle_get_pending_tasks {F = F} e now node_id)
  unfolding handle_get_pending_tasks
  handle_get_pending_tasks-Keeps now node_id =
      search (handler_rules, hand_out_task-Keeps, hand_out_chunk-Keeps) depth 20

  finish_parent-Keeps :
      (now : ℕ) (i : String) (r : Result Bool) → Keeps P (finish_parent {F = F} e now i r)
  unfolding finish_parent
  finish_parent-Keeps now i (ok true) = search handler_rules
  finish_parent-Keeps now i (ok false) = search handler_rules
  finish_parent-Keeps now i (err x) = search handler_rules

  check_parent-Keeps : (now : ℕ) (o : Option String) → Keeps P (check_parent {F = F} e now o)
  unfolding check_parent
  check_parent-Keeps now none = search handler_rules
  check_parent-Keeps now (some i) = search (handler_rules, finish_parent-Keeps)

  report-Keeps :
      (now : ℕ) (i : String) (req : TaskResultRequest) (kind : ReportKind)
      → Keeps P (report {F = F} e now i req kind)
  unfolding report report_chunk report_task
  report-Keeps now i req of_chunk = search (handler_rules, check_parent-Keeps) depth 20
  report-Keeps now i req of_task = search handler_rules depth 20
  report-Keeps now i req out_of_range = search handler_rules

  pub handle_task_result-Keeps :
      (now : ℕ) (i : String) (body : Option TaskResultRequest)
      → Keeps P (handle_task_result {F = F} e now i body)
  unfolding handle_task_result
  handle_task_result-Keeps now i body = search (handler_rules, report-Keeps)

module _ {F : Type 0} ⦃fl : Float F⦄ (P : Store F → Type 0) (h : IsClosedAside P) (e : Engine)
    (add : (now : ℕ) (uuid : String) (t : Task) → InsertKeeps P (create_task e now uuid t)) where
  check_target-Keeps :
      (now : ℕ) (uuid target : String) → Keeps P (check_target {F = F} e now uuid target)
  unfolding check_target
  check_target-Keeps now uuid target = search handler_rules

  submit_steps-Keeps :
      (now : ℕ) (uuid : String) (scan : String → F × String) (req : SubmitTaskRequest)
      → Keeps P (submit_steps e now uuid scan req)
  unfolding submit_steps
  submit_steps-Keeps now uuid scan req = search (handler_rules, check_target-Keeps, add) depth 20

  pub handle_submit_task-Keeps :
      (now : ℕ) (uuid : String) (scan : String → F × String) (body : Option SubmitTaskRequest)
      → Keeps P (handle_submit_task e now uuid scan body)
  unfolding handle_submit_task
  handle_submit_task-Keeps now uuid scan body = search (handler_rules, submit_steps-Keeps)
