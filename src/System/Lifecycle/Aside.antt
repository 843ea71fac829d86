-- ===== src/System/Lifecycle/Aside.antt =====
-- The calls that do not write to the table of tasks leave it as it is.
use project_constellation.Prelude.{◌≡◌, false, List, arith}
use project_constellation.State.Model.{Task}
use project_constellation.State.Engine.{Engine, Store, after}
use project_constellation.State.Chunks.{
  create_task_chunk, update_chunk_assignment, update_chunk_status,
}
use project_constellation.State.Nodes.{
  delete_node, register_node, update_node_heartbeat, update_node_ip, update_node_live_metrics,
  update_node_status,
}
use project_constellation.State.Clusters.{
  add_audit_entry, create_cluster, create_user, delete_cluster, delete_user, update_user_login,
}
use project_constellation.State.Valid.{
  Write, perform, is_task_write, IsClosedAside, create_cluster_of, delete_all_clusters, register,
  node_status_to, heartbeat_at, ip_to, delete_node_of, metrics_to, create_task_of, task_status_to,
  task_assignment_to, task_result_to, task_retry_of, create_chunk_of, chunk_status_to,
  chunk_assignment_to, create_user_of, delete_user_of, login_of, audit,
}

-- The tasks are as they were in some state.
abbrev pub SameTasks : {F : Type 0} → List Task → Store F → Type 0
SameTasks ts s = s.tasks ≡ ts

module _ {F : Type 0} (e : Engine) where
  pub perform-SameTasks :
      (c : Write F) (s : Store F) (ts : List Task)
      → is_task_write c ≡ false
      → SameTasks ts s
      → SameTasks ts (after s (perform e c s))
  unfolding perform create_cluster delete_cluster register_node update_node_status
      update_node_heartbeat update_node_ip delete_node update_node_live_metrics create_task_chunk
      update_chunk_status update_chunk_assignment create_user delete_user update_user_login
      add_audit_entry
  perform-SameTasks (create_cluster_of now uuid token name host port grpc_port) s ts a h =
      ground arith
  perform-SameTasks delete_all_clusters s ts a h = ground arith
  perform-SameTasks (register n) s ts a h = ground arith
  perform-SameTasks (node_status_to i status) s ts a h = ground arith
  perform-SameTasks (heartbeat_at now i) s ts a h = ground arith
  perform-SameTasks (ip_to now i ip) s ts a h = ground arith
  perform-SameTasks (delete_node_of i) s ts a h = ground arith
  perform-SameTasks (metrics_to now i m) s ts a h = h
  perform-SameTasks (create_chunk_of c) s ts a h = ground arith
  perform-SameTasks (chunk_status_to now i status exit_code) s ts a h = ground arith
  perform-SameTasks (chunk_assignment_to i node_id) s ts a h = ground arith
  perform-SameTasks (create_user_of now uuid u) s ts a h = ground arith
  perform-SameTasks (delete_user_of name) s ts a h = ground arith
  perform-SameTasks (login_of now name) s ts a h = ground arith
  perform-SameTasks (audit now a1 a2 a3 a4 a5) s ts a h = ground arith
  perform-SameTasks (create_task_of now uuid t) s ts a h = absurd (cc a)
  perform-SameTasks (task_status_to now i status) s ts a h = absurd (cc a)
  perform-SameTasks (task_assignment_to i node_id) s ts a h = absurd (cc a)
  perform-SameTasks (task_result_to now i exit_code message) s ts a h = absurd (cc a)
  perform-SameTasks (task_retry_of i) s ts a h = absurd (cc a)

pub SameTasks-IsClosedAside : {F : Type 0} (ts : List Task) → IsClosedAside {F = F} (SameTasks ts)
SameTasks-IsClosedAside ts = record {
  closed_aside = λ e c s aside h. perform-SameTasks e c s ts aside h;
}
