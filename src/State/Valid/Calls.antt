-- ===== src/State/Valid/Calls.antt =====
-- Every call that writes keeps the database well-formed, and so does every sequence of calls.

use project_constellation.Prelude.{
  ◌≡◌, refl, ◌==◌, ◌&&◌, ◌||◌, true, not, List, [], String, any, arith, for_each-keeps, ℕ, ℤ,
}
use project_constellation.Prelude.Rows.{IsUnique-select, IsUnique-update_where, All-update_where}
use project_constellation.State.Model.{NodeLiveMetrics, AuditEntry, TaskChunk}
use project_constellation.State.Engine.{
  Engine, Store, after, user_check, references_node, has_task, has_chunk,
}
use project_constellation.State.Tasks.{
  update_task_status, update_task_assignment, update_task_result, increment_task_retry,
}
use project_constellation.State.Tasks.{datetime, set_status, set_assignment, set_result, set_retry}
use project_constellation.State.Nodes.{set_node_status, set_heartbeat, set_ip}
use project_constellation.State.Chunks.{set_chunk_status, set_chunk_assignment}
use project_constellation.State.Clusters.{user_key}
use project_constellation.State.Tasks.Updates.{set_status-id}
use project_constellation.State.Chunks.{
  update_chunk_status, update_chunk_assignment, set_chunk_status,
}
use project_constellation.State.Nodes.{
  update_node_status, update_node_heartbeat, update_node_ip, update_node_live_metrics,
}
use project_constellation.State.Clusters.{
  delete_cluster, delete_user, update_user_login, add_audit_entry,
}
use project_constellation.State.Valid.{
  create_cluster_of, delete_all_clusters, register, node_status_to, heartbeat_at, ip_to,
  delete_node_of, metrics_to, create_task_of, task_status_to, task_assignment_to, task_result_to,
  task_retry_of, create_chunk_of, chunk_status_to, chunk_assignment_to, create_user_of,
  delete_user_of, login_of, audit, IsValid, Write, perform, run, new_store,
}
use project_constellation.State.Valid.Writes.{
  Keeps, Clusters-now, Users-now, executed, required, done, forget, update_task-Keeps,
  update_node-Keeps, update_chunk-Keeps, create_task-Keeps, create_task_chunk-Keeps,
  create_cluster-Keeps, register_node-Keeps, delete_node-Keeps, create_user-Keeps,
}
use project_constellation.State.Valid.Rows.{Keyed-select}

set_chunk_status-id :
    (now : ℕ) (status : String) (exit_code : ℤ) (c : TaskChunk)
    → (set_chunk_status now status exit_code c).id ≡ c.id
set_chunk_status-id now status exit_code c = ground arith

same_rows :
    {F : Type 0} (s : Store F) (v : IsValid s) {m : List (String × NodeLiveMetrics F)}
    {log : List AuditEntry}
    → IsValid (record s { live_metrics = m; audit_log = log })
same_rows s v = record {
  clusters_valid = v.clusters_valid;
  nodes_valid = v.nodes_valid;
  tasks_valid = v.tasks_valid;
  chunks_valid = v.chunks_valid;
  users_valid = v.users_valid;
}

perform-Keeps :
    {F : Type 0} (e : Engine) (c : Write F) (s : Store F) → IsValid s → Keeps s (perform e c s)
unfolding perform delete_cluster update_node_status update_node_heartbeat update_node_ip
    update_node_live_metrics update_task_status update_task_assignment update_task_result
    increment_task_retry update_chunk_status update_chunk_assignment delete_user update_user_login
    add_audit_entry
perform-Keeps e (create_cluster_of now uuid token name host port grpc_port) s v =
    forget s v (create_cluster-Keeps s v e now uuid token name host port grpc_port)
perform-Keeps e delete_all_clusters s v = executed s v e _ _ (
    required s v
      (not (e.foreign_keys && any (λ c. any (λ n. n.cluster_id == c.id) s.nodes) s.clusters)) _
      (λ free. done s v (Clusters-now s v [] tt)))
perform-Keeps e (register n) s v = register_node-Keeps s v e n
perform-Keeps e (node_status_to i status) s v =
    update_node-Keeps s v e i (set_node_status status) (λ n. refl)
perform-Keeps e (heartbeat_at now i) s v = update_node-Keeps s v e i (set_heartbeat now) (λ n. refl)
perform-Keeps e (ip_to now i ip) s v = update_node-Keeps s v e i (set_ip now ip) (λ n. refl)
perform-Keeps e (delete_node_of i) s v = delete_node-Keeps s v e i
perform-Keeps e (metrics_to now i m) s v = done s v (same_rows s v)
perform-Keeps e (create_task_of now uuid t) s v = forget s v (create_task-Keeps s v e now uuid t)
perform-Keeps e (task_status_to now i status) s v =
    update_task-Keeps s v e i (set_status now status) (set_status-id now status)
perform-Keeps e (task_assignment_to i node_id) s v =
    required s v (references_node e node_id s || not (has_task i s)) _
      (λ refers. update_task-Keeps s v e i (set_assignment node_id) (λ t. refl))
perform-Keeps e (task_result_to now i exit_code message) s v =
    update_task-Keeps s v e i (set_result now exit_code message) (λ t. refl)
perform-Keeps e (task_retry_of i) s v =
    required s v (references_node e "" s || not (has_task i s)) _
      (λ refers. update_task-Keeps s v e i set_retry (λ t. refl))
perform-Keeps e (create_chunk_of c) s v = forget s v (create_task_chunk-Keeps s v e c)
perform-Keeps e (chunk_status_to now i status exit_code) s v =
    update_chunk-Keeps s v e i (set_chunk_status now status exit_code)
      (set_chunk_status-id now status exit_code)
perform-Keeps e (chunk_assignment_to i node_id) s v =
    required s v (references_node e node_id s || not (has_chunk i s)) _
      (λ refers. update_chunk-Keeps s v e i (set_chunk_assignment node_id) (λ c. refl))
perform-Keeps e (create_user_of now uuid u) s v = forget s v (create_user-Keeps s v e now uuid u)
perform-Keeps e (delete_user_of name) s v = executed s v e _ _ (
    done s v (
      Users-now s v _ (
        IsUnique-select (λ u. u.id) (λ u. not (u.username == name)) s.users v.users_valid.0,
        Keyed-select (λ u. u.username) user_check (λ u. not (u.username == name)) s.users
            v.users_valid.1,
      )))
perform-Keeps e (login_of now name) s v = executed s v e _ _ (
    done s v (
      Users-now s v _ (
        IsUnique-update_where (λ u. u.id) (λ u. record u { last_login = datetime now }) (λ u. refl)
            (user_key name) s.users v.users_valid.0,
        (
          IsUnique-update_where (λ u. u.username) (λ u. record u { last_login = datetime now })
              (λ u. refl) (user_key name) s.users v.users_valid.1.0,
          All-update_where (λ u. user_check u ≡ true) (user_key name)
              (λ u. record u { last_login = datetime now }) s.users (λ u h. h) v.users_valid.1.1,
        ),
      )))
perform-Keeps e (audit now user_id action target_type target_id details) s v =
    executed s v e _ _ (done s v (same_rows s v))

-- Every call that writes, refused or not, keeps a well-formed database well-formed: the ids of
-- clusters, nodes, tasks, chunks and users stay unique, user names too, and every node, task and
-- user passes the CHECKs of its table.
pub perform-IsValid :
    {F : Type 0} (e : Engine) (c : Write F) (s : Store F)
    → IsValid s
    → IsValid (after s (perform e c s))
perform-IsValid e c s v = (perform-Keeps e c s v).kept

-- Every state that the calls reach from the tables as `migrate` creates them is well-formed,
-- whatever the calls' arguments, and whichever statements the database refuses on the way.
pub run-IsValid : {F : Type 0} (calls : List (Engine × Write F)) → IsValid (run calls new_store)
unfolding run
run-IsValid calls =
    for_each-keeps IsValid _ calls new_store (λ call s v. perform-IsValid call.0 call.1 s v)
      record {
        clusters_valid = tt;
        nodes_valid = (tt, tt);
        tasks_valid = (tt, tt);
        chunks_valid = tt;
        users_valid = (tt, (tt, tt));
      }
