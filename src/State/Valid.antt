-- ===== src/State/Valid.antt =====
-- The well-formed states of the database of controller/state/store.go, and the calls that write.
pub mod Rows
pub mod Writes
pub mod Calls
use project_constellation.Prelude.{
  Bool, false, ℕ, ℤ, ◌≡◌, true, false, List, [], String, All, for_each,
}
use project_constellation.Prelude.Rows.{IsUnique}
use project_constellation.State.Model.{Cluster, NodeRow, NodeLiveMetrics, Task, TaskChunk, User}
use project_constellation.State.Engine.{
  Engine, Store, Result, ok, after, new_state, node_check, task_check, user_check,
}
use project_constellation.State.Tasks.{
  create_task, update_task_status, update_task_assignment, update_task_result, increment_task_retry,
}
use project_constellation.State.Chunks.{
  create_task_chunk, update_chunk_status, update_chunk_assignment,
}
use project_constellation.State.Nodes.{
  register_node, update_node_status, update_node_heartbeat, update_node_ip, delete_node,
  update_node_live_metrics,
}
use project_constellation.State.Clusters.{
  create_cluster, delete_cluster, create_user, delete_user, update_user_login, add_audit_entry,
}

-- What the schema of `migrate` demands of the rows of each table but the audit log: the keys, and the
-- CHECKs.
abbrev pub Clusters : List Cluster → Type 0
Clusters cs = IsUnique (λ c. c.id) cs

abbrev pub Nodes : {F : Type 0} → List (NodeRow F) → Type 0
Nodes ns = IsUnique (λ n. n.id) ns × All (λ n. node_check n ≡ true) ns

abbrev pub Tasks : List Task → Type 0
Tasks ts = IsUnique (λ t. t.id) ts × All (λ t. task_check t ≡ true) ts

abbrev pub Chunks : List TaskChunk → Type 0
Chunks cs = IsUnique (λ c. c.id) cs

abbrev pub Users : List User → Type 0
Users us =
    IsUnique (λ u. u.id) us × (IsUnique (λ u. u.username) us × All (λ u. user_check u ≡ true) us)

pub record IsValid {F : Type 0} (s : Store F) : Type 0 where
  pub clusters_valid : Clusters s.clusters
  pub nodes_valid : Nodes s.nodes
  pub tasks_valid : Tasks s.tasks
  pub chunks_valid : Chunks s.task_chunks
  pub users_valid : Users s.users

-- A call that writes, with its arguments.
pub data Write (F : Type 0) : Type 0 where
  create_cluster_of : ℕ → String → String → String → String → ℕ → ℕ → Write F
  delete_all_clusters : Write F
  register : NodeRow F → Write F
  node_status_to : String → String → Write F
  heartbeat_at : ℕ → String → Write F
  ip_to : ℕ → String → String → Write F
  delete_node_of : String → Write F
  metrics_to : ℕ → String → NodeLiveMetrics F → Write F
  create_task_of : ℕ → String → Task → Write F
  task_status_to : ℕ → String → String → Write F
  task_assignment_to : String → String → Write F
  task_result_to : ℕ → String → ℤ → String → Write F
  task_retry_of : String → Write F
  create_chunk_of : TaskChunk → Write F
  chunk_status_to : ℕ → String → String → ℤ → Write F
  chunk_assignment_to : String → String → Write F
  create_user_of : ℕ → String → User → Write F
  delete_user_of : String → Write F
  login_of : ℕ → String → Write F
  audit : ℕ → String → String → String → String → String → Write F

unfoldable pub perform : {F : Type 0} → Engine → Write F → Store F → Result (Store F)
perform e (create_cluster_of now uuid token name host port grpc_port) s =
    new_state (create_cluster e now uuid token name host port grpc_port s)
perform e delete_all_clusters s = delete_cluster e s
perform e (register n) s = register_node e n s
perform e (node_status_to i status) s = update_node_status e i status s
perform e (heartbeat_at now i) s = update_node_heartbeat e now i s
perform e (ip_to now i ip) s = update_node_ip e now i ip s
perform e (delete_node_of i) s = delete_node e i s
perform e (metrics_to now i m) s = ok (update_node_live_metrics now i m s)
perform e (create_task_of now uuid t) s = new_state (create_task e now uuid t s)
perform e (task_status_to now i status) s = update_task_status e now i status s
perform e (task_assignment_to i node_id) s = update_task_assignment e i node_id s
perform e (task_result_to now i exit_code message) s =
    update_task_result e now i exit_code message s
perform e (task_retry_of i) s = increment_task_retry e i s
perform e (create_chunk_of c) s = new_state (create_task_chunk e c s)
perform e (chunk_status_to now i status exit_code) s =
    update_chunk_status e now i status exit_code s
perform e (chunk_assignment_to i node_id) s = update_chunk_assignment e i node_id s
perform e (create_user_of now uuid u) s = new_state (create_user e now uuid u s)
perform e (delete_user_of name) s = delete_user e name s
perform e (login_of now name) s = update_user_login e now name s
perform e (audit now user_id action target_type target_id details) s =
    add_audit_entry e now user_id action target_type target_id details s

-- The tables as `migrate` creates them.
abbrev pub new_store : {F : Type 0} → Store F
new_store = record {
  clusters = [];
  nodes = [];
  tasks = [];
  task_chunks = [];
  users = [];
  audit_log = [];
  live_metrics = [];
}

-- A store after a sequence of calls, each under what the database refuses just then.
unfoldable pub run : {F : Type 0} → List (Engine × Write F) → Store F → Store F
run = for_each (λ call s. after s (perform call.0 call.1 s))

-- The calls that write to the table of tasks.
abbrev pub is_task_write : {F : Type 0} → Write F → Bool
is_task_write (create_task_of _ _ _) = true
is_task_write (task_status_to _ _ _) = true
is_task_write (task_assignment_to _ _) = true
is_task_write (task_result_to _ _ _ _) = true
is_task_write (task_retry_of _) = true
is_task_write _ = false

-- What every call keeps, made or refused.
pub record IsClosed {F : Type 0} (P : Store F → Type 0) : Type 0 where
  pub closed : (e : Engine) (c : Write F) (s : Store F) → P s → P (after s (perform e c s))

-- What every call keeps that does not write to the table of tasks.
pub record IsClosedAside {F : Type 0} (P : Store F → Type 0) : Type 0 where
  pub closed_aside :
      (e : Engine) (c : Write F) (s : Store F)
      → is_task_write c ≡ false
      → P s
      → P (after s (perform e c s))

pub IsClosed-IsClosedAside : {F : Type 0} {P : Store F → Type 0} → IsClosed P → IsClosedAside P
IsClosed-IsClosedAside h = record { closed_aside = λ e c s aside p. h.closed e c s p }
