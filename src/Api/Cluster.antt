-- ===== src/Api/Cluster.antt =====
-- The cluster handlers of controller/api/cluster.go, and controller/api/analytics.go.
-- A `Machine` is what the handlers learn of the machine that they run on.
use project_constellation.Prelude.{
  ℕ, ◌+◌, ℤ, pos, true, not, ◌==◌, String, List, [], ◌∷◌, Option, none, some, concat, eqb, ltb,
  length, for_each, select, if◌then◌else◌, Float,
}
use project_constellation.State.Model.{Cluster, Node, NodeRow, Task, User}
use project_constellation.State.Engine.{Engine, Store, Result, ok, err, after, new_state}
use project_constellation.State.Tasks.{list_tasks}
use project_constellation.State.Clusters.{
  add_audit_entry, create_cluster, create_user, delete_cluster, get_cluster,
}
use project_constellation.State.Nodes.{delete_node, list_nodes, register_node}
use project_constellation.State.Pool.{ComputationPool, get_computation_pool}
use project_constellation.Scheduler.Events.{cluster_value}
use project_constellation.Api.Handler.{
  Handler, ◌>>=◌, ◌>>◌, refuse, respond, check, decoded, peek, query, write, insert, attempt, emit,
  bad_request, conflict, internal_error, status_ok, created,
}
use project_constellation.Api.Nodes.{or_not_found, known_cluster}

pub record Machine : Type 0 where
  pub ip : String
  pub hostname : String
  pub architecture : String
  pub cores : ℤ

pub record InitReply (F : Type 0) : Type 0 where
  pub cluster : Cluster
  pub controller : NodeRow F

pub record ClusterReply (F : Type 0) : Type 0 where
  pub cluster : Cluster
  pub health : String
  pub nodes : List (Node F)
  pub pool : ComputationPool
  pub task_stats : List (String × ℕ)
  pub total_tasks : ℕ

abbrev admin_user : String → User
admin_user hash = record {
  id = "";
  username = "admin";
  password_hash = hash;
  role = "admin";
  created_at = 0;
  last_login = 0;
}

-- `stats[status]++`, in a Go map.
abbrev pub count_status : String → List (String × ℕ) → List (String × ℕ)
count_status status [] = (status, 1) ∷ []
count_status status ((k, n) ∷ m) =
    if k == status then (k, n + 1) ∷ m else (k, n) ∷ count_status status m

abbrev pub no_tasks : List (String × ℕ)
no_tasks = ("running", 0) ∷ ("queued", 0) ∷ ("completed", 0) ∷ ("failed", 0) ∷ []

unfoldable pub task_stats : List Task → List (String × ℕ)
task_stats tasks = for_each (λ t m. count_status t.status m) tasks no_tasks

unfoldable pub health : {F : Type 0} → List (Node F) → String
health nodes =
    let online = length (select (λ n. n.status == "online") nodes) in
    if eqb online 0 then "critical" else if ltb online (length nodes) then "degraded" else "healthy"

module _ {F : Type 0} ⦃fl : Float F⦄ where
  -- The controller's own node. The ports are those that the handler writes.
  unfoldable pub controller_node : Machine → Cluster → NodeRow F
  controller_node m cluster = record {
    id = concat "ctrl-" cluster.id;
    hostname = m.hostname;
    ip_address = m.ip;
    mac_address = "";
    agent_port = 9091;
    role = "controller";
    status = "online";
    ssh_user = "";
    ssh_port = 0;
    cpu_model = m.architecture;
    cpu_cores = m.cores;
    cpu_threads = m.cores;
    cpu_freq_mhz = fl.of_int (pos 0);
    memory_total = pos 0;
    disk_total = pos 0;
    gpu_count = pos 0;
    gpu_memory = pos 0;
    os_name = "";
    kernel_version = "";
    arch = "";
    cluster_id = cluster.id;
    joined_at = 0;
    last_heartbeat = 0;
    last_ip_change = 0;
    labels = [];
  }

-- The texts of the three UUIDs that an initialisation takes.
pub record Uuids : Type 0 where
  pub for_cluster : String
  pub for_token : String
  pub for_admin : String

module _ {F : Type 0} ⦃fl : Float F⦄ (e : Engine) (now : ℕ) where
  unfoldable pub refuse_existing : {R : Type 0} → Option Cluster → Handler F R (Unit {0})
  refuse_existing none = check true conflict
  refuse_existing (some c) = refuse conflict

  unfoldable pub init_steps :
      Machine → Uuids → (String → String) → String → Handler F (InitReply F) (InitReply F)
  unfolding refuse_existing controller_node
  init_steps m ids sha256 name = do
    check (not (name == "")) bad_request
    existing ← query (get_cluster e) internal_error
    refuse_existing existing
    cluster ←
        insert (create_cluster e now ids.for_cluster ids.for_token name m.ip 8080 9090)
          internal_error
    write (register_node e (controller_node m cluster)) internal_error
    attempt (λ s. new_state (create_user e now ids.for_admin (admin_user (sha256 "admin")) s))
    attempt (
        add_audit_entry e now "" "cluster_init" "cluster" cluster.id
          (concat "Cluster '" (concat name "' initialized")))
    emit "cluster_init" (("cluster", cluster_value cluster) ∷ [])
    respond created (record { cluster = cluster; controller = controller_node m cluster })

  -- HandleClusterInit, from the name in the body.
  unfoldable pub handle_cluster_init :
      Machine → Uuids → (String → String) → Option String → Handler F (InitReply F) (InitReply F)
  unfolding init_steps
  handle_cluster_init m ids sha256 body = do name ← decoded body; init_steps m ids sha256 name

  -- HandleClusterStatus.
  unfoldable pub handle_cluster_status : Handler F (ClusterReply F) (ClusterReply F)
  unfolding or_not_found
  handle_cluster_status = do
    found ← query (get_cluster e) internal_error
    cluster ← or_not_found e now found
    nodes ← query (list_nodes e) internal_error
    pool ← query (get_computation_pool e) internal_error
    listed ← query (list_tasks e "" "" (pos 0) (pos 0)) internal_error
    respond status_ok (record {
      cluster = cluster;
      health = health nodes;
      nodes = nodes;
      pool = pool;
      task_stats = task_stats listed.0;
      total_tasks = length listed.0;
    })

  -- HandleClusterPool.
  unfoldable pub handle_cluster_pool : Handler F ComputationPool ComputationPool
  handle_cluster_pool = do
    pool ← query (get_computation_pool e) internal_error
    respond status_ok pool

  unfoldable pub listed_nodes : Result (List (Node F)) → List (Node F)
  listed_nodes (ok ns) = ns
  listed_nodes (err x) = []

  -- The loop of HandleClusterDestroy, whose errors are dropped.
  unfoldable pub delete_nodes : List (Node F) → Store F → Store F
  delete_nodes = for_each (λ n s. after s (delete_node e n.id s))

  -- HandleClusterDestroy.
  unfoldable pub handle_cluster_destroy : Handler F (Unit {0}) (Unit {0})
  unfolding or_not_found listed_nodes
  handle_cluster_destroy = do
    found ← peek (get_cluster e)
    cluster ← or_not_found e now (known_cluster found)
    nodes ← peek (list_nodes e)
    attempt (λ s. ok (delete_nodes (listed_nodes nodes) s))
    write (delete_cluster e) internal_error
    attempt (add_audit_entry e now "" "cluster_destroy" "cluster" cluster.id "Cluster destroyed")
    emit "cluster_destroy" []
    respond status_ok tt

-- The counts of HandleAnalytics: completed, failed, running and all of the tasks that it lists.
-- The utilization that it answers beside them is made up at random.
pub record TasksSummary : Type 0 where
  pub success : ℕ
  pub failed : ℕ
  pub running : ℕ
  pub total : ℕ

unfoldable pub count_task : TasksSummary → Task → TasksSummary
count_task c t =
    if t.status == "completed"
    then record c { success = c.success + 1 }
    else if t.status == "failed"
    then record c { failed = c.failed + 1 }
    else if t.status == "running"
    then record c { running = c.running + 1 }
    else c

unfoldable pub summary_of : List Task → TasksSummary
summary_of tasks =
    for_each (λ t c. count_task c t) tasks
      (record { success = 0; failed = 0; running = 0; total = length tasks })

unfoldable pub handle_analytics : {F : Type 0} → Engine → Handler F TasksSummary TasksSummary
handle_analytics e = do
  listed ← query (list_tasks e "" "" (pos 10000) (pos 0)) internal_error
  respond status_ok (summary_of listed.0)
