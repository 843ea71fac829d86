-- ===== src/Api/Nodes.antt =====
-- The node handlers of controller/api/cluster.go, and the Heartbeat call of
-- controller/api/grpc_server.go. `uuid` is the text of a fresh UUID.
use Prim.Native.String.{slice}
use project_constellation.Prelude.{
  ℕ, ◌+◌, ◌*◌, ℤ, pos, not, ◌||◌, ◌==◌, String, List, [], ◌∷◌, Option, none, some, concat, eqb,
  one_of, length, if◌then◌else◌, Float,
}
use project_constellation.State.Model.{Cluster, Node, NodeRow, NodeLiveMetrics}
use project_constellation.State.Engine.{Engine, Result, ok, err}
use project_constellation.State.Clusters.{add_audit_entry, get_cluster}
use project_constellation.State.Nodes.{
  delete_node, get_node, list_nodes, register_node, update_node_heartbeat, update_node_live_metrics,
  update_node_status,
}
use project_constellation.Scheduler.Events.{text, node_value}
use project_constellation.Api.Handler.{
  Handler, ◌>>=◌, ◌>>◌, refuse, respond, check, decoded, peek, query, write, attempt, emit, skip,
  bad_request, unauthorized, not_found, internal_error, status_ok, created,
}
use project_constellation.Api.Auth.{Claims, Jwt}
use project_constellation.Api.Users.{day}

pub record NodeJoinRequest (F : Type 0) : Type 0 where
  pub hostname : String
  pub ip_address : String
  pub mac_address : String
  pub agent_port : ℕ
  pub join_token : String
  pub cpu_model : String
  pub cpu_cores : ℤ
  pub cpu_threads : ℤ
  pub cpu_freq_mhz : F
  pub memory_total : ℤ
  pub disk_total : ℤ
  pub os_name : String
  pub kernel_version : String
  pub arch : String

pub record JoinReply : Type 0 where
  pub node_id : String
  pub cluster_id : String
  pub cluster_name : String
  pub token : String

-- The numbers among the metrics of a request.
pub record UpdateNodeStatusRequest (F : Type 0) : Type 0 where
  pub status : String
  pub metrics : Option (List (String × F))

-- One metric of a request, and the value that stays when it is missing or no number.
abbrev metric : {F : Type 0} → String → F → List (String × F) → F
metric name v [] = v
metric name v ((k, x) ∷ ms) = if k == name then x else metric name v ms

module _ {F : Type 0} ⦃fl : Float F⦄ where
  unfoldable pub read_metrics : List (String × F) → NodeLiveMetrics F
  read_metrics ms =
      let zero_float = fl.of_int (pos 0) in
      record {
        cpu_usage = metric "cpu_usage" zero_float ms;
        memory_usage = metric "memory_usage" zero_float ms;
        disk_usage = metric "disk_usage" zero_float ms;
        load_avg_1 = metric "load_avg_1" zero_float ms;
        load_avg_5 = metric "load_avg_5" zero_float ms;
        load_avg_15 = metric "load_avg_15" zero_float ms;
        running_tasks = fl.to_int (metric "running_tasks" zero_float ms);
        uptime_seconds = fl.to_int (metric "uptime_seconds" zero_float ms);
        cpu_temperature = metric "cpu_temperature" zero_float ms;
        last_update = 0;
      }

  -- The node that a join request registers. Its times are Go's zero time.
  unfoldable pub joined_node : String → NodeJoinRequest F → Cluster → NodeRow F
  joined_node uuid req cluster = record {
    id = concat "node-" (slice uuid 0 8);
    hostname = req.hostname;
    ip_address = req.ip_address;
    mac_address = req.mac_address;
    agent_port = if eqb req.agent_port 0 then 9091 else req.agent_port;
    role = "worker";
    status = "online";
    ssh_user = "";
    ssh_port = 0;
    cpu_model = req.cpu_model;
    cpu_cores = req.cpu_cores;
    cpu_threads = req.cpu_threads;
    cpu_freq_mhz = req.cpu_freq_mhz;
    memory_total = req.memory_total;
    disk_total = req.disk_total;
    gpu_count = pos 0;
    gpu_memory = pos 0;
    os_name = req.os_name;
    kernel_version = req.kernel_version;
    arch = req.arch;
    cluster_id = cluster.id;
    joined_at = 0;
    last_heartbeat = 0;
    last_ip_change = 0;
    labels = [];
  }

-- A cluster that is there; an error of the query counts as none.
abbrev pub known_cluster : Result (Option Cluster) → Option Cluster
known_cluster (ok c) = c
known_cluster (err x) = none

abbrev or_blank : Option String → String
or_blank none = ""
or_blank (some s) = s

-- The claims of a node's token.
abbrev node_claims : Jwt → ℕ → String → Claims
node_claims jwt now i = record {
  username = i;
  role = "node";
  expires_at = jwt.numeric_date (now + 365 * day);
  issued_at = 0;
}

module _ {F : Type 0} ⦃fl : Float F⦄ (e : Engine) (now : ℕ) where
  unfoldable pub or_not_found : {R : Type 0} → Option Cluster → Handler F R Cluster
  or_not_found none = refuse not_found
  or_not_found (some c) = peek (λ s. c)

  unfoldable pub join_steps : Jwt → String → NodeJoinRequest F → Handler F JoinReply JoinReply
  unfolding or_not_found joined_node
  join_steps jwt uuid req = do
    found ← peek (get_cluster e)
    cluster ← or_not_found (known_cluster found)
    check (req.join_token == cluster.join_token) unauthorized
    check (not (req.hostname == "" || req.ip_address == "")) bad_request
    let node = joined_node uuid req cluster
    write (register_node e node) internal_error
    attempt (
        add_audit_entry e now "" "node_join" "node" node.id
          (concat "Node " (concat req.hostname " joined")))
    emit "node_joined" (("node", node_value node) ∷ [])
    respond created (record {
      node_id = node.id;
      cluster_id = cluster.id;
      cluster_name = cluster.name;
      token = or_blank (jwt.sign (node_claims jwt now node.id));
    })

  -- HandleNodeJoin.
  unfoldable pub handle_node_join :
      Jwt → String → Option (NodeJoinRequest F) → Handler F JoinReply JoinReply
  unfolding join_steps
  handle_node_join jwt uuid body = do req ← decoded body; join_steps jwt uuid req

  -- HandleListNodes.
  unfoldable pub handle_list_nodes : Handler F (List (Node F) × ℕ) (List (Node F) × ℕ)
  handle_list_nodes = do
    nodes ← query (list_nodes e) internal_error
    respond status_ok (nodes, length nodes)

  -- HandleGetNode.
  unfoldable pub handle_get_node : String → Handler F (Node F) (Node F)
  handle_get_node i = do node ← query (get_node e i) not_found; respond status_ok node

  -- HandleDeleteNode.
  unfoldable pub handle_delete_node : String → Handler F (Unit {0}) (Unit {0})
  handle_delete_node i = do
    node ← query (get_node e i) not_found
    check (not (node.role == "controller")) bad_request
    write (delete_node e i) internal_error
    attempt (
        add_audit_entry e now "" "node_remove" "node" i
          (concat "Node " (concat node.hostname " removed")))
    emit "node_removed" (("node_id", text i) ∷ [])
    respond status_ok tt

  unfoldable pub keep_metrics :
      {R : Type 0} → String → Option (List (String × F)) → Handler F R (Unit {0})
  unfolding read_metrics
  keep_metrics i none = skip
  keep_metrics i (some ms) = attempt (λ s. ok (update_node_live_metrics now i (read_metrics ms) s))

  unfoldable pub status_steps : String → UpdateNodeStatusRequest F → Handler F String String
  unfolding keep_metrics
  status_steps i req = do
    check (one_of req.status ("online" ∷ "offline" ∷ "draining" ∷ "maintenance" ∷ [])) bad_request
    write
        (if req.status == "online"
          then update_node_heartbeat e now i
          else update_node_status e i req.status)
        internal_error
    keep_metrics i req.metrics
    emit "node_status_changed" (("node_id", text i) ∷ ("status", text req.status) ∷ [])
    respond status_ok req.status

  -- HandleUpdateNodeStatus.
  unfoldable pub handle_update_node_status :
      String → Option (UpdateNodeStatusRequest F) → Handler F String String
  unfolding status_steps
  handle_update_node_status i body = do req ← decoded body; status_steps i req

module _ {F : Type 0} (e : Engine) where
  -- HandleReserveNode and HandleUnreserveNode.
  unfoldable pub handle_reserve_node : String → Handler F (Unit {0}) (Unit {0})
  handle_reserve_node i = do
    write (update_node_status e i "maintenance") internal_error
    respond status_ok tt

  unfoldable pub handle_unreserve_node : String → Handler F (Unit {0}) (Unit {0})
  handle_unreserve_node i = do
    write (update_node_status e i "online") internal_error
    respond status_ok tt

  -- Heartbeat of the gRPC server.
  unfoldable pub grpc_heartbeat : ℕ → String → Handler F (Unit {0}) (Unit {0})
  grpc_heartbeat now i = do
    write (update_node_heartbeat e now i) internal_error
    emit "node_status_changed" (("node_id", text i) ∷ ("status", text "online") ∷ [])
    respond status_ok tt
