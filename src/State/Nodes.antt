-- ===== src/State/Nodes.antt =====
-- The node operations of controller/state/store.go.
use project_constellation.Prelude.{
  ℕ, pos, Bool, ◌&&◌, ◌||◌, not, ◌==◌, String, List, [], ◌∷◌, ◌++◌, map, none, some, Option, leb,
  any, select, find?, update_where, sort_by, if◌then◌else◌, Float,
}
use project_constellation.State.Model.{Node, NodeRow, NodeLiveMetrics}
use project_constellation.State.Engine.{
  Engine, Store, Result, ok, err, Error, Statement, Table, exec, require, has_node, node_check,
}
use project_constellation.State.Tasks.{datetime}

abbrev pub node_key : {F : Type 0} → String → NodeRow F → Bool
node_key i n = n.id == i

abbrev pub update_node :
    {F : Type 0} → Engine → String → (NodeRow F → NodeRow F) → Store F → Result (Store F)
update_node e i f s = exec e (Statement.update Table.nodes i) (
    require (not (any (λ n. node_key i n && not (node_check (f n))) s.nodes))
      (ok (record s { nodes = update_where (node_key i) f s.nodes })))

abbrev pub set_node_status : {F : Type 0} → String → NodeRow F → NodeRow F
set_node_status status n = record n { status = status }

abbrev pub set_heartbeat : {F : Type 0} → ℕ → NodeRow F → NodeRow F
set_heartbeat now n = record n { last_heartbeat = datetime now; status = "online" }

abbrev pub set_ip : {F : Type 0} → ℕ → String → NodeRow F → NodeRow F
set_ip now ip n = record n { ip_address = ip; last_ip_change = datetime now }

-- `liveMetrics`, a Go map: a key stands once, and a write replaces its value.
abbrev pub metrics_of :
    {F : Type 0} → String → List (String × NodeLiveMetrics F) → Option (NodeLiveMetrics F)
metrics_of i [] = none
metrics_of i ((k, m) ∷ ms) = if k == i then some m else metrics_of i ms

abbrev pub put_metrics :
    {F : Type 0}
    → String
    → NodeLiveMetrics F
    → List (String × NodeLiveMetrics F)
    → List (String × NodeLiveMetrics F)
put_metrics i m [] = (i, m) ∷ []
put_metrics i m ((k, v) ∷ ms) = if k == i then (i, m) ∷ ms else (k, v) ∷ put_metrics i m ms

-- A task or chunk row refers to the node.
abbrev pub is_referenced : {F : Type 0} → String → Store F → Bool
is_referenced i s =
    any (λ t. t.assigned_node == i && not (i == "")) s.tasks
    || any (λ c. c.assigned_node == i && not (i == "")) s.task_chunks

module _ {F : Type 0} ⦃fl : Float F⦄ where
  -- The metrics of a Go struct that was just made.
  abbrev pub no_metrics : NodeLiveMetrics F
  no_metrics = record {
    cpu_usage = fl.of_int (pos 0);
    memory_usage = fl.of_int (pos 0);
    disk_usage = fl.of_int (pos 0);
    load_avg_1 = fl.of_int (pos 0);
    load_avg_5 = fl.of_int (pos 0);
    load_avg_15 = fl.of_int (pos 0);
    running_tasks = pos 0;
    uptime_seconds = pos 0;
    cpu_temperature = fl.of_int (pos 0);
    last_update = 0;
  }

  abbrev pub metrics_or_zero : Option (NodeLiveMetrics F) → NodeLiveMetrics F
  metrics_or_zero none = no_metrics
  metrics_or_zero (some m) = record m { last_update = 0 }

  -- scanNode: no query reads `last_ip_change`, and the live metrics are attached.
  unfoldable pub scan_node : Store F → NodeRow F → Node F
  scan_node s r = record {
    row = record r { last_ip_change = 0 };
    metrics = metrics_or_zero (metrics_of r.id s.live_metrics);
  }

  scan_found : Store F → Option (NodeRow F) → Result (Node F)
  unfolding scan_node
  scan_found s none = err Error.not_found
  scan_found s (some r) = ok (scan_node s r)

  module _ (e : Engine) where
    unfoldable pub get_node : String → Store F → Result (Node F)
    unfolding scan_found
    get_node i s =
        exec e (Statement.select Table.nodes i) (scan_found s (find? (node_key i) s.nodes))

    unfoldable pub list_nodes : Store F → Result (List (Node F))
    unfolding scan_node
    list_nodes s =
        exec e (Statement.select Table.nodes "")
          (ok (map (scan_node s) (sort_by (λ a b. leb a.joined_at b.joined_at) s.nodes)))

    unfoldable pub get_online_worker_nodes : Store F → Result (List (Node F))
    unfolding scan_node
    get_online_worker_nodes s =
        exec e (Statement.select Table.nodes "online") (
          ok (map (scan_node s) (select (λ n. n.status == "online" && n.role == "worker") s.nodes)))

module _ {F : Type 0} (e : Engine) where
  -- RegisterNode: the INSERT does not name ssh_user, ssh_port and last_ip_change.
  unfoldable pub register_node : NodeRow F → Store F → Result (Store F)
  register_node n s = exec e (Statement.insert Table.nodes n.id) (
      require (node_check n) (
        require (not (has_node n.id s)) (
          require (not e.foreign_keys || any (λ c. c.id == n.cluster_id) s.clusters) (
            ok (record s {
              nodes = s.nodes ++ record n { ssh_user = ""; ssh_port = 22; last_ip_change = 0 } ∷ [];
            })))))

  unfoldable pub update_node_status : String → String → Store F → Result (Store F)
  update_node_status i status s = update_node e i (set_node_status status) s

  unfoldable pub update_node_heartbeat : ℕ → String → Store F → Result (Store F)
  update_node_heartbeat now i s = update_node e i (set_heartbeat now) s

  unfoldable pub update_node_ip : ℕ → String → String → Store F → Result (Store F)
  update_node_ip now i ip s = update_node e i (set_ip now ip) s

  -- Rows that refer to the node keep it, where foreign keys are enforced.
  unfoldable pub delete_node : String → Store F → Result (Store F)
  delete_node i s = exec e (Statement.delete Table.nodes i) (
      require (not (e.foreign_keys && (has_node i s && is_referenced i s)))
        (ok (record s { nodes = select (λ n. not (node_key i n)) s.nodes })))

-- A write to memory, which cannot fail.
unfoldable pub update_node_live_metrics :
    {F : Type 0} → ℕ → String → NodeLiveMetrics F → Store F → Store F
update_node_live_metrics now i m s = record s {
  live_metrics = put_metrics i (record m { last_update = now }) s.live_metrics;
}
