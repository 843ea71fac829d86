-- ===== src/Scheduler/Heartbeat.antt =====
-- The heartbeat monitor of controller/scheduler/scheduler.go.
pub mod Rows
pub mod Offline
pub mod Closed
use project_constellation.Prelude.{
  ℕ, ◌+◌, ◌*◌, ◌^◌, pos, ◌+ℤ◌, ltb, ltb_ℤ, Bool, false, not, ◌&&◌, ◌==◌, String, List, [], ◌∷◌,
  if◌then◌else◌, for_each, Float,
}
use project_constellation.State.Model.{Node, Task}
use project_constellation.State.Engine.{Engine, Result, ok, err}
use project_constellation.State.Tasks.{list_tasks, increment_task_retry, update_task_result}
use project_constellation.State.Nodes.{list_nodes, update_node_status}
use project_constellation.Scheduler.Events.{text, number, World, broadcast, update_store}

-- 30 * time.Second
abbrev pub timeout : ℕ
timeout = 30 * 10 ^ 9

abbrev pub retries_exhausted : String
retries_exhausted = "node went offline, max retries exceeded"

-- A worker that should be heard of and was not.
abbrev pub is_lost : {F : Type 0} → ℕ → Node F → Bool
is_lost now node =
    if node.role == "controller"
    then false
    else node.status == "online" && ltb (node.last_heartbeat + timeout) now

module _ {F : Type 0} (e : Engine) (now : ℕ) where
  -- The body of the loop of rescheduleNodeTasks.
  pub reschedule_task : String → Task → World F → World F
  reschedule_task node_id task w =
      if not (task.assigned_node == node_id)
      then w
      else if ltb_ℤ task.retry_count task.retry_max
      then broadcast "task_rescheduled"
          (("task_id", text task.id)
            ∷ ("from_node", text node_id)
            ∷ ("retry_count", number (task.retry_count +ℤ pos 1))
            ∷ [])
          (update_store (increment_task_retry e task.id) w)
      else broadcast "task_failed"
          (("task_id", text task.id) ∷ ("reason", text "node offline, retries exhausted") ∷ [])
          (update_store (update_task_result e now task.id (pos 1) retries_exhausted) w)

  pub reschedule_tasks : String → List Task → World F → World F
  reschedule_tasks node_id = for_each (reschedule_task node_id)

  with_running : String → World F → Result (List Task × ℕ) → World F
  with_running node_id w (err x) = w
  with_running node_id w (ok (tasks, total)) = reschedule_tasks node_id tasks w

  pub reschedule_node_tasks : String → World F → World F
  unfolding with_running
  reschedule_node_tasks node_id w =
      with_running node_id w (list_tasks e "running" "" (pos 0) (pos 0) w.store)

  -- The node is marked offline, and the event is sent whether that works or not.
  announce_lost : Node F → World F → World F
  announce_lost node w =
      broadcast "node_offline"
        (("node_id", text node.id)
          ∷ ("node_name", text node.hostname)
          ∷ ("reason", text "heartbeat timeout")
          ∷ [])
        (update_store (update_node_status e node.id "offline") w)

  -- The body of the loop of checkHeartbeats.
  pub check_node : Node F → World F → World F
  unfolding announce_lost
  check_node node w =
      if is_lost now node then reschedule_node_tasks node.id (announce_lost node w) else w

  pub check_nodes : List (Node F) → World F → World F
  check_nodes = for_each check_node

module _ {F : Type 0} ⦃fl : Float F⦄ (e : Engine) (now : ℕ) where
  with_listed : World F → Result (List (Node F)) → World F
  with_listed w (err x) = w
  with_listed w (ok nodes) = check_nodes e now nodes w

  pub check_heartbeats : World F → World F
  unfolding with_listed
  check_heartbeats w = with_listed w (list_nodes e w.store)
