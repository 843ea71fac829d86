-- ===== src/Scheduler/Cycle.antt =====
-- scheduleCycle of controller/scheduler/scheduler.go. `now` is the time of the cycle, and `split`
-- what SplitTask of controller/splitter/splitter.go answers during it.
pub mod Rows
pub mod Turns
pub mod Outcomes
pub mod Closed
pub mod Progress
use project_constellation.Prelude.{
  ℕ, suc, pos, ◌+ℤ◌, ltb_ℤ, Bool, true, false, not, ◌&&◌, ◌==◌, String, List, [], ◌∷◌, Option, none,
  some, length, for_each, if◌then◌else◌, Float,
}
use project_constellation.State.Model.{Node, NodeLiveMetrics, Task, TaskChunk}
use project_constellation.State.Engine.{Engine, Store, Result, ok, err, new_state}
use project_constellation.State.Tasks.{
  is_queued, get_queued_tasks, update_task_assignment, update_task_result, update_task_status,
}
use project_constellation.State.Chunks.{
  chunk_defaults, create_task_chunk, get_queued_chunks, get_task, update_chunk_assignment,
}
use project_constellation.State.Nodes.{
  get_online_worker_nodes, no_metrics, update_node_live_metrics,
}
use project_constellation.Scheduler.Placement.{find_best_node, find_gang_nodes}
use project_constellation.Scheduler.Events.{text, number, World, broadcast, update_store}

-- What SplitTask returns: the chunks, or an error with its message.
pub data Split : Type 0 where
  split_into : List TaskChunk → Split
  split_failed : String → Split

abbrev pub is_empty {ℓ} : {A : Type ℓ} → List A → Bool
is_empty [] = true
is_empty (x ∷ xs) = false

abbrev pub or_empty {ℓ} : {A : Type ℓ} → Result (List A) → List A
or_empty (ok xs) = xs
or_empty (err x) = []

module _ {F : Type 0} ⦃fl : Float F⦄ where
  -- The metrics of a node that was given one more task.
  abbrev pub one_more_task : Node F → NodeLiveMetrics F
  one_more_task node = record no_metrics {
    running_tasks = node.running_tasks +ℤ pos 1;
    cpu_usage = node.cpu_usage;
    memory_usage = node.memory_usage;
    disk_usage = node.disk_usage;
    load_avg_1 = node.load_avg_1;
  }

  abbrev pub count_task : ℕ → Node F → World F → World F
  count_task now node w = record w {
    store = update_node_live_metrics now node.id (one_more_task node) w.store;
  }

  abbrev master_address : List (Node F) → String
  master_address [] = "127.0.0.1"
  master_address (n ∷ ns) = if n.ip_address == "" then "127.0.0.1" else n.ip_address

  -- The chunk of rank `i` of a gang.
  abbrev gang_chunk : Task → ℕ → Node F → TaskChunk
  gang_chunk task i node = record {
    id = "";
    parent_task_id = task.id;
    chunk_index = i;
    assigned_node = node.id;
    status = "scheduled";
    input_file = "";
    output_file = "";
    exit_code = pos 0;
    started_at = 0;
    completed_at = 0;
  }

module _ {F : Type 0} ⦃fl : Float F⦄ (e : Engine) (now : ℕ) (split : Store F → Task → Split) where
  pub create_chunks : List TaskChunk → World F → World F
  create_chunks = for_each (λ c. update_store (λ s. new_state (create_task_chunk e c s)))

  split_answer : Task → World F → Split → World F
  unfolding create_chunks
  split_answer task w (split_failed message) =
      update_store (update_task_result e now task.id (pos 1) message) w
  split_answer task w (split_into chunks) =
      update_store (update_task_status e now task.id "splitting") (create_chunks chunks w)

  pub split_step : Task → World F → World F
  unfolding split_answer
  split_step task w = if is_queued task then split_answer task w (split w.store task) else w

  -- The body of the loop over a gang.
  gang_step : Task → String → ℕ → Node F → World F → World F
  gang_step task master i node w =
      let chunk = gang_chunk task i node in
      count_task now node (
        broadcast "task_scheduled"
          (("task_id", text task.id)
            ∷ ("chunk_id", text (chunk_defaults chunk).id)
            ∷ ("node_id", text node.id)
            ∷ ("node_name", text node.hostname)
            ∷ ("world_size", number task.world_size)
            ∷ ("rank", number (pos i))
            ∷ ("master_addr", text master)
            ∷ ("master_port", text "29500")
            ∷ [])
          (update_store (λ s. new_state (create_task_chunk e chunk s)) w))

  pub gang_loop : Task → String → ℕ → List (Node F) → World F → World F
  unfolding gang_step
  gang_loop task master i [] w = w
  gang_loop task master i (node ∷ nodes) w =
      gang_loop task master (suc i) nodes (gang_step task master i node w)

  place_gang : Task → World F → List (Node F) → World F
  unfolding gang_loop
  place_gang task w gang =
      if ltb_ℤ (pos (length gang)) task.world_size
      then w
      else update_store (update_task_status e now task.id "scheduled")
          (gang_loop task (master_address gang) 0 gang w)

  assign_answer : Task → Node F → World F → Result (Store F) → World F
  assign_answer task node w (err x) = w
  assign_answer task node w (ok s) = count_task now node (
      broadcast "task_scheduled"
        (("task_id", text task.id)
          ∷ ("task_name", text task.name)
          ∷ ("node_id", text node.id)
          ∷ ("node_name", text node.hostname)
          ∷ [])
        (record w { store = s }))

  assign_step : Task → World F → Option (Node F) → World F
  unfolding assign_answer
  assign_step task w none = w
  assign_step task w (some node) =
      assign_answer task node w (update_task_assignment e task.id node.id w.store)

  -- The body of the loop over the queued tasks.
  pub schedule_task : List (Node F) → Task → World F → World F
  unfolding split_step place_gang assign_step
  schedule_task nodes task w =
      if task.type == "split" && not (task.split_strategy == "")
      then split_step task w
      else if task.is_distributed && ltb_ℤ (pos 1) task.world_size
      then place_gang task w (find_gang_nodes task nodes)
      else assign_step task w (find_best_node task nodes)

  pub schedule_tasks : List (Node F) → List Task → World F → World F
  schedule_tasks nodes = for_each (schedule_task nodes)

  chunk_answer : TaskChunk → Node F → World F → Result (Store F) → World F
  chunk_answer chunk node w (err x) = w
  chunk_answer chunk node w (ok s) =
      broadcast "chunk_scheduled" (("chunk_id", text chunk.id) ∷ ("node_id", text node.id) ∷ [])
        (record w { store = s })

  chunk_node : TaskChunk → World F → Option (Node F) → World F
  unfolding chunk_answer
  chunk_node chunk w none = w
  chunk_node chunk w (some node) =
      chunk_answer chunk node w (update_chunk_assignment e chunk.id node.id w.store)

  chunk_parent_node : List (Node F) → TaskChunk → World F → Result Task → World F
  unfolding chunk_node
  chunk_parent_node nodes chunk w (err x) = w
  chunk_parent_node nodes chunk w (ok parent) = chunk_node chunk w (find_best_node parent nodes)

  -- The body of the loop over the queued chunks.
  pub schedule_chunk : List (Node F) → TaskChunk → World F → World F
  unfolding chunk_parent_node
  schedule_chunk nodes chunk w =
      chunk_parent_node nodes chunk w (get_task e chunk.parent_task_id w.store)

  pub schedule_chunks : List (Node F) → List TaskChunk → World F → World F
  schedule_chunks nodes = for_each (schedule_chunk nodes)

  -- The two loops, over the nodes that were online when the cycle began.
  pub schedule_all : List Task → List TaskChunk → World F → List (Node F) → World F
  schedule_all tasks chunks w nodes =
      if is_empty nodes then w else schedule_chunks nodes chunks (schedule_tasks nodes tasks w)

  with_nodes : List Task → List TaskChunk → World F → Result (List (Node F)) → World F
  unfolding schedule_all
  with_nodes tasks chunks w (err x) = w
  with_nodes tasks chunks w (ok nodes) = schedule_all tasks chunks w nodes

  with_tasks : World F → Result (List Task) → World F
  unfolding with_nodes
  with_tasks w (err x) = w
  with_tasks w (ok tasks) =
      let chunks = or_empty (get_queued_chunks e w.store) in
      if is_empty tasks && is_empty chunks
      then w
      else with_nodes tasks chunks w (get_online_worker_nodes e w.store)

  pub schedule_cycle : World F → World F
  unfolding with_tasks
  schedule_cycle w = with_tasks w (get_queued_tasks e w.store)
