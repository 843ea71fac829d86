-- ===== src/Scheduler/Placement.antt =====
-- controller/scheduler/placement.go, and the choice of nodes in controller/scheduler/scheduler.go.
pub mod Sound
pub mod Best
pub mod Agree
use project_constellation.Prelude.{
  ℕ, ℤ, pos, negsuc, ltb_ℤ, leb, Bool, true, false, not, ◌&&◌, ◌==◌, String, List, [], ◌∷◌, Option,
  none, some, find?, select, length, take, if◌then◌else◌, Float,
}
use project_constellation.State.Model.{Node, Task}
use project_constellation.State.Pool.{free_share}
use project_constellation.Scheduler.Scoring.{score_node}

pub data PlacementError : Type 0 where
  no_nodes no_candidate target_unavailable scoring_failed : PlacementError

-- The texts of `Reason` are its two cases.
pub data Reason : Type 0 where
  pinned : Reason
  best_score_of : ℕ → Reason

pub record PlacementResult (F : Type 0) : Type 0 where
  pub task_id : String
  pub node_id : String
  pub node_name : String
  pub score : F
  pub reason : Reason

pub data Placed (F : Type 0) : Type 0 where
  placed : PlacementResult F → Placed F
  refused : PlacementError → Placed F

-- The greatest score so far, and the node that has it.
abbrev pub Best : Type 0 → Type 0
Best F = F × Option (Node F)

module _ {F : Type 0} ⦃fl : Float F⦄ where
  unfoldable pub satisfies_constraints : Task → Node F → Bool
  satisfies_constraints task node =
      if ltb_ℤ (fl.to_int (free_share node.cpu_cores node.cpu_usage)) task.cpu_required
      then false
      else if ltb_ℤ (pos 0) task.memory_required
          && ltb_ℤ (fl.to_int (free_share node.memory_total node.memory_usage)) task.memory_required
      then false
      else if ltb_ℤ (pos 0) task.gpu_required && ltb_ℤ node.gpu_count task.gpu_required
      then false
      else true

  -- A node that may run the task: online, with the resources that the task asks for.
  abbrev pub is_candidate : Task → Node F → Bool
  is_candidate task node = node.status == "online" && satisfies_constraints task node

  abbrev pub start : Best F
  start = (fl.of_int (negsuc 0), none)

  abbrev pub keep_better : Task → Best F → Node F → Best F
  keep_better task (best, chosen) node =
      if fl.lt best (score_node task node)
      then (score_node task node, some node)
      else (best, chosen)

  pub best_of : Task → Best F → List (Node F) → Best F
  best_of task b [] = b
  best_of task b (n ∷ ns) = best_of task (keep_better task b n) ns

  -- The loop of findBestNode: a pinned task returns at its node.
  unfoldable pub find_loop : Task → Best F → List (Node F) → Option (Node F)
  find_loop task b [] = b.1
  find_loop task b (n ∷ ns) =
      let skip = find_loop task b ns in
      let score = find_loop task (keep_better task b n) ns in
      if not (n.status == "online")
      then skip
      else if not (satisfies_constraints task n)
      then skip
      else if not (task.target_node == "")
      then (if n.id == task.target_node then some n else skip)
      else score

  unfoldable pub find_best_node : Task → List (Node F) → Option (Node F)
  find_best_node task nodes = find_loop task start nodes

  -- The first `n` candidates, if there are as many. The caller asks for more than one.
  take_gang : ℤ → List (Node F) → List (Node F)
  take_gang (pos n) candidates = if leb n (length candidates) then take n candidates else []
  take_gang (negsuc n) candidates = []

  pub find_gang_nodes : Task → List (Node F) → List (Node F)
  unfolding take_gang
  find_gang_nodes task nodes = take_gang task.world_size (select (is_candidate task) nodes)

  -- Phase 2 of PlaceTask.
  place_target : Task → List (Node F) → Placed F
  place_target task candidates = elim (find? (λ n. n.id == task.target_node) candidates) [
    | some n ↦ placed (record {
      task_id = task.id;
      node_id = n.id;
      node_name = n.hostname;
      score = fl.decimal 1 0;
      reason = pinned;
    })
    | none ↦ refused target_unavailable
  ]

  -- Phase 3.
  place_best : Task → List (Node F) → Best F → Placed F
  place_best task candidates (best, none) = refused scoring_failed
  place_best task candidates (best, some n) = placed (record {
    task_id = task.id;
    node_id = n.id;
    node_name = n.hostname;
    score = best;
    reason = best_score_of (length candidates);
  })

  place_candidates : Task → List (Node F) → Placed F
  unfolding place_target place_best best_of
  place_candidates task [] = refused no_candidate
  place_candidates task (n ∷ ns) =
      if not (task.target_node == "")
      then place_target task (n ∷ ns)
      else place_best task (n ∷ ns) (best_of task start (n ∷ ns))

  pub place_task : Task → List (Node F) → Placed F
  unfolding place_candidates
  place_task task [] = refused no_nodes
  place_task task (n ∷ ns) = place_candidates task (select (is_candidate task) (n ∷ ns))
