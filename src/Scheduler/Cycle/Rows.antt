-- ===== src/Scheduler/Cycle/Rows.antt =====
-- What scheduleCycle does to the row of each task.
use project_constellation.Prelude.{
  for_each-same, ℕ, suc, ◌≡◌, refl, ◌∙◌, String, List, [], ◌∷◌, arith, Float,
}
use project_constellation.State.Model.{Node, Task, TaskChunk}
use project_constellation.State.Engine.{Engine, Store, after, new_state}
use project_constellation.State.Chunks.{create_task_chunk, update_chunk_assignment}
use project_constellation.State.Nodes.{update_node_live_metrics}
use project_constellation.Scheduler.Events.{World}
use project_constellation.Scheduler.Cycle.{
  Split, create_chunks, gang_step, gang_loop, schedule_chunk, schedule_chunks,
}

module _ {F : Type 0} ⦃fl : Float F⦄ (e : Engine) (now : ℕ) (split : Store F → Task → Split) where
  -- The statements on chunks leave the tasks alone.
  create_task_chunk-tasks :
      (c : TaskChunk) (s : Store F)
      → (after s (new_state (create_task_chunk e c s))).tasks ≡ s.tasks
  unfolding create_task_chunk
  create_task_chunk-tasks c s = ground arith

  update_chunk_assignment-tasks :
      (i node_id : String) (s : Store F)
      → (after s (update_chunk_assignment e i node_id s)).tasks ≡ s.tasks
  unfolding update_chunk_assignment
  update_chunk_assignment-tasks i node_id s = ground arith

  pub create_chunks-tasks :
      (cs : List TaskChunk) (w : World F)
      → (create_chunks e now split cs w).store.tasks ≡ w.store.tasks
  unfolding create_chunks
  create_chunks-tasks cs w =
      for_each-same (λ v. v.store.tasks) _ cs w (λ c v. create_task_chunk-tasks c v.store)

  gang_step-tasks :
      (task : Task) (master : String) (i : ℕ) (n : Node F) (w : World F)
      → (gang_step e now split task master i n w).store.tasks ≡ w.store.tasks
  unfolding gang_step update_node_live_metrics
  gang_step-tasks task master i n w = create_task_chunk-tasks _ w.store

  pub gang_loop-tasks :
      (task : Task) (master : String) (i : ℕ) (nodes : List (Node F)) (w : World F)
      → (gang_loop e now split task master i nodes w).store.tasks ≡ w.store.tasks
  unfolding gang_loop
  gang_loop-tasks task master i [] w = refl
  gang_loop-tasks task master i (n ∷ ns) w =
      gang_loop-tasks task master (suc i) ns (gang_step e now split task master i n w)
      ∙ gang_step-tasks task master i n w

  schedule_chunk-tasks :
      (nodes : List (Node F)) (c : TaskChunk) (w : World F)
      → (schedule_chunk e now split nodes c w).store.tasks ≡ w.store.tasks
  unfolding schedule_chunk update_chunk_assignment
  schedule_chunk-tasks nodes c w = ground arith

  pub schedule_chunks-tasks :
      (nodes : List (Node F)) (cs : List TaskChunk) (w : World F)
      → (schedule_chunks e now split nodes cs w).store.tasks ≡ w.store.tasks
  unfolding schedule_chunks
  schedule_chunks-tasks nodes cs w =
      for_each-same (λ v. v.store.tasks) _ cs w (schedule_chunk-tasks nodes)
