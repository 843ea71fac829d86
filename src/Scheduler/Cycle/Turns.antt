-- ===== src/Scheduler/Cycle/Turns.antt =====
-- What one turn of the loop over the queued tasks does to the tasks.
use project_constellation.Prelude.{
  ℕ, pos, ltb_ℤ, ◌≡◌, refl, inl, inr, true, false, not, ◌&&◌, ◌==◌, String, List, Option, none,
  some, Bool-cases, Float, length,
}
use project_constellation.State.Model.{Node, Task}
use project_constellation.State.Engine.{Engine, Store, Result, ok, err, after}
use project_constellation.State.Tasks.{is_queued, set_assignment, set_result, set_status}
use project_constellation.State.Tasks.Updates.{
  Updated, kept, changed, set_status-id, Updated-after, update_task_assignment-Updated,
  update_task_result-Updated, update_task_status-Updated,
}
use project_constellation.State.Nodes.{update_node_live_metrics}
use project_constellation.Scheduler.Placement.{find_best_node, find_gang_nodes}
use project_constellation.Scheduler.Events.{World}
use project_constellation.Scheduler.Cycle.{
  Split, split_into, split_failed, split_answer, split_step, place_gang, assign_answer, assign_step,
  schedule_task, master_address,
}
use project_constellation.Scheduler.Loop.{Turn, idle, turn}
use project_constellation.Scheduler.Cycle.Rows.{create_chunks-tasks, gang_loop-tasks}

module _ {F : Type 0} ⦃fl : Float F⦄ (e : Engine) (now : ℕ) (split : Store F → Task → Split) where
  -- What one task's turn in a cycle makes of its row. Only a queued task is changed.
  pub data Outcome (nodes : List (Node F)) (t t' : Task) : Type 0 where
    waits : t' ≡ t → Outcome nodes t t'
    placed :
        (n : Node F)
        → is_queued t ≡ true
        → find_best_node t nodes ≡ some n
        → t' ≡ set_assignment n.id t
        → Outcome nodes t t'
    ganged :
        is_queued t ≡ true
        → ltb_ℤ (pos (length (find_gang_nodes t nodes))) t.world_size ≡ false
        → t' ≡ set_status now "scheduled" t
        → Outcome nodes t t'
    splits : is_queued t ≡ true → t' ≡ set_status now "splitting" t → Outcome nodes t t'
    split_fails :
        (message : String)
        → is_queued t ≡ true
        → t' ≡ set_result now (pos 1) message t
        → Outcome nodes t t'

  module _ (nodes : List (Node F)) (task : Task) (queued : is_queued task ≡ true)
      (w : World F) where
    split_answer-Turn :
        (a : Split) → Turn (Outcome nodes) task w (split_answer e now split task w a)
    unfolding split_answer
    split_answer-Turn (split_failed message) =
        turn (set_result now (pos 1) message) (λ t. refl)
          (update_task_result-Updated e now task.id (pos 1) message w.store)
          (split_fails message queued refl)
    split_answer-Turn (split_into chunks) =
        turn (set_status now "splitting") (set_status-id now "splitting")
          (Updated-after (create_chunks-tasks e now split chunks w)
            (update_task_status-Updated e now task.id "splitting" _))
          (splits queued refl)

    split_step-Turn : Turn (Outcome nodes) task w (split_step e now split task w)
    unfolding split_step
    split_step-Turn = rw queued (split_answer-Turn (split w.store task))

    place_gang-Turn :
        Turn (Outcome nodes) task w (place_gang e now split task w (find_gang_nodes task nodes))
    unfolding place_gang
    place_gang-Turn =
        let gang = find_gang_nodes task nodes in
        elim (Bool-cases (ltb_ℤ (pos (length gang)) task.world_size)) [
          | inl few ↦ rw few (idle refl)
          | inr enough ↦ rw enough (
              turn (set_status now "scheduled") (set_status-id now "scheduled")
                (Updated-after (gang_loop-tasks e now split task (master_address gang) 0 gang w)
                  (update_task_status-Updated e now task.id "scheduled" _))
                (ganged queued enough refl))
        ]

    assign_answer-Updated :
        (node : Node F) (f : Task → Task) (r : Result (Store F))
        → Updated task.id f w.store (after w.store r)
        → Updated task.id f w.store (assign_answer e now split task node w r).store
    unfolding assign_answer update_node_live_metrics
    assign_answer-Updated node f (err x) u = u
    assign_answer-Updated node f (ok s) (kept h) = kept h
    assign_answer-Updated node f (ok s) (changed h) = changed h

    assign_step-Turn :
        (found : Option (Node F))
        → find_best_node task nodes ≡ found
        → Turn (Outcome nodes) task w (assign_step e now split task w found)
    unfolding assign_step
    assign_step-Turn none h = idle refl
    assign_step-Turn (some node) h =
        turn (set_assignment node.id) (λ t. refl)
          (assign_answer-Updated node (set_assignment node.id) _
            (update_task_assignment-Updated e task.id node.id w.store))
          (placed node queued h refl)

    pub schedule_task-Turn : Turn (Outcome nodes) task w (schedule_task e now split nodes task w)
    unfolding schedule_task
    schedule_task-Turn =
        elim (Bool-cases (task.type == "split" && not (task.split_strategy == ""))) [
          | inl splitting ↦ rw splitting split_step-Turn
          | inr whole ↦
              rw whole (elim (Bool-cases (task.is_distributed && ltb_ℤ (pos 1) task.world_size)) [
                | inl gang ↦ rw gang place_gang-Turn
                | inr single ↦ rw single (assign_step-Turn (find_best_node task nodes) refl)
              ])
        ]
