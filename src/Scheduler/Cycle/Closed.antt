-- ===== src/Scheduler/Cycle/Closed.antt =====
-- A scheduling cycle writes through the calls of the store only.
use project_constellation.Prelude.{
  ℕ, suc, pos, ltb_ℤ, not, ◌&&◌, ◌==◌, String, List, [], ◌∷◌, Option, none, some, length,
  for_each-keeps, Bool-cases, inl, inr, Float,
}
use project_constellation.State.Model.{Node, Task, TaskChunk}
use project_constellation.State.Engine.{Engine, Store, Result, ok, err, after}
use project_constellation.State.Valid.{
  IsClosed, perform, metrics_to, create_chunk_of, task_status_to, task_result_to,
  task_assignment_to, chunk_assignment_to,
}
use project_constellation.State.Tasks.{is_queued, update_task_assignment}
use project_constellation.State.Chunks.{update_chunk_assignment, get_queued_chunks}
use project_constellation.Scheduler.Placement.{find_best_node, find_gang_nodes}
use project_constellation.Scheduler.Events.{World}
use project_constellation.Scheduler.Cycle.{
  Split, split_into, split_failed, create_chunks, split_answer, split_step, gang_step, gang_loop,
  gang_chunk, one_more_task, place_gang, assign_answer, assign_step, schedule_task, schedule_tasks,
  chunk_answer, chunk_node, chunk_parent_node, schedule_chunk, schedule_chunks, schedule_all,
  with_nodes, with_tasks, schedule_cycle, is_empty, or_empty,
}

module _ {F : Type 0} ⦃fl : Float F⦄ (P : Store F → Type 0) (h : IsClosed P) (e : Engine) (now : ℕ)
    (split : Store F → Task → Split) where
  abbrev Holds : World F → Type 0
  Holds w = P w.store

  split_answer-Holds :
      (t : Task) (w : World F) (a : Split) → Holds w → Holds (split_answer e now split t w a)
  unfolding split_answer create_chunks perform
  split_answer-Holds t w (split_failed m) p =
      h.closed e (task_result_to now t.id (pos 1) m) w.store p
  split_answer-Holds t w (split_into cs) p =
      h.closed e (task_status_to now t.id "splitting") _
        (for_each-keeps Holds _ cs w (λ c v q. h.closed e (create_chunk_of c) v.store q) p)

  gang_step-Holds :
      (t : Task) (master : String) (i : ℕ) (n : Node F) (w : World F)
      → Holds w
      → Holds (gang_step e now split t master i n w)
  unfolding gang_step perform
  gang_step-Holds t master i n w p =
      h.closed e (metrics_to now n.id (one_more_task n)) _
        (h.closed e (create_chunk_of (gang_chunk t i n)) w.store p)

  gang_loop-Holds :
      (t : Task) (master : String) (i : ℕ) (ns : List (Node F)) (w : World F)
      → Holds w
      → Holds (gang_loop e now split t master i ns w)
  unfolding gang_loop
  gang_loop-Holds t master i [] w p = p
  gang_loop-Holds t master i (n ∷ ns) w p =
      gang_loop-Holds t master (suc i) ns (gang_step e now split t master i n w)
        (gang_step-Holds t master i n w p)

  place_gang-Holds :
      (t : Task) (w : World F) (gang : List (Node F))
      → Holds w
      → Holds (place_gang e now split t w gang)
  unfolding place_gang perform
  place_gang-Holds t w gang p = elim (Bool-cases (ltb_ℤ (pos (length gang)) t.world_size)) [
    | inl few ↦ rw few p
    | inr enough ↦
        rw enough
          (h.closed e (task_status_to now t.id "scheduled") _ (gang_loop-Holds t _ 0 gang w p))
  ]

  assign_answer-Holds :
      (t : Task) (n : Node F) (w : World F) (r : Result (Store F))
      → Holds w
      → P (after w.store r)
      → Holds (assign_answer e now split t n w r)
  unfolding assign_answer perform
  assign_answer-Holds t n w (err x) p q = p
  assign_answer-Holds t n w (ok s) p q = h.closed e (metrics_to now n.id (one_more_task n)) s q

  assign_step-Holds :
      (t : Task) (w : World F) (o : Option (Node F))
      → Holds w
      → Holds (assign_step e now split t w o)
  unfolding assign_step perform
  assign_step-Holds t w none p = p
  assign_step-Holds t w (some n) p =
      assign_answer-Holds t n w (update_task_assignment e t.id n.id w.store) p
        (h.closed e (task_assignment_to t.id n.id) w.store p)

  pub schedule_task-Holds :
      (ns : List (Node F)) (t : Task) (w : World F)
      → Holds w
      → Holds (schedule_task e now split ns t w)
  unfolding schedule_task split_step
  schedule_task-Holds ns t w p =
      elim (Bool-cases (t.type == "split" && not (t.split_strategy == ""))) [
        | inl c ↦ rw c (elim (Bool-cases (is_queued t)) [
          | inl q ↦ rw q (split_answer-Holds t w (split w.store t) p)
          | inr q ↦ rw q p
        ])
        | inr c ↦ rw c (elim (Bool-cases (t.is_distributed && ltb_ℤ (pos 1) t.world_size)) [
          | inl g ↦ rw g (place_gang-Holds t w (find_gang_nodes t ns) p)
          | inr g ↦ rw g (assign_step-Holds t w (find_best_node t ns) p)
        ])
      ]

  chunk_answer-Holds :
      (c : TaskChunk) (n : Node F) (w : World F) (r : Result (Store F))
      → Holds w
      → P (after w.store r)
      → Holds (chunk_answer e now split c n w r)
  unfolding chunk_answer
  chunk_answer-Holds c n w (err x) p q = p
  chunk_answer-Holds c n w (ok s) p q = q

  chunk_node-Holds :
      (c : TaskChunk) (w : World F) (o : Option (Node F))
      → Holds w
      → Holds (chunk_node e now split c w o)
  unfolding chunk_node perform
  chunk_node-Holds c w none p = p
  chunk_node-Holds c w (some n) p =
      chunk_answer-Holds c n w (update_chunk_assignment e c.id n.id w.store) p
        (h.closed e (chunk_assignment_to c.id n.id) w.store p)

  chunk_parent_node-Holds :
      (ns : List (Node F)) (c : TaskChunk) (w : World F) (r : Result Task)
      → Holds w
      → Holds (chunk_parent_node e now split ns c w r)
  unfolding chunk_parent_node
  chunk_parent_node-Holds ns c w (err x) p = p
  chunk_parent_node-Holds ns c w (ok t) p = chunk_node-Holds c w (find_best_node t ns) p

  schedule_all-Holds :
      (ts : List Task) (cs : List TaskChunk) (w : World F) (ns : List (Node F))
      → Holds w
      → Holds (schedule_all e now split ts cs w ns)
  unfolding schedule_all schedule_chunks schedule_tasks schedule_chunk
  schedule_all-Holds ts cs w ns p = elim (Bool-cases (is_empty ns)) [
    | inl z ↦ rw z p
    | inr z ↦ rw z (
        for_each-keeps Holds _ cs _ (λ c v q. chunk_parent_node-Holds ns c v _ q)
          (for_each-keeps Holds _ ts w (schedule_task-Holds ns) p))
  ]

  with_nodes-Holds :
      (ts : List Task) (cs : List TaskChunk) (w : World F) (r : Result (List (Node F)))
      → Holds w
      → Holds (with_nodes e now split ts cs w r)
  unfolding with_nodes
  with_nodes-Holds ts cs w (err x) p = p
  with_nodes-Holds ts cs w (ok ns) p = schedule_all-Holds ts cs w ns p

  with_tasks-Holds :
      (w : World F) (r : Result (List Task)) → Holds w → Holds (with_tasks e now split w r)
  unfolding with_tasks
  with_tasks-Holds w (err x) p = p
  with_tasks-Holds w (ok ts) p =
      elim (Bool-cases (is_empty ts && is_empty (or_empty (get_queued_chunks e w.store)))) [
        | inl z ↦ rw z p
        | inr z ↦ rw z (with_nodes-Holds ts _ w _ p)
      ]

  -- What every call of the store keeps, a cycle keeps.
  pub schedule_cycle-Holds : (w : World F) → Holds w → Holds (schedule_cycle e now split w)
  unfolding schedule_cycle
  schedule_cycle-Holds w p = with_tasks-Holds w _ p
