-- ===== src/Scheduler/Cycle/Outcomes.antt =====
-- A whole cycle, task by task.
use project_constellation.Prelude.{
  ℕ, ◌≡◌, refl, inl, inr, true, ◌&&◌, String, List, [], ◌∷◌, some, Bool-cases, Float, All-select,
  select, select_sound, sort_by,
}
use project_constellation.Prelude.Sort.{sort_by-All}
use project_constellation.Prelude.Rows.{IsUnique, IsUnique-select, IsUnique-sort_by, row_of-All}
use project_constellation.State.Model.{Node, Task, TaskChunk}
use project_constellation.State.Engine.{Engine, Store, Result, ok, err, Statement, Table}
use project_constellation.State.Tasks.{is_queued, queue_order, get_queued_tasks}
use project_constellation.State.Tasks.Updates.{task_row}
use project_constellation.State.Chunks.{get_queued_chunks}
use project_constellation.State.Nodes.{get_online_worker_nodes}
use project_constellation.Scheduler.Events.{World}
use project_constellation.Scheduler.Cycle.{
  Split, schedule_task, schedule_tasks, schedule_all, schedule_cycle, with_tasks, with_nodes,
  is_empty, or_empty,
}
use project_constellation.Scheduler.Cycle.Rows.{schedule_chunks-tasks}
use project_constellation.Scheduler.Cycle.Turns.{Outcome, waits, schedule_task-Turn}
use project_constellation.Scheduler.Loop.{Became, IsReading, for_each-Became}

module _ {F : Type 0} ⦃fl : Float F⦄ (e : Engine) (now : ℕ) (split : Store F → Task → Split) where
  -- What GetQueuedTasks returns: queued tasks, each once, each as its row stands.
  abbrev pub IsQueue : List Task → World F → Type 0
  IsQueue = IsReading (λ q. is_queued q ≡ true)

  pub get_queued_tasks-IsQueue :
      (w : World F)
      → IsUnique (λ q. q.id) w.store.tasks
      → IsQueue (sort_by queue_order (select is_queued w.store.tasks)) w
  get_queued_tasks-IsQueue w u = record {
    passed = sort_by-All queue_order _ _ (select_sound is_queued w.store.tasks);
    unique = IsUnique-sort_by (λ q. q.id) queue_order _ (IsUnique-select (λ q. q.id) is_queued _ u);
    current = sort_by-All queue_order _ _ (
        All-select (λ q. task_row q.id w.store ≡ some q) is_queued _
          (row_of-All (λ q. q.id) w.store.tasks u));
  }

  schedule_all-Outcome :
      (ts : List Task) (cs : List TaskChunk) (w : World F) (nodes : List (Node F)) (j : String)
      (t : Task)
      → IsQueue ts w
      → task_row j w.store ≡ some t
      → Became (Outcome e now split nodes) j t (schedule_all e now split ts cs w nodes)
  unfolding schedule_all schedule_tasks
  schedule_all-Outcome ts cs w [] j t q r = (t, r, waits refl)
  schedule_all-Outcome ts cs w (n ∷ ns) j t q r =
      let (t', row, o) =
        for_each-Became (Outcome e now split (n ∷ ns)) (λ x. waits refl) (λ x. is_queued x ≡ true)
          (schedule_task e now split (n ∷ ns))
          (λ x h v. schedule_task-Turn e now split (n ∷ ns) x h v) ts w j t q r in
      (
        t',
        rw
            (schedule_chunks-tasks e now split (n ∷ ns) cs
              (schedule_tasks e now split (n ∷ ns) ts w))
            row,
        o,
      )

  with_nodes-Outcome :
      (ts : List Task) (cs : List TaskChunk) (w : World F) (nodes : Result (List (Node F)))
      (j : String) (t : Task)
      → IsQueue ts w
      → task_row j w.store ≡ some t
      → Became (Outcome e now split (or_empty nodes)) j t (with_nodes e now split ts cs w nodes)
  unfolding with_nodes
  with_nodes-Outcome ts cs w (err x) j t q r = (t, r, waits refl)
  with_nodes-Outcome ts cs w (ok nodes) j t q r = schedule_all-Outcome ts cs w nodes j t q r

  with_tasks-Outcome :
      (ts : List Task) (w : World F) (j : String) (t : Task)
      → IsQueue ts w
      → task_row j w.store ≡ some t
      → Became
          (Outcome e now split (or_empty (get_online_worker_nodes e w.store)))
          j
          t
          (with_tasks e now split w (ok ts))
  unfolding with_tasks
  with_tasks-Outcome ts w j t q r =
      let cs = or_empty (get_queued_chunks e w.store) in
      elim (Bool-cases (is_empty ts && is_empty cs)) [
        | inl nothing ↦ rw nothing (t, r, waits refl)
        | inr some_work ↦
            rw some_work (with_nodes-Outcome ts cs w (get_online_worker_nodes e w.store) j t q r)
      ]

  -- Where task ids are unique, a cycle keeps the row of every task, and changes a row only in one of
  -- these ways, and only if the task was submitted or queued: it is assigned to the node that
  -- findBestNode picks for it among the nodes online at the start of the cycle, and is scheduled; it
  -- is distributed, as many nodes as its world size can take it, and it is scheduled; it is split;
  -- or it fails, with exit code 1, because the split failed. All this holds whichever statements the
  -- database refuses.
  pub schedule_cycle-Outcome :
      (w : World F) (j : String) (t : Task)
      → IsUnique (λ q. q.id) w.store.tasks
      → task_row j w.store ≡ some t
      → (t' : Task) × (task_row j (schedule_cycle e now split w).store ≡ some t')
        × Outcome e now split (or_empty (get_online_worker_nodes e w.store)) t t'
  unfolding schedule_cycle get_queued_tasks
  schedule_cycle-Outcome w j t u r =
      elim (Bool-cases (e.fault (Statement.select Table.tasks "queued"))) [
        | inl down ↦ rw (down) (unfold with_tasks in (t, r, waits refl))
        | inr up ↦ rw up (
            with_tasks-Outcome (sort_by queue_order (select is_queued w.store.tasks)) w j t
              (get_queued_tasks-IsQueue w u) r)
      ]
