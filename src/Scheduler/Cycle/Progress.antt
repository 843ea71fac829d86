-- ===== src/Scheduler/Cycle/Progress.antt =====
-- A scheduling cycle of a database that refuses nothing schedules every task that has a node.
use project_constellation.Prelude.{
  ℕ, pos, ltb_ℤ, ◌≡◌, refl, ap, ◌∙◌, inl, inr, Bool, true, false, not, ◌&&◌, ◌||◌, ◌==◌, String,
  List, [], ◌∷◌, some, some_inj, any, select, sort_by, Bool-cases, Float, arith,
}
use project_constellation.Prelude.Sort.{insert_by}
use project_constellation.Prelude.Rows.{row_of}
use project_constellation.State.Model.{Node, Task, TaskChunk}
use project_constellation.State.Engine.{Engine, Store, Result, ok, err, Statement, Table}
use project_constellation.State.Valid.{IsValid}
use project_constellation.State.Valid.Calls.{perform-IsValid}
use project_constellation.State.Tasks.{is_queued, queue_order, get_queued_tasks, set_assignment}
use project_constellation.State.Tasks.Updates.{task_row}
use project_constellation.State.Tasks.Open.{IsOpen, update_task_assignment-row}
use project_constellation.State.Chunks.{get_queued_chunks}
use project_constellation.State.Nodes.{get_online_worker_nodes, update_node_live_metrics}
use project_constellation.Scheduler.Placement.{find_best_node, find_loop}
use project_constellation.Scheduler.Events.{World}
use project_constellation.Scheduler.Cycle.{
  Split, assign_answer, assign_step, schedule_task, schedule_tasks, schedule_all, schedule_cycle,
  with_tasks, with_nodes, or_empty,
}
use project_constellation.Scheduler.Cycle.Rows.{schedule_chunks-tasks}
use project_constellation.Scheduler.Cycle.Turns.{Outcome, waits, schedule_task-Turn}
use project_constellation.Scheduler.Cycle.Outcomes.{IsQueue, get_queued_tasks-IsQueue}
use project_constellation.Scheduler.Cycle.Closed.{schedule_task-Holds}
use project_constellation.Scheduler.Loop.{for_each-own}

-- A task that is placed on one node as it is.
pub record IsSingle (t : Task) : Type 0 where
  pub queued : is_queued t ≡ true
  pub whole : (t.type == "split" && not (t.split_strategy == "")) ≡ false
  pub alone : (t.is_distributed && ltb_ℤ (pos 1) t.world_size) ≡ false

any-insert_by :
    (p : Task → Bool) (le : Task → Task → Bool) (t : Task) (ts : List Task)
    → any p (insert_by le t ts) ≡ (p t || any p ts)
any-insert_by p le t [] = refl
any-insert_by p le t (u ∷ us) = ground (arith, any-insert_by p le t us)

any-sort_by :
    (p : Task → Bool) (le : Task → Task → Bool) (ts : List Task) → any p (sort_by le ts) ≡ any p ts
unfolding sort_by
any-sort_by p le [] = refl
any-sort_by p le (t ∷ ts) =
    any-insert_by p le t (sort_by le ts) ∙ ap (p t ||◌) (any-sort_by p le ts)

any-select :
    (j : String) (t : Task) (ts : List Task)
    → row_of (λ q. q.id) j ts ≡ some t
    → is_queued t ≡ true
    → any (λ q. q.id == j) (select is_queued ts) ≡ true
any-select j t [] r q = absurd (cc r)
any-select j t (u ∷ us) r q = elim (Bool-cases (u.id == j)) [
  | inl b ↦
      let it : u ≡ t = some_inj (rw b at r) in
      let ready : is_queued u ≡ true = ap is_queued it ∙ q in rw (ready, b) refl
  | inr b ↦
      let later = any-select j t us (rw b at r) q in
      elim (Bool-cases (is_queued u)) [ inl c ↦ rw (c, b) later | inr c ↦ rw c later ]
]

module _ {F : Type 0} ⦃fl : Float F⦄ (e : Engine) (now : ℕ) (split : Store F → Task → Split)
    (o : IsOpen e) (t : Task) (single : IsSingle t) (n : Node F) where
  nobody : find_best_node {F = F} t [] ≡ some n → ⊥
  unfolding find_best_node find_loop
  nobody h = cc

  -- The turn of the task assigns it.
  schedule_task-row :
      (nodes : List (Node F)) (w : World F)
      → find_best_node t nodes ≡ some n
      → IsValid w.store
      → task_row t.id w.store ≡ some t
      → task_row t.id (schedule_task e now split nodes t w).store ≡ some (set_assignment n.id t)
  unfolding schedule_task assign_step
  schedule_task-row nodes w best v r =
      let (s', made, row) = update_task_assignment-row e o t.id t w.store v r n.id in
      rw (single.whole, single.alone, best, made)
        (unfold assign_answer in unfold update_node_live_metrics in row)

  schedule_tasks-row :
      (nodes : List (Node F)) (ts : List Task) (w : World F)
      → find_best_node t nodes ≡ some n
      → IsValid w.store
      → IsQueue e now split ts w
      → any (λ q. q.id == t.id) ts ≡ true
      → task_row t.id w.store ≡ some t
      → task_row t.id (schedule_tasks e now split nodes ts w).store ≡ some (set_assignment n.id t)
  unfolding schedule_tasks
  schedule_tasks-row nodes ts w best v q m r =
      for_each-own (Outcome e now split nodes) (λ x. waits refl) (λ x. is_queued x ≡ true)
        (schedule_task e now split nodes) (λ x h u. schedule_task-Turn e now split nodes x h u)
        (λ u. IsValid u.store)
        (λ x u i.
          schedule_task-Holds IsValid (record { closed = perform-IsValid }) e now split nodes x u i)
        t.id t (set_assignment n.id t) (λ u i s. schedule_task-row nodes u best i s) ts w q v m r

  schedule_all-row :
      (nodes : List (Node F)) (ts : List Task) (cs : List TaskChunk) (w : World F)
      → find_best_node t nodes ≡ some n
      → IsValid w.store
      → IsQueue e now split ts w
      → any (λ q. q.id == t.id) ts ≡ true
      → task_row t.id w.store ≡ some t
      → task_row t.id (schedule_all e now split ts cs w nodes).store ≡ some (set_assignment n.id t)
  unfolding schedule_all
  schedule_all-row [] ts cs w best v q m r = absurd (nobody best)
  schedule_all-row (k ∷ ks) ts cs w best v q m r =
      ap (row_of (λ x. x.id) t.id)
        (schedule_chunks-tasks e now split (k ∷ ks) cs (schedule_tasks e now split (k ∷ ks) ts w))
      ∙ schedule_tasks-row (k ∷ ks) ts w best v q m r

  -- In a well-formed database that refuses nothing, a cycle assigns every queued task that is neither
  -- split nor distributed, and for which findBestNode finds a node among those online at its start,
  -- to this node, and the task is scheduled, whatever the other tasks are.
  pub schedule_cycle-row :
      (w : World F)
      → IsValid w.store
      → task_row t.id w.store ≡ some t
      → find_best_node t (or_empty (get_online_worker_nodes e w.store)) ≡ some n
      → task_row t.id (schedule_cycle e now split w).store ≡ some (set_assignment n.id t)
  unfolding schedule_cycle get_queued_tasks
  schedule_cycle-row w v r best =
      let ts = sort_by queue_order (select is_queued w.store.tasks) in
      let m =
        any-sort_by (λ q. q.id == t.id) queue_order (select is_queued w.store.tasks)
        ∙ any-select t.id t w.store.tasks r single.queued in
      rw (o.no_fault (Statement.select Table.tasks "queued"))
        (read ts (get_queued_tasks-IsQueue e now split w v.tasks_valid.0) m)
    where
      listed :
          (ts : List Task) (nodes : Result (List (Node F)))
          → find_best_node t (or_empty nodes) ≡ some n
          → IsQueue e now split ts w
          → any (λ q. q.id == t.id) ts ≡ true
          → task_row t.id
              (with_nodes e now split ts (or_empty (get_queued_chunks e w.store)) w nodes).store
            ≡ some (set_assignment n.id t)
      listed ts (err x) b q m = absurd (nobody b)
      listed ts (ok nodes) b q m = unfold with_nodes in schedule_all-row nodes ts _ w b v q m r

      read :
          (ts : List Task)
          → IsQueue e now split ts w
          → any (λ q. q.id == t.id) ts ≡ true
          → task_row t.id (with_tasks e now split w (ok ts)).store ≡ some (set_assignment n.id t)
      read [] q m = absurd (cc m)
      read (x ∷ xs) q m =
          unfold with_tasks in listed (x ∷ xs) (get_online_worker_nodes e w.store) best q m
