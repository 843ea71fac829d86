-- ===== src/Scheduler/Heartbeat/Rows.antt =====
-- What checkHeartbeats does to the row of each task.
use mathlib.Core.List.{Mem}
use project_constellation.Prelude.{
  ℕ, Bool, pos, ltb_ℤ, leb, ◌≡◌, refl, sym, ◌∙◌, inl, inr, true, false, ◌&&◌, ◌==◌, String, List,
  [], ◌∷◌, some, eq_iff, arith, Bool-cases, All, All-mono, All-select, select, select_sound,
  for_each, for_each-keeps, sort_by, subst, Float,
}
use project_constellation.Prelude.Sort.{sort_by-All}
use project_constellation.Prelude.Rows.{IsUnique, IsUnique-select, IsUnique-sort_by, row_of-All}
use project_constellation.State.Model.{Node, Task}
use project_constellation.State.Engine.{Engine, Result, ok, err, Statement, Table}
use project_constellation.State.Tasks.{set_retry, set_result, list_tasks, matches}
use project_constellation.State.Tasks.Updates.{
  task_row, Updated-IsUnique, increment_task_retry-Updated, update_task_result-Updated,
}
use project_constellation.State.Nodes.{list_nodes, update_node_status}
use project_constellation.Scheduler.Events.{World}
use project_constellation.Scheduler.Placement.Sound.{members}
use project_constellation.Scheduler.Loop.{Turn, idle, turn, Became, IsReading, for_each-Became}
use project_constellation.Scheduler.Heartbeat.{
  is_lost, retries_exhausted, reschedule_task, reschedule_tasks, with_running,
  reschedule_node_tasks, announce_lost, check_node, check_nodes, check_heartbeats, with_listed,
}

module _ (now : ℕ) (P : String → Type 0) where
  -- What the loss of nodes makes of a task's row, where `P` tells the ids of the lost nodes.
  pub data Rescheduled (t t' : Task) : Type 0 where
    stays : t' ≡ t → Rescheduled t t'
    retried :
        t.status ≡ "running"
        → P t.assigned_node
        → ltb_ℤ t.retry_count t.retry_max ≡ true
        → t' ≡ set_retry t
        → Rescheduled t t'
    exhausted :
        t.status ≡ "running"
        → P t.assigned_node
        → ltb_ℤ t.retry_count t.retry_max ≡ false
        → t' ≡ set_result now (pos 1) retries_exhausted t
        → Rescheduled t t'

  -- A task that does not run is left alone.
  Rescheduled-not_running :
      {t t' : Task} → (t.status == "running") ≡ false → Rescheduled t t' → t' ≡ t
  Rescheduled-not_running h (stays e) = e
  Rescheduled-not_running {t} h (retried r _ _ _) = ground (arith, eq_iff t.status "running")
  Rescheduled-not_running {t} h (exhausted r _ _ _) = ground (arith, eq_iff t.status "running")

  -- A task is moved at most once.
  pub Rescheduled-trans :
      {t t' t'' : Task} → Rescheduled t t' → Rescheduled t' t'' → Rescheduled t t''
  Rescheduled-trans {t'' = u} (stays e) r = subst (λ x. Rescheduled x u) e r
  Rescheduled-trans (retried a b c d) r = retried a b c (Rescheduled-not_running (rw d refl) r ∙ d)
  Rescheduled-trans (exhausted a b c d) r =
      exhausted a b c (Rescheduled-not_running (rw d refl) r ∙ d)

module _ {F : Type 0} (e : Engine) (now : ℕ) where
  abbrev Ids : World F → Type 0
  Ids w = IsUnique (λ q. q.id) w.store.tasks

  announce_lost-tasks :
      (n : Node F) (w : World F) → (announce_lost e now n w).store.tasks ≡ w.store.tasks
  unfolding announce_lost update_node_status
  announce_lost-tasks n w = ground arith

  -- Every round of the two loops keeps the task ids unique.
  reschedule_task-Ids :
      (i : String) (q : Task) (w : World F) → Ids w → Ids (reschedule_task e now i q w)
  unfolding reschedule_task
  reschedule_task-Ids i q w u = elim (Bool-cases (q.assigned_node == i)) [
    | inr elsewhere ↦ rw elsewhere u
    | inl here ↦ rw here (elim (Bool-cases (ltb_ℤ q.retry_count q.retry_max)) [
      | inl c ↦ rw c (Updated-IsUnique (λ t. refl) (increment_task_retry-Updated e q.id w.store) u)
      | inr c ↦ rw c (
          Updated-IsUnique (λ t. refl)
            (update_task_result-Updated e now q.id (pos 1) retries_exhausted w.store) u)
    ])
  ]

  with_running-Ids :
      (i : String) (w : World F) (r : Result (List Task × ℕ))
      → Ids w
      → Ids (with_running e now i w r)
  unfolding with_running reschedule_tasks
  with_running-Ids i w (err x) u = u
  with_running-Ids i w (ok (ts, total)) u =
      for_each-keeps Ids (reschedule_task e now i) ts w (reschedule_task-Ids i) u

  reschedule_node_tasks-Ids :
      (i : String) (w : World F) → Ids w → Ids (reschedule_node_tasks e now i w)
  unfolding reschedule_node_tasks
  reschedule_node_tasks-Ids i w u =
      with_running-Ids i w (list_tasks e "running" "" (pos 0) (pos 0) w.store) u

  check_node-Ids : (n : Node F) (w : World F) → Ids w → Ids (check_node e now n w)
  unfolding check_node
  check_node-Ids n w u = elim (Bool-cases (is_lost now n)) [
    | inr heard ↦ rw heard u
    | inl lost ↦
        rw lost (
          reschedule_node_tasks-Ids n.id (announce_lost e now n w) (rw (announce_lost-tasks n w) u))
  ]

  module _ (P : String → Type 0) where
    reschedule_task-Turn :
        (i : String)
        → P i
        → (q : Task) → q.status ≡ "running"
        → (w : World F) → Turn (Rescheduled now P) q w (reschedule_task e now i q w)
    unfolding reschedule_task
    reschedule_task-Turn i lost q run w = elim (Bool-cases (q.assigned_node == i)) [
      | inr elsewhere ↦ rw elsewhere (idle refl)
      | inl here ↦ rw here (
          let p : P q.assigned_node = subst P (sym ((eq_iff q.assigned_node i).0 here)) lost in
          elim (Bool-cases (ltb_ℤ q.retry_count q.retry_max)) [
            | inl c ↦ rw c (
                turn set_retry (λ t. refl) (increment_task_retry-Updated e q.id w.store)
                  (retried run p c refl))
            | inr c ↦ rw c (
                turn (set_result now (pos 1) retries_exhausted) (λ t. refl)
                  (update_task_result-Updated e now q.id (pos 1) retries_exhausted w.store)
                  (exhausted run p c refl))
          ])
    ]

    running_tasks : World F → List Task
    running_tasks w =
        sort_by (λ a b. leb b.created_at a.created_at)
          (select (λ t. matches "running" t.status && matches "" t.priority) w.store.tasks)

    running_tasks-IsReading :
        (w : World F) → Ids w → IsReading (λ q. q.status ≡ "running") (running_tasks w) w
    unfolding running_tasks
    running_tasks-IsReading w u =
        let p : Task → Bool = λ t. matches "running" t.status && matches "" t.priority in
        record {
          passed = sort_by-All _ _ _ (
              All-mono (select p w.store.tasks)
                (λ t h. (eq_iff t.status "running").0 (ground arith))
                (select_sound p w.store.tasks));
          unique = IsUnique-sort_by (λ q. q.id) _ _ (IsUnique-select (λ q. q.id) p _ u);
          current = sort_by-All _ _ _ (
              All-select (λ q. task_row q.id w.store ≡ some q) p _
                (row_of-All (λ q. q.id) w.store.tasks u));
        }

    reschedule_node_tasks-Became :
        (i : String)
        → P i
        → (w : World F) (j : String) (t : Task) → Ids w
        → task_row j w.store ≡ some t
        → Became (Rescheduled now P) j t (reschedule_node_tasks e now i w)
    unfolding reschedule_node_tasks list_tasks with_running reschedule_tasks running_tasks
    reschedule_node_tasks-Became i lost w j t u r =
        elim (Bool-cases (e.fault (Statement.count Table.tasks "running"))) [
          | inl down ↦ rw down (t, r, stays refl)
          | inr up ↦ elim (Bool-cases (e.fault (Statement.select Table.tasks "running"))) [
            | inl down ↦ rw (up, down) (t, r, stays refl)
            | inr up' ↦
                rw (up, up')
                  (for_each-Became (Rescheduled now P) (λ x. stays refl) (λ q. q.status ≡ "running")
                    (reschedule_task e now i) (λ q h v. reschedule_task-Turn i lost q h v)
                    (running_tasks w) w j t (running_tasks-IsReading w u) r)
          ]
        ]

    check_node-Became :
        (n : Node F)
        → (is_lost now n ≡ true → P n.id)
        → (w : World F) (j : String) (t : Task) → Ids w
        → task_row j w.store ≡ some t
        → Became (Rescheduled now P) j t (check_node e now n w)
    unfolding check_node
    check_node-Became n p w j t u r = elim (Bool-cases (is_lost now n)) [
      | inr heard ↦ rw heard (t, r, stays refl)
      | inl lost ↦
          let same = announce_lost-tasks n w in
          rw lost (
            reschedule_node_tasks-Became n.id (p lost) (announce_lost e now n w) j t (rw same u)
              (rw same r))
    ]

    check_nodes-Became :
        (ns : List (Node F)) (w : World F) (j : String) (t : Task)
        → All (λ n. is_lost now n ≡ true → P n.id) ns
        → Ids w
        → task_row j w.store ≡ some t
        → Became (Rescheduled now P) j t (for_each (check_node e now) ns w)
    unfolding for_each
    check_nodes-Became [] w j t p u r = (t, r, stays refl)
    check_nodes-Became (n ∷ ns) w j t p u r =
        let (t', r', o) = check_node-Became n p.0 w j t u r in
        let (t'', r'', o') =
          check_nodes-Became ns (check_node e now n w) j t' p.1 (check_node-Ids n w u) r' in
        (t'', r'', Rescheduled-trans now P o o')

-- `i` is the id of one of the nodes that was not heard of in time.
abbrev pub IsLost : {F : Type 0} → ℕ → List (Node F) → String → Type 0
IsLost {F} now nodes i = (n : Node F) × Mem n nodes × (is_lost now n ≡ true) × (n.id ≡ i)

abbrev pub listed : {F : Type 0} → Result (List (Node F)) → List (Node F)
listed (ok ns) = ns
listed (err x) = []

module _ {F : Type 0} ⦃fl : Float F⦄ (e : Engine) (now : ℕ) where
  IsLost-members :
      (nodes ns : List (Node F))
      → All (λ n. Mem n nodes) ns
      → All (λ n. is_lost now n ≡ true → IsLost now nodes n.id) ns
  IsLost-members nodes ns h = All-mono ns (λ n m lost. (n, m, lost, refl)) h

  with_listed-Became :
      (w : World F) (r : Result (List (Node F))) (j : String) (t : Task)
      → IsUnique (λ q. q.id) w.store.tasks
      → task_row j w.store ≡ some t
      → Became (Rescheduled now (IsLost now (listed r))) j t (with_listed e now w r)
  unfolding with_listed check_nodes
  with_listed-Became w (err x) j t u row = (t, row, stays refl)
  with_listed-Became w (ok ns) j t u row =
      check_nodes-Became e now (IsLost now ns) ns w j t (IsLost-members ns ns (members ns)) u row

  -- Where task ids are unique, a heartbeat check keeps the row of every task, and changes a row only
  -- if the task was running on a node that was not heard of in time. While the task has retries
  -- left it is queued again, with one more retry and no node; without one it fails with exit code 1.
  -- A task is moved at most once. All this holds whichever statements the database refuses.
  pub check_heartbeats-Rescheduled :
      (w : World F) (j : String) (t : Task)
      → IsUnique (λ q. q.id) w.store.tasks
      → task_row j w.store ≡ some t
      → (t' : Task) × (task_row j (check_heartbeats e now w).store ≡ some t')
        × Rescheduled now (IsLost now (listed (list_nodes e w.store))) t t'
  unfolding check_heartbeats
  check_heartbeats-Rescheduled w j t u r = with_listed-Became w (list_nodes e w.store) j t u r
