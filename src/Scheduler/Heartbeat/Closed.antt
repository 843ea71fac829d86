-- ===== src/Scheduler/Heartbeat/Closed.antt =====
-- A heartbeat check writes through the calls of the store only.
use project_constellation.Prelude.{
  ℕ, pos, ltb_ℤ, ◌==◌, String, List, for_each-keeps, Bool-cases, inl, inr, Float,
}
use project_constellation.State.Model.{Node, Task}
use project_constellation.State.Engine.{Engine, Store, Result, ok, err}
use project_constellation.State.Valid.{
  IsClosed, perform, task_retry_of, task_result_to, node_status_to,
}
use project_constellation.Scheduler.Events.{World}
use project_constellation.Scheduler.Heartbeat.{
  is_lost, retries_exhausted, reschedule_task, reschedule_tasks, with_running,
  reschedule_node_tasks, announce_lost, check_node, check_nodes, with_listed, check_heartbeats,
}

module _ {F : Type 0} (P : Store F → Type 0) (h : IsClosed P) (e : Engine) (now : ℕ) where
  reschedule_task-Holds :
      (i : String) (t : Task) (w : World F) → P w.store → P (reschedule_task e now i t w).store
  unfolding reschedule_task perform
  reschedule_task-Holds i t w p = elim (Bool-cases (t.assigned_node == i)) [
    | inr elsewhere ↦ rw elsewhere p
    | inl here ↦ rw here (elim (Bool-cases (ltb_ℤ t.retry_count t.retry_max)) [
      | inl c ↦ rw c (h.closed e (task_retry_of t.id) w.store p)
      | inr c ↦ rw c (h.closed e (task_result_to now t.id (pos 1) retries_exhausted) w.store p)
    ])
  ]

  with_running-Holds :
      (i : String) (w : World F) (r : Result (List Task × ℕ))
      → P w.store
      → P (with_running e now i w r).store
  unfolding with_running reschedule_tasks
  with_running-Holds i w (err x) p = p
  with_running-Holds i w (ok (ts, total)) p =
      for_each-keeps (λ v. P v.store) _ ts w (reschedule_task-Holds i) p

  check_node-Holds : (n : Node F) (w : World F) → P w.store → P (check_node e now n w).store
  unfolding check_node announce_lost reschedule_node_tasks perform
  check_node-Holds n w p = elim (Bool-cases (is_lost now n)) [
    | inl lost ↦
        rw lost (with_running-Holds n.id _ _ (h.closed e (node_status_to n.id "offline") w.store p))
    | inr heard ↦ rw heard p
  ]

  with_listed-Holds :
      ⦃fl : Float F⦄ (w : World F) (r : Result (List (Node F)))
      → P w.store
      → P (with_listed e now w r).store
  unfolding with_listed check_nodes
  with_listed-Holds w (err x) p = p
  with_listed-Holds w (ok ns) p = for_each-keeps (λ v. P v.store) _ ns w check_node-Holds p

  -- What every call of the store keeps, a heartbeat check keeps.
  pub check_heartbeats-Holds :
      ⦃fl : Float F⦄ (w : World F) → P w.store → P (check_heartbeats e now w).store
  unfolding check_heartbeats
  check_heartbeats-Holds w p = with_listed-Holds w _ p
