-- ===== src/Scheduler/Heartbeat/Offline.antt =====
-- What checkHeartbeats does to the rows of the nodes that were not heard of in time.

use project_constellation.Prelude.{
  ℕ, ◌≡◌, refl, ◌∙◌, inl, inr, true, false, not, ◌&&◌, ◌==◌, String, List, [], ◌∷◌, eq_iff, arith,
  Bool-cases, All, update_where, any, subst, and_true, for_each, for_each-same, for_each-keeps,
  Float,
}
use project_constellation.State.Model.{Node, NodeRow, Task}
use project_constellation.State.Engine.{Engine, Result, ok, err, Statement, Table, node_check}
use project_constellation.State.Tasks.{update_task_result, increment_task_retry}
use project_constellation.State.Nodes.{node_key, list_nodes, set_node_status, update_node_status}
use project_constellation.Scheduler.Events.{World}
use project_constellation.Scheduler.Heartbeat.{
  is_lost, reschedule_task, reschedule_tasks, with_running, reschedule_node_tasks, announce_lost,
  check_node, check_nodes, check_heartbeats, with_listed,
}
use project_constellation.Scheduler.Heartbeat.Rows.{listed}

-- A row of another id, or one whose status is offline.
pub data IsOffline {F : Type 0} (i : String) (r : NodeRow F) : Type 0 where
  other : (r.id == i) ≡ false → IsOffline i r
  offline : r.status ≡ "offline" → IsOffline i r

-- The rows pass the CHECKs of the table.
abbrev pub Checked : {F : Type 0} → List (NodeRow F) → Type 0
Checked ns = All (λ r. node_check r ≡ true) ns

module _ {F : Type 0} (i : String) where
  abbrev mark : List (NodeRow F) → List (NodeRow F)
  mark ns = update_where (node_key i) (set_node_status "offline") ns

  set_node_status-Checked :
      (r : NodeRow F) → node_check r ≡ true → node_check (set_node_status "offline" r) ≡ true
  set_node_status-Checked r h = ground arith

  -- The CHECKs let the mark pass, and still hold.
  mark_passes :
      (ns : List (NodeRow F))
      → Checked ns
      → any (λ r. node_key i r && not (node_check (set_node_status "offline" r))) ns ≡ false
  mark_passes [] h = refl
  mark_passes (r ∷ rs) h = ground (arith, set_node_status-Checked r h.0, mark_passes rs h.1)

  mark-Checked : (ns : List (NodeRow F)) → Checked ns → Checked (mark ns)
  mark-Checked [] h = tt
  mark-Checked (r ∷ rs) h = elim (Bool-cases (r.id == i)) [
    | inl e ↦ rw e (set_node_status-Checked r h.0, mark-Checked rs h.1)
    | inr e ↦ rw e (h.0, mark-Checked rs h.1)
  ]

  -- The mark takes effect, and leaves what is offline offline.
  mark-IsOffline : (ns : List (NodeRow F)) → All (IsOffline i) (mark ns)
  mark-IsOffline [] = tt
  mark-IsOffline (r ∷ rs) = elim (Bool-cases (r.id == i)) [
    | inl e ↦ rw e (offline refl, mark-IsOffline rs)
    | inr e ↦ rw e (other e, mark-IsOffline rs)
  ]

  mark-stays :
      (j : String) (ns : List (NodeRow F)) → All (IsOffline j) ns → All (IsOffline j) (mark ns)
  mark-stays j [] h = tt
  mark-stays j (r ∷ rs) h = elim (Bool-cases (r.id == i)) [
    | inl e ↦ rw e (offline refl, mark-stays j rs h.1)
    | inr e ↦ rw e (h.0, mark-stays j rs h.1)
  ]

module _ {F : Type 0} (e : Engine) (now : ℕ) where
  -- Moving tasks does not touch the nodes.
  reschedule_task-nodes :
      (i : String) (t : Task) (w : World F)
      → (reschedule_task e now i t w).store.nodes ≡ w.store.nodes
  unfolding reschedule_task increment_task_retry update_task_result
  reschedule_task-nodes i t w = ground arith

  with_running-nodes :
      (i : String) (w : World F) (r : Result (List Task × ℕ))
      → (with_running e now i w r).store.nodes ≡ w.store.nodes
  unfolding with_running reschedule_tasks
  with_running-nodes i w (err x) = refl
  with_running-nodes i w (ok (ts, total)) =
      for_each-same (λ v. v.store.nodes) (reschedule_task e now i) ts w (reschedule_task-nodes i)

  reschedule_node_tasks-nodes :
      (i : String) (w : World F) → (reschedule_node_tasks e now i w).store.nodes ≡ w.store.nodes
  unfolding reschedule_node_tasks
  reschedule_node_tasks-nodes i w = with_running-nodes i w _

  module _ (sound : (st : Statement) → e.fault st ≡ false) where
    announce_lost-nodes :
        (n : Node F) (w : World F)
        → Checked w.store.nodes
        → (announce_lost e now n w).store.nodes ≡ mark n.id w.store.nodes
    unfolding announce_lost update_node_status
    announce_lost-nodes n w h =
        rw (sound (Statement.update Table.nodes n.id), mark_passes n.id w.store.nodes h)

    check_node-nodes :
        (n : Node F) (w : World F)
        → Checked w.store.nodes
        → is_lost now n ≡ true
        → (check_node e now n w).store.nodes ≡ mark n.id w.store.nodes
    unfolding check_node
    check_node-nodes n w h lost =
        rw lost
          (reschedule_node_tasks-nodes n.id (announce_lost e now n w) ∙ announce_lost-nodes n w h)

    check_node-Checked :
        (n : Node F) (w : World F)
        → Checked w.store.nodes
        → Checked (check_node e now n w).store.nodes
    check_node-Checked n w h = elim (Bool-cases (is_lost now n)) [
      | inl lost ↦ rw (check_node-nodes n w h lost) (mark-Checked n.id w.store.nodes h)
      | inr heard ↦ unfold check_node in rw heard h
    ]

    check_node-IsOffline :
        (j : String) (n : Node F) (w : World F)
        → Checked w.store.nodes
        → All (IsOffline j) w.store.nodes
        → All (IsOffline j) (check_node e now n w).store.nodes
    check_node-IsOffline j n w h o = elim (Bool-cases (is_lost now n)) [
      | inl lost ↦ rw (check_node-nodes n w h lost) (mark-stays n.id j w.store.nodes o)
      | inr heard ↦ unfold check_node in rw heard o
    ]

    -- What is offline stays so to the end of the loop.
    check_nodes-stays :
        (j : String) (ns : List (Node F)) (w : World F)
        → Checked w.store.nodes
        → All (IsOffline j) w.store.nodes
        → All (IsOffline j) (for_each (check_node e now) ns w).store.nodes
    check_nodes-stays j ns w h o =
        (for_each-keeps (λ v. Checked v.store.nodes × All (IsOffline j) v.store.nodes)
          (check_node e now) ns w
          (λ n v k. (check_node-Checked n v k.0, check_node-IsOffline j n v k.0 k.1)) (h, o)).1

    check_nodes-IsOffline :
        (j : String) (ns : List (Node F)) (w : World F)
        → Checked w.store.nodes
        → any (λ n. n.id == j && is_lost now n) ns ≡ true
        → All (IsOffline j) (for_each (check_node e now) ns w).store.nodes
    unfolding for_each
    check_nodes-IsOffline j [] w h found = absurd (cc found)
    check_nodes-IsOffline j (n ∷ ns) w h found = elim (Bool-cases (n.id == j && is_lost now n)) [
      | inr later ↦
          check_nodes-IsOffline j ns (check_node e now n w) (check_node-Checked n w h)
            (rw later at found)
      | inl first ↦
          let (is_j, lost) = and_true (n.id == j) (is_lost now n) first in
          check_nodes-stays j ns (check_node e now n w) (check_node-Checked n w h) (
            rw (check_node-nodes n w h lost) (
              subst (λ i. All (IsOffline i) (mark n.id w.store.nodes)) ((eq_iff n.id j).0 is_j)
                (mark-IsOffline n.id w.store.nodes)))
    ]

module _ {F : Type 0} ⦃fl : Float F⦄ (e : Engine) (now : ℕ) where
  with_listed-IsOffline :
      (w : World F) (j : String) (r : Result (List (Node F)))
      → ((st : Statement) → e.fault st ≡ false)
      → Checked w.store.nodes
      → any (λ n. n.id == j && is_lost now n) (listed r) ≡ true
      → All (IsOffline j) (with_listed e now w r).store.nodes
  unfolding with_listed check_nodes
  with_listed-IsOffline w j (ok ns) sound h found = check_nodes-IsOffline e now sound j ns w h found
  with_listed-IsOffline w j (err x) sound h found = absurd (cc found)

  -- Where no statement fails and the rows of the nodes pass their CHECKs, a heartbeat check leaves
  -- every row offline whose id a listed node has that was not heard of in time.
  pub check_heartbeats-IsOffline :
      (w : World F) (j : String)
      → ((st : Statement) → e.fault st ≡ false)
      → Checked w.store.nodes
      → any (λ n. n.id == j && is_lost now n) (listed (list_nodes e w.store)) ≡ true
      → All (IsOffline j) (check_heartbeats e now w).store.nodes
  unfolding check_heartbeats check_nodes
  check_heartbeats-IsOffline w j sound h found =
      with_listed-IsOffline w j (list_nodes e w.store) sound h found
