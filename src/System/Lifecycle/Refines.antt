-- ===== src/System/Lifecycle/Refines.antt =====
-- The controller as a whole against the life of a task: every event makes one move.
use project_constellation.Prelude.{ℕ, ◌≡◌, refl, for_each, String, List, [], ◌∷◌, some, Float}
use project_constellation.Prelude.Rows.{IsUnique}
use project_constellation.State.Model.{Task}
use project_constellation.State.Engine.{Engine}
use project_constellation.State.Valid.{IsValid}
use project_constellation.State.Tasks.Updates.{task_row}
use project_constellation.Scheduler.Events.{World}
use project_constellation.Scheduler.Cycle.Turns
use project_constellation.Scheduler.Cycle.Turns.{Outcome}
use project_constellation.Scheduler.Cycle.Outcomes.{schedule_cycle-Outcome}
use project_constellation.Scheduler.Heartbeat.Rows
use project_constellation.Scheduler.Heartbeat.Rows.{Rescheduled, check_heartbeats-Rescheduled}
use project_constellation.Api.Closed.Admin.{
  grpc_heartbeat-Keeps, handle_cluster_destroy-Keeps, handle_cluster_init-Keeps,
  handle_create_user-Keeps, handle_delete_node-Keeps, handle_delete_user-Keeps, handle_login-Keeps,
  handle_node_join-Keeps, handle_reserve_node-Keeps, handle_unreserve_node-Keeps,
  handle_update_node_status-Keeps,
}
use project_constellation.System.{
  Setting, Event, Happening, react, history, cycle, check, submit, cancel, retry, pull, result,
  new_user, remove_user, login, join, node_status, remove_node, reserve, unreserve, beat, init,
  destroy,
}
use project_constellation.System.Valid.{react-Holds}
use project_constellation.State.Valid.Calls.{perform-IsValid}
use project_constellation.System.Lifecycle.{
  Move, Lives, stays-Lives, stays, assigned, ganged, splits, split_fails, rescheduled, exhausted,
}
use project_constellation.System.Lifecycle.Aside.{SameTasks-IsClosedAside}
use project_constellation.System.Lifecycle.Added.{handle_submit_task-Lives}
use project_constellation.System.Lifecycle.Requests.{
  handle_cancel_task-Move, handle_retry_task-Move,
}
use project_constellation.System.Lifecycle.Reports.{
  handle_task_result-Move, handle_get_pending_tasks-Move,
}

module _ {F : Type 0} ⦃fl : Float F⦄ (x : Setting F) (e : Engine) (now : ℕ) where
  Outcome-Move : {nodes : List _} {t t' : Task} → Outcome e now x.split nodes t t' → Move now t t'
  Outcome-Move (Turns.waits h) = stays h
  Outcome-Move (Turns.placed n q f h) = assigned n.id q h
  Outcome-Move (Turns.ganged q f h) = ganged q h
  Outcome-Move (Turns.splits q h) = splits q h
  Outcome-Move (Turns.split_fails m q h) = split_fails m q h

  Rescheduled-Move : {P : String → Type 0} {t t' : Task} → Rescheduled now P t t' → Move now t t'
  Rescheduled-Move (Rows.stays h) = stays h
  Rescheduled-Move (Rows.retried r p l h) = rescheduled r l h
  Rescheduled-Move (Rows.exhausted r p l h) = exhausted _ r l h

  module _ (w : World F) (j : String) (t : Task) (r : task_row j w.store ≡ some t) where
    SameTasks-Lives : (ts : List Task) → ts ≡ w.store.tasks → Lives now j t ts
    SameTasks-Lives ts h = stays-Lives now j t _ (rw h r)

    -- Where task ids are unique, no event takes a task's row away, and what it makes of the row is
    -- one of the moves: the row stays; a queued task is assigned, scheduled as a gang, split, or
    -- fails to be split; a scheduled one starts; a running one is queued again while it has retries
    -- left, or fails without one; one that is not completed, failed or cancelled is cancelled; a
    -- failed or cancelled one is queued again; and any task gets the result of a report.
    pub react-Move :
        (a : Event F)
        → IsUnique (λ q. q.id) w.store.tasks
        → (t' : Task) × (task_row j (react x e now a w).store ≡ some t') × Move now t t'
    unfolding react
    react-Move cycle u =
        let p = schedule_cycle-Outcome e now x.split w j t u r in (p.0, p.1, Outcome-Move p.2)
    react-Move check u =
        let p = check_heartbeats-Rescheduled e now w j t u r in (p.0, p.1, Rescheduled-Move p.2)
    react-Move (submit uuid body) u = handle_submit_task-Lives j t e now uuid x.scan body w r
    react-Move (cancel i) u = handle_cancel_task-Move e now j t i w r
    react-Move (retry i) u = handle_retry_task-Move e now j t i w r
    react-Move (pull i) u = handle_get_pending_tasks-Move e now j t i w u r
    react-Move (result i body) u = handle_task_result-Move e now j t i body w r
    react-Move (new_user uuid body) u = SameTasks-Lives _ (
        (handle_create_user-Keeps _ (SameTasks-IsClosedAside w.store.tasks) e now x.sha256 uuid
            body).kept
          w refl)
    react-Move (remove_user name) u = SameTasks-Lives _ (
        (handle_delete_user-Keeps _ (SameTasks-IsClosedAside w.store.tasks) e now x.sha256
            name).kept
          w refl)
    react-Move (login body) u = SameTasks-Lives _ (
        (handle_login-Keeps _ (SameTasks-IsClosedAside w.store.tasks) e now x.sha256 x.jwt
            body).kept
          w refl)
    react-Move (join uuid body) u = SameTasks-Lives _ (
        (handle_node_join-Keeps _ (SameTasks-IsClosedAside w.store.tasks) e now x.jwt uuid
            body).kept
          w refl)
    react-Move (node_status i body) u = SameTasks-Lives _ (
        (handle_update_node_status-Keeps _ (SameTasks-IsClosedAside w.store.tasks) e now i
            body).kept
          w refl)
    react-Move (remove_node i) u =
        SameTasks-Lives _
          ((handle_delete_node-Keeps _ (SameTasks-IsClosedAside w.store.tasks) e now i).kept w refl)
    react-Move (reserve i) u =
        SameTasks-Lives _
          ((handle_reserve_node-Keeps _ (SameTasks-IsClosedAside w.store.tasks) e i).kept w refl)
    react-Move (unreserve i) u =
        SameTasks-Lives _
          ((handle_unreserve_node-Keeps _ (SameTasks-IsClosedAside w.store.tasks) e i).kept w refl)
    react-Move (beat i) u =
        SameTasks-Lives _
          ((grpc_heartbeat-Keeps _ (SameTasks-IsClosedAside w.store.tasks) e now i).kept w refl)
    react-Move (init ids body) u = SameTasks-Lives _ (
        (handle_cluster_init-Keeps _ (SameTasks-IsClosedAside w.store.tasks) e now x.machine ids
            x.sha256 body).kept
          w refl)
    react-Move destroy u =
        SameTasks-Lives _ (
          (handle_cluster_destroy-Keeps _ (SameTasks-IsClosedAside w.store.tasks) e now).kept w
            refl)

-- Moves one after the other, each at its time.
pub data Moves : Task → Task → Type 0 where
  ended : (t : Task) → Moves t t
  moved : {t t' t'' : Task} (now : ℕ) → Move now t t' → Moves t' t'' → Moves t t''

module _ {F : Type 0} ⦃fl : Float F⦄ (x : Setting F) (j : String) where
  -- Let requests, scheduling cycles and heartbeat checks run one after the other, in any order, each
  -- to its end before the next one begins. Then, from a well-formed database on, a task that is in the
  -- database stays in it, and its row goes from move to move.
  pub history-Moves :
      (hs : List (Happening F)) (w : World F) (t : Task)
      → IsValid w.store
      → task_row j w.store ≡ some t
      → (t' : Task) × (task_row j (history x hs w).store ≡ some t') × Moves t t'
  unfolding history for_each
  history-Moves [] w t v r = (t, r, ended t)
  history-Moves (a ∷ hs) w t v r =
      let p = react-Move x a.engine a.now w j t r a.event v.tasks_valid.0 in
      let q =
        history-Moves hs (react x a.engine a.now a.event w) p.0
          (react-Holds IsValid (record { closed = perform-IsValid }) x a.engine a.now a.event w v)
          p.1 in
      (q.0, q.1, moved a.now p.2 q.2)
