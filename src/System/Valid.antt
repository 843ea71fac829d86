-- ===== src/System/Valid.antt =====
-- What every call of the store keeps, every request and every run of a loop keeps.
use project_constellation.Prelude.{ℕ, Float}
use project_constellation.State.Engine.{Engine, Store}
use project_constellation.State.Valid.{IsClosed, IsClosed-IsClosedAside}
use project_constellation.Scheduler.Events.{World}
use project_constellation.Scheduler.Cycle.Closed.{schedule_cycle-Holds}
use project_constellation.Scheduler.Heartbeat.Closed.{check_heartbeats-Holds}
use project_constellation.Api.Closed.Calls.{create_task-InsertKeeps}
use project_constellation.Api.Closed.{
  handle_cancel_task-Keeps, handle_get_pending_tasks-Keeps, handle_retry_task-Keeps,
  handle_submit_task-Keeps, handle_task_result-Keeps,
}
use project_constellation.Api.Closed.Admin.{
  grpc_heartbeat-Keeps, handle_cluster_destroy-Keeps, handle_cluster_init-Keeps,
  handle_create_user-Keeps, handle_delete_node-Keeps, handle_delete_user-Keeps, handle_login-Keeps,
  handle_node_join-Keeps, handle_reserve_node-Keeps, handle_unreserve_node-Keeps,
  handle_update_node_status-Keeps,
}
use project_constellation.System.{
  Setting, Event, react, cycle, check, submit, cancel, retry, pull, result, new_user, remove_user,
  login, join, node_status, remove_node, reserve, unreserve, beat, init, destroy,
}

module _ {F : Type 0} ⦃fl : Float F⦄ (P : Store F → Type 0) (h : IsClosed P) (x : Setting F) where
  -- What every call of the store keeps, every event keeps.
  pub react-Holds :
      (e : Engine) (now : ℕ) (a : Event F) (w : World F) → P w.store → P (react x e now a w).store
  unfolding react
  react-Holds e now cycle w p = schedule_cycle-Holds P h e now x.split w p
  react-Holds e now check w p = check_heartbeats-Holds P h e now w p
  react-Holds e now (submit uuid body) w p =
      (handle_submit_task-Keeps P (IsClosed-IsClosedAside h) e (create_task-InsertKeeps P h e) now
          uuid x.scan body).kept
        w p
  react-Holds e now (cancel i) w p = (handle_cancel_task-Keeps P h e now i).kept w p
  react-Holds e now (retry i) w p = (handle_retry_task-Keeps P h e now i).kept w p
  react-Holds e now (pull i) w p = (handle_get_pending_tasks-Keeps P h e now i).kept w p
  react-Holds e now (result i body) w p = (handle_task_result-Keeps P h e now i body).kept w p
  react-Holds e now (new_user uuid body) w p =
      (handle_create_user-Keeps P (IsClosed-IsClosedAside h) e now x.sha256 uuid body).kept w p
  react-Holds e now (remove_user name) w p =
      (handle_delete_user-Keeps P (IsClosed-IsClosedAside h) e now x.sha256 name).kept w p
  react-Holds e now (login body) w p =
      (handle_login-Keeps P (IsClosed-IsClosedAside h) e now x.sha256 x.jwt body).kept w p
  react-Holds e now (join uuid body) w p =
      (handle_node_join-Keeps P (IsClosed-IsClosedAside h) e now x.jwt uuid body).kept w p
  react-Holds e now (node_status i body) w p =
      (handle_update_node_status-Keeps P (IsClosed-IsClosedAside h) e now i body).kept w p
  react-Holds e now (remove_node i) w p =
      (handle_delete_node-Keeps P (IsClosed-IsClosedAside h) e now i).kept w p
  react-Holds e now (reserve i) w p =
      (handle_reserve_node-Keeps P (IsClosed-IsClosedAside h) e i).kept w p
  react-Holds e now (unreserve i) w p =
      (handle_unreserve_node-Keeps P (IsClosed-IsClosedAside h) e i).kept w p
  react-Holds e now (beat i) w p =
      (grpc_heartbeat-Keeps P (IsClosed-IsClosedAside h) e now i).kept w p
  react-Holds e now (init ids body) w p =
      (handle_cluster_init-Keeps P (IsClosed-IsClosedAside h) e now x.machine ids x.sha256
          body).kept
        w p
  react-Holds e now destroy w p =
      (handle_cluster_destroy-Keeps P (IsClosed-IsClosedAside h) e now).kept w p
