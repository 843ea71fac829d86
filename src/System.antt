-- ===== src/System.antt =====
-- The controller as a whole: a world, and what happens to it, in any order. The locks of the store
-- make each of its calls one step. Here a request, a scheduling cycle and a heartbeat check run one after
-- the other, each to its end. In the program they also run at the same time, and then the calls of one
-- come between those of another; such a run is only a sequence of calls, `run` of
-- State/Valid.
pub mod Valid
pub mod Lifecycle
pub mod Router
use project_constellation.Prelude.{ℕ, String, List, Option, for_each, Float}
use project_constellation.State.Model.{Task}
use project_constellation.State.Engine.{Engine, Store}
use project_constellation.Scheduler.Events.{World}
use project_constellation.Scheduler.Cycle.{Split, schedule_cycle}
use project_constellation.Scheduler.Heartbeat.{check_heartbeats}
use project_constellation.Api.Handler.{Handler}
use project_constellation.Api.Keeps.{world_of}
use project_constellation.Api.Tasks.{
  SubmitTaskRequest, handle_cancel_task, handle_retry_task, handle_submit_task,
}
use project_constellation.Api.Agents.{
  TaskResultRequest, handle_get_pending_tasks, handle_task_result,
}
use project_constellation.Api.Auth.{Jwt}
use project_constellation.Api.Users.{
  CreateUserRequest, LoginRequest, handle_create_user, handle_delete_user, handle_login,
}
use project_constellation.Api.Nodes.{
  NodeJoinRequest, UpdateNodeStatusRequest, grpc_heartbeat, handle_delete_node, handle_node_join,
  handle_reserve_node, handle_unreserve_node, handle_update_node_status,
}
use project_constellation.Api.Cluster.{Machine, Uuids, handle_cluster_destroy, handle_cluster_init}

-- What the controller relies on: the libraries, and the machine.
pub record Setting (F : Type 0) : Type 0 where
  pub jwt : Jwt
  pub sha256 : String → String
  pub scan : String → F × String
  pub machine : Machine
  pub split : Store F → Task → Split

-- A request that may write, or a tick of one of the scheduler's two loops. Texts of fresh UUIDs
-- come with the requests that take one.
pub data Event (F : Type 0) : Type 0 where
  cycle check : Event F
  submit : String → Option SubmitTaskRequest → Event F
  cancel retry pull : String → Event F
  result : String → Option TaskResultRequest → Event F
  new_user : String → Option CreateUserRequest → Event F
  remove_user : String → Event F
  login : Option LoginRequest → Event F
  join : String → Option (NodeJoinRequest F) → Event F
  node_status : String → Option (UpdateNodeStatusRequest F) → Event F
  remove_node reserve unreserve beat : String → Event F
  init : Uuids → Option String → Event F
  destroy : Event F

module _ {F : Type 0} ⦃fl : Float F⦄ (x : Setting F) (e : Engine) (now : ℕ) where
  unfoldable pub react : Event F → World F → World F
  react cycle w = schedule_cycle e now x.split w
  react check w = check_heartbeats e now w
  react (submit uuid body) w = world_of (handle_submit_task e now uuid x.scan body w)
  react (cancel i) w = world_of (handle_cancel_task e now i w)
  react (retry i) w = world_of (handle_retry_task e now i w)
  react (pull i) w = world_of (handle_get_pending_tasks e now i w)
  react (result i body) w = world_of (handle_task_result e now i body w)
  react (new_user uuid body) w = world_of (handle_create_user e now x.sha256 uuid body w)
  react (remove_user name) w = world_of (handle_delete_user e now x.sha256 name w)
  react (login body) w = world_of (handle_login e now x.sha256 x.jwt body w)
  react (join uuid body) w = world_of (handle_node_join e now x.jwt uuid body w)
  react (node_status i body) w = world_of (handle_update_node_status e now i body w)
  react (remove_node i) w = world_of (handle_delete_node e now i w)
  react (reserve i) w = world_of (handle_reserve_node e i w)
  react (unreserve i) w = world_of (handle_unreserve_node e i w)
  react (beat i) w = world_of (grpc_heartbeat e now i w)
  react (init ids body) w = world_of (handle_cluster_init e now x.machine ids x.sha256 body w)
  react destroy w = world_of (handle_cluster_destroy e now w)

-- Any sequence of events, each at its time and under what the database refuses just then.
pub record Happening (F : Type 0) : Type 0 where
  pub engine : Engine
  pub now : ℕ
  pub event : Event F

unfoldable pub history :
    {F : Type 0} ⦃fl : Float F⦄ → Setting F → List (Happening F) → World F → World F
history x hs w = for_each (λ h v. react x h.engine h.now h.event v) hs w
