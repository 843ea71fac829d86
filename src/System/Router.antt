-- ===== src/System/Router.antt =====
-- The routes of controller/api/router.go: which method and path a request has, which handler answers
-- it, and which requests need a token; and the Heartbeat of controller/api/grpc_server.go, which the
-- same program serves beside them. The streams of logs and events and the files of the dashboard are
-- left out.
pub mod Guests
pub mod Strangers
use project_constellation.Prelude.{
  ℕ, Bool, true, false, String, Option, List, for_each, concat, if◌then◌else◌, Float,
}
use project_constellation.State.Engine.{Engine, Store}
use project_constellation.Scheduler.Events.{World}
use project_constellation.Api.Handler.{
  Reply, refused, answered, panicked, Out, stop, go, Handler, respond, status_ok, internal_error,
}
use project_constellation.Api.Keeps.{world_of}
use project_constellation.Api.Auth.{Claims, Credentials, require_auth}
use project_constellation.Api.Tasks.{
  SubmitTaskRequest, handle_cancel_task, handle_get_task, handle_list_tasks, handle_retry_task,
  handle_submit_task, handle_task_logs,
}
use project_constellation.Api.Agents.{
  TaskResultRequest, handle_get_pending_tasks, handle_task_result,
}
use project_constellation.Api.Users.{
  CreateUserRequest, LoginRequest, handle_create_user, handle_delete_user, handle_list_audit_log,
  handle_list_users, handle_login,
}
use project_constellation.Api.Nodes.{
  NodeJoinRequest, UpdateNodeStatusRequest, handle_delete_node, handle_get_node, handle_list_nodes,
  handle_node_join, handle_reserve_node, handle_unreserve_node, handle_update_node_status,
  grpc_heartbeat,
}
use project_constellation.Api.Cluster.{
  Uuids, handle_analytics, handle_cluster_destroy, handle_cluster_init, handle_cluster_pool,
  handle_cluster_status,
}
use project_constellation.System.{Setting}

-- A request to the API, with the parts of its path, its query and its body, or a call of Heartbeat over
-- gRPC, with the node's id.
pub data Request (F : Type 0) : Type 0 where
  health_check : Request F
  init : Uuids → Option String → Request F
  join : String → Option (NodeJoinRequest F) → Request F
  login : Option LoginRequest → Request F
  cluster_status cluster_pool destroy : Request F
  list_nodes : Request F
  get_node delete_node reserve unreserve pull : String → Request F
  node_status : String → Option (UpdateNodeStatusRequest F) → Request F
  submit : String → Option SubmitTaskRequest → Request F
  list_tasks : String → String → String → String → Request F
  get_task cancel retry logs : String → Request F
  result : String → Option TaskResultRequest → Request F
  list_users : Request F
  new_user : String → Option CreateUserRequest → Request F
  delete_user : String → Request F
  audit : String → Request F
  analytics : Request F
  beat : String → Request F

-- The requests outside the group that RequireAuth guards, and the call over gRPC, whose server checks
-- no token.
unfoldable pub is_public : {F : Type 0} → Request F → Bool
is_public health_check = true
is_public (init ids body) = true
is_public (join uuid body) = true
is_public (login body) = true
is_public (beat i) = true
is_public _ = false

-- The answer, less its value. The middleware Recoverer turns a panic into status 500.
unfoldable pub sealed : {F R : Type 0} → Out F R R → Out F (Unit {0}) (Unit {0})
sealed (stop (answered status r) w) = stop (answered status tt) w
sealed (stop (refused status) w) = stop (refused status) w
sealed (stop panicked w) = stop (refused internal_error) w
sealed (go r w) = stop (answered status_ok tt) w

module _ {F : Type 0} ⦃fl : Float F⦄ (x : Setting F) (e : Engine) (now : ℕ) where
  -- The handler of a request.
  unfoldable pub route : Request F → Handler F (Unit {0}) (Unit {0})
  unfolding sealed
  route health_check w = sealed {R = Unit {0}} (respond status_ok tt w)
  route (init ids body) w = sealed (handle_cluster_init e now x.machine ids x.sha256 body w)
  route (join uuid body) w = sealed (handle_node_join e now x.jwt uuid body w)
  route (login body) w = sealed (handle_login e now x.sha256 x.jwt body w)
  route cluster_status w = sealed (handle_cluster_status e now w)
  route cluster_pool w = sealed (handle_cluster_pool e now w)
  route destroy w = sealed (handle_cluster_destroy e now w)
  route list_nodes w = sealed (handle_list_nodes e now w)
  route (get_node i) w = sealed (handle_get_node e now i w)
  route (delete_node i) w = sealed (handle_delete_node e now i w)
  route (node_status i body) w = sealed (handle_update_node_status e now i body w)
  route (reserve i) w = sealed (handle_reserve_node e i w)
  route (unreserve i) w = sealed (handle_unreserve_node e i w)
  route (pull i) w = sealed (handle_get_pending_tasks e now i w)
  route (submit uuid body) w = sealed (handle_submit_task e now uuid x.scan body w)
  route (list_tasks status priority limit offset) w =
      sealed (handle_list_tasks e now status priority limit offset w)
  route (get_task i) w = sealed (handle_get_task e now i w)
  route (cancel i) w = sealed (handle_cancel_task e now i w)
  route (retry i) w = sealed (handle_retry_task e now i w)
  route (result i body) w = sealed (handle_task_result e now i body w)
  route (logs i) w = sealed (handle_task_logs e now i w)
  route list_users w = sealed (handle_list_users e now x.sha256 w)
  route (new_user uuid body) w = sealed (handle_create_user e now x.sha256 uuid body w)
  route (delete_user name) w = sealed (handle_delete_user e now x.sha256 name w)
  route (audit limit) w = sealed (handle_list_audit_log e now x.sha256 limit w)
  route analytics w = sealed (handle_analytics e w)
  route (beat i) w = sealed (grpc_heartbeat e now i w)

  -- A request with its credentials.
  unfoldable pub serve : Credentials → Request F → Handler F (Unit {0}) (Unit {0})
  serve c q = if is_public q then route q else require_auth x.jwt now c (λ claims. route q)

-- A request at its time, under what the database refuses just then.
pub record Visit (F : Type 0) : Type 0 where
  pub engine : Engine
  pub now : ℕ
  pub credentials : Credentials
  pub request : Request F

unfoldable pub visits : {F : Type 0} ⦃fl : Float F⦄ → Setting F → List (Visit F) → World F → World F
visits x vs w = for_each (λ v u. world_of (serve x v.engine v.now v.credentials v.request u)) vs w
