-- ===== src/Api/Closed/Admin.antt =====
-- The handlers of users, nodes and the cluster keep what every call keeps that does not write to the
-- table of tasks.
use project_constellation.Prelude.{
  ℕ, List, for_each-keeps, if◌then◌else◌, Float, String, Option, none, some, Bool, true, false,
}
use project_constellation.State.Engine.{new_state, Engine, Store, ok}
use project_constellation.State.Valid.{IsClosedAside}
use project_constellation.State.Model.{Cluster, Node, User}
use project_constellation.Api.Handler.{attempt}
use project_constellation.Api.Keeps.{Keeps, CallKeeps, Keeps-attempt}
use project_constellation.Api.Closed.Calls.{
  handler_rules, delete_node-CallKeeps, update_node_live_metrics-CallKeeps, create_user-CallKeeps,
}
use project_constellation.Api.Users.{
  refuse_known, or_unauthorized, signed, create_user_steps, login_steps, handle_create_user,
  handle_delete_user, handle_login, CreateUserRequest, LoginRequest,
}
use project_constellation.State.Clusters.{create_user}
use project_constellation.State.Nodes.{update_node_heartbeat, update_node_status}
use project_constellation.Api.Auth.{Jwt}
use project_constellation.Api.Nodes.{
  read_metrics, or_not_found, join_steps, keep_metrics, status_steps, handle_node_join,
  handle_delete_node, handle_update_node_status, handle_reserve_node, handle_unreserve_node,
  grpc_heartbeat, NodeJoinRequest, UpdateNodeStatusRequest,
}
use project_constellation.Api.Cluster.{
  refuse_existing, init_steps, delete_nodes, handle_cluster_init, handle_cluster_destroy, Machine,
  Uuids,
}

module _ {F : Type 0} (P : Store F → Type 0) (h : IsClosedAside P) (e : Engine) where
  refuse_known-Keeps :
      {R : Type 0} (now : ℕ) (sha256 : String → String) (o : Option User)
      → Keeps {R = R} P (refuse_known {F = F} e now sha256 o)
  unfolding refuse_known
  refuse_known-Keeps now sha256 none = search handler_rules
  refuse_known-Keeps now sha256 (some u) = search handler_rules

  create_user_steps-Keeps :
      (now : ℕ) (sha256 : String → String) (uuid : String) (req : CreateUserRequest)
      → Keeps P (create_user_steps {F = F} e now sha256 uuid req)
  unfolding create_user_steps
  create_user_steps-Keeps now sha256 uuid req = search (handler_rules, refuse_known-Keeps) depth 20

  pub handle_create_user-Keeps :
      (now : ℕ) (sha256 : String → String) (uuid : String) (body : Option CreateUserRequest)
      → Keeps P (handle_create_user {F = F} e now sha256 uuid body)
  unfolding handle_create_user
  handle_create_user-Keeps now sha256 uuid body = search (handler_rules, create_user_steps-Keeps)

  pub handle_delete_user-Keeps :
      (now : ℕ) (sha256 : String → String) (name : String)
      → Keeps P (handle_delete_user {F = F} e now sha256 name)
  unfolding handle_delete_user
  handle_delete_user-Keeps now sha256 name = search handler_rules depth 20

  or_unauthorized-Keeps :
      {R : Type 0} (now : ℕ) (sha256 : String → String) (o : Option User)
      → Keeps {R = R} P (or_unauthorized {F = F} e now sha256 o)
  unfolding or_unauthorized
  or_unauthorized-Keeps now sha256 none = search handler_rules
  or_unauthorized-Keeps now sha256 (some u) = search handler_rules

  signed-Keeps :
      (now : ℕ) (sha256 : String → String) (u : User) (o : Option String)
      → Keeps P (signed {F = F} e now sha256 u o)
  unfolding signed
  signed-Keeps now sha256 u none = search handler_rules
  signed-Keeps now sha256 u (some token) = search handler_rules

  login_steps-Keeps :
      (now : ℕ) (sha256 : String → String) (jwt : Jwt) (req : LoginRequest)
      → Keeps P (login_steps {F = F} e now sha256 jwt req)
  unfolding login_steps
  login_steps-Keeps now sha256 jwt req =
      search (handler_rules, or_unauthorized-Keeps, signed-Keeps) depth 20

  pub handle_login-Keeps :
      (now : ℕ) (sha256 : String → String) (jwt : Jwt) (body : Option LoginRequest)
      → Keeps P (handle_login {F = F} e now sha256 jwt body)
  unfolding handle_login
  handle_login-Keeps now sha256 jwt body = search (handler_rules, login_steps-Keeps)

  pub handle_reserve_node-Keeps : (i : String) → Keeps P (handle_reserve_node {F = F} e i)
  unfolding handle_reserve_node
  handle_reserve_node-Keeps i = search handler_rules

  pub handle_unreserve_node-Keeps : (i : String) → Keeps P (handle_unreserve_node {F = F} e i)
  unfolding handle_unreserve_node
  handle_unreserve_node-Keeps i = search handler_rules

  pub grpc_heartbeat-Keeps : (now : ℕ) (i : String) → Keeps P (grpc_heartbeat {F = F} e now i)
  unfolding grpc_heartbeat
  grpc_heartbeat-Keeps now i = search handler_rules

module _ {F : Type 0} ⦃fl : Float F⦄ (P : Store F → Type 0) (h : IsClosedAside P) (e : Engine) where
  or_not_found-Keeps :
      {R : Type 0} (now : ℕ) (o : Option Cluster) → Keeps {R = R} P (or_not_found {F = F} e now o)
  unfolding or_not_found
  or_not_found-Keeps now none = search handler_rules
  or_not_found-Keeps now (some c) = search handler_rules

  join_steps-Keeps :
      (now : ℕ) (jwt : Jwt) (uuid : String) (req : NodeJoinRequest F)
      → Keeps P (join_steps e now jwt uuid req)
  unfolding join_steps
  join_steps-Keeps now jwt uuid req = search (handler_rules, or_not_found-Keeps) depth 20

  pub handle_node_join-Keeps :
      (now : ℕ) (jwt : Jwt) (uuid : String) (body : Option (NodeJoinRequest F))
      → Keeps P (handle_node_join e now jwt uuid body)
  unfolding handle_node_join
  handle_node_join-Keeps now jwt uuid body = search (handler_rules, join_steps-Keeps)

  pub handle_delete_node-Keeps :
      (now : ℕ) (i : String) → Keeps P (handle_delete_node {F = F} e now i)
  unfolding handle_delete_node
  handle_delete_node-Keeps now i = search handler_rules depth 20

  keep_metrics-Keeps :
      {R : Type 0} (now : ℕ) (i : String) (o : Option (List (String × F)))
      → Keeps {R = R} P (keep_metrics {F = F} e now i o)
  unfolding keep_metrics
  keep_metrics-Keeps now i none = search handler_rules
  keep_metrics-Keeps now i (some ms) =
      Keeps-attempt P _ (update_node_live_metrics-CallKeeps P h e now i (read_metrics ms))

  status_call-CallKeeps :
      (b : Bool) (now : ℕ) (i status : String)
      → CallKeeps P (if b then update_node_heartbeat e now i else update_node_status e i status)
  status_call-CallKeeps true now i status = search handler_rules
  status_call-CallKeeps false now i status = search handler_rules

  status_steps-Keeps :
      (now : ℕ) (i : String) (req : UpdateNodeStatusRequest F) → Keeps P (status_steps e now i req)
  unfolding status_steps
  status_steps-Keeps now i req =
      search (handler_rules, keep_metrics-Keeps, status_call-CallKeeps) depth 20

  pub handle_update_node_status-Keeps :
      (now : ℕ) (i : String) (body : Option (UpdateNodeStatusRequest F))
      → Keeps P (handle_update_node_status e now i body)
  unfolding handle_update_node_status
  handle_update_node_status-Keeps now i body = search (handler_rules, status_steps-Keeps)

  refuse_existing-Keeps :
      {R : Type 0} (now : ℕ) (o : Option Cluster)
      → Keeps {R = R} P (refuse_existing {F = F} e now o)
  unfolding refuse_existing
  refuse_existing-Keeps now none = search handler_rules
  refuse_existing-Keeps now (some c) = search handler_rules

  create_user-Keeps :
      {R : Type 0} (now : ℕ) (uuid : String) (u : User)
      → Keeps {R = R} P (attempt (λ s. new_state (create_user e now uuid u s)))
  create_user-Keeps now uuid u = Keeps-attempt P _ (create_user-CallKeeps P h e now uuid u)

  init_steps-Keeps :
      (now : ℕ) (m : Machine) (ids : Uuids) (sha256 : String → String) (name : String)
      → Keeps P (init_steps {F = F} e now m ids sha256 name)
  unfolding init_steps
  init_steps-Keeps now m ids sha256 name =
      search (handler_rules, refuse_existing-Keeps, create_user-Keeps) depth 20

  pub handle_cluster_init-Keeps :
      (now : ℕ) (m : Machine) (ids : Uuids) (sha256 : String → String) (body : Option String)
      → Keeps P (handle_cluster_init {F = F} e now m ids sha256 body)
  unfolding handle_cluster_init
  handle_cluster_init-Keeps now m ids sha256 body = search (handler_rules, init_steps-Keeps)

  delete_nodes-CallKeeps :
      (now : ℕ) (ns : List (Node F)) → CallKeeps P (λ s. ok (delete_nodes e now ns s))
  unfolding delete_nodes
  delete_nodes-CallKeeps now ns = record {
    call_kept = λ s p.
        for_each-keeps P _ ns s (λ n v q. (delete_node-CallKeeps P h e n.id).call_kept v q) p;
  }

  pub handle_cluster_destroy-Keeps : (now : ℕ) → Keeps P (handle_cluster_destroy {F = F} e now)
  unfolding handle_cluster_destroy
  handle_cluster_destroy-Keeps now =
      search (handler_rules, or_not_found-Keeps, delete_nodes-CallKeeps) depth 20
