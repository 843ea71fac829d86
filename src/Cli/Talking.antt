-- ===== src/Cli/Talking.antt =====
-- How a request of the command line client finds its handler: the table of routes in
-- controller/api/router.go, and the match of a path against their patterns as the router library
-- documents it. A name in braces stands for a part of the path that is not empty and holds no slash.
use project_constellation.Prelude.{
  ◌||◌, ◌==◌, String, List, [], ◌∷◌, Option, none, some, if◌then◌else◌, Float,
}
use project_constellation.Prelude.Text.{split_on}
use project_constellation.Api.Cluster.{Uuids}
use project_constellation.System.Router.{Request}
use project_constellation.System.Router as Router
use project_constellation.Cli.{Body}
use project_constellation.Cli.Bodies.{
  ◌>>=◌, read_submission, read_login, read_name, read_status, read_join,
}

-- A method, a pattern, and the request that the values of the names and the body make.
pub record Route (F : Type 0) : Type 0 where
  pub method : String
  pub pattern : String
  pub request : List String → Option Body → Request F

-- The parts of a path that the names of a pattern stand for, if it matches.
unfoldable pub path_params : List String → List String → Option (List String)
path_params [] [] = some []
path_params [] (part ∷ parts) = none
path_params (p ∷ ps) [] = none
path_params (p ∷ ps) (part ∷ parts) =
    let rest = path_params ps parts in
    if p == "{id}" || p == "{username}"
    then (if part == "" then none else (do params ← rest; some (part ∷ params)))
    else (if p == part then rest else none)

-- A route that matches makes its request; after one that does not come the others.
unfoldable pub take_route :
    {F : Type 0}
    → Option (List String)
    → Route F
    → Option Body
    → Option (Request F)
    → Option (Request F)
take_route none r body rest = rest
take_route (some params) r body rest = some (r.request params body)

unfoldable pub first_route :
    {F : Type 0} → List (Route F) → String → List String → Option Body → Option (Request F)
unfolding path_params take_route
first_route [] method parts body = none
first_route (r ∷ rs) method parts body =
    let rest = first_route rs method parts body in
    if r.method == method
    then take_route (path_params (split_on b'/' r.pattern) parts) r body rest
    else rest

module _ {F : Type 0} ⦃fl : Float F⦄ (ids : Uuids) (uuid : String) where
  -- A route without a name, with one, and one that reads the body.
  abbrev plain : String → String → Request F → Route F
  plain method pattern q = record { method = method; pattern = pattern; request = λ params body. q }

  abbrev at_first : (String → Request F) → List String → Request F
  at_first f [] = f ""
  at_first f (i ∷ params) = f i

  abbrev named : String → String → (String → Request F) → Route F
  named method pattern f = record {
    method = method;
    pattern = pattern;
    request = λ params body. at_first f params;
  }

  abbrev with_body : String → String → (Option Body → Request F) → Route F
  with_body method pattern f = record {
    method = method;
    pattern = pattern;
    request = λ params body. f body;
  }

  -- The routes of the API. The client never sends the bodies of a report and of a new user.
  unfoldable pub routes : List (Route F)
  routes =
      plain "GET" "/health" Router.health_check
      ∷ with_body "POST" "/api/v1/cluster/init" (λ b. Router.init ids (b >>= read_name))
      ∷ with_body "POST" "/api/v1/nodes/join" (λ b. Router.join uuid (b >>= read_join))
      ∷ with_body "POST" "/api/v1/users/login" (λ b. Router.login (b >>= read_login))
      ∷ plain "GET" "/api/v1/cluster/status" Router.cluster_status
      ∷ plain "GET" "/api/v1/cluster/pool" Router.cluster_pool
      ∷ plain "DELETE" "/api/v1/cluster" Router.destroy
      ∷ plain "GET" "/api/v1/nodes" Router.list_nodes
      ∷ named "GET" "/api/v1/nodes/{id}" (λ i. Router.get_node i)
      ∷ named "DELETE" "/api/v1/nodes/{id}" (λ i. Router.delete_node i)
      ∷ record {
        method = "PUT";
        pattern = "/api/v1/nodes/{id}/status";
        request = λ params b. at_first (λ i. Router.node_status i (b >>= read_status)) params;
      }
      ∷ named "POST" "/api/v1/nodes/{id}/reserve" (λ i. Router.reserve i)
      ∷ named "DELETE" "/api/v1/nodes/{id}/reserve" (λ i. Router.unreserve i)
      ∷ named "GET" "/api/v1/nodes/{id}/tasks/pending" (λ i. Router.pull i)
      ∷ with_body "POST" "/api/v1/tasks" (λ b. Router.submit uuid (b >>= read_submission))
      ∷ plain "GET" "/api/v1/tasks" (Router.list_tasks "" "" "" "")
      ∷ named "GET" "/api/v1/tasks/{id}" (λ i. Router.get_task i)
      ∷ named "DELETE" "/api/v1/tasks/{id}" (λ i. Router.cancel i)
      ∷ named "POST" "/api/v1/tasks/{id}/retry" (λ i. Router.retry i)
      ∷ named "POST" "/api/v1/tasks/{id}/result" (λ i. Router.result i none)
      ∷ named "GET" "/api/v1/tasks/{id}/logs" (λ i. Router.logs i)
      ∷ plain "GET" "/api/v1/users" Router.list_users
      ∷ plain "POST" "/api/v1/users" (Router.new_user uuid none)
      ∷ named "DELETE" "/api/v1/users/{username}" (λ i. Router.delete_user i)
      ∷ plain "GET" "/api/v1/audit" (Router.audit "")
      ∷ plain "GET" "/api/v1/analytics" Router.analytics
      ∷ []

  -- The request that a method, a path and a body make, if a route of the API has them.
  unfoldable pub request_of : String → String → Option Body → Option (Request F)
  unfolding routes first_route
  request_of method path body = first_route routes method (split_on b'/' path) body
