-- ===== src/Cli/Session.antt =====
-- A command from the terminal to the controller's store and back. The errors' texts, boxes and tables
-- are left out, and of a handler's response only the status is read. The URL library and what the
-- router answers where no handler of the API is called are parameters.
pub mod Cancelling
use project_constellation.Prelude.{
  ℕ, String, List, [], ◌∷◌, Option, none, some, concat, ◌==◌, if◌then◌else◌, Float,
}
use project_constellation.State.Engine.{Engine}
use project_constellation.Scheduler.Events.{World}
use project_constellation.Api.Handler.{
  Reply, refused, answered, panicked, Out, reply, internal_error,
}
use project_constellation.Api.Keeps.{world_of}
use project_constellation.Api.Auth.{Credentials}
use project_constellation.Api.Cluster.{Uuids}
use project_constellation.System.{Setting}
use project_constellation.System.Router.{Request, serve}
use project_constellation.Cli.{
  Body, no_fields, HttpCall, call_of, Response, do_request, Command, run, tasks_list, nodes_list,
  status, pool, preflight, leave, tasks_info, tasks_cancel, tasks_retry, tasks_logs, nodes_info,
  nodes_activate, nodes_deactivate, nodes_drain, nodes_remove, login, init, destroy, join,
}
use project_constellation.Cli.Talking.{request_of}

pub data Line : Type 0 where
  succeeded failed : String → Line

-- What a command that changes a task or a node prints of what doRequest gives.
abbrev pub report_line : String → Option Body → List Line
report_line done none = failed "Failed" ∷ []
report_line done (some answer) = succeeded done ∷ []

unfoldable pub report : Command → Option Body → List Line
report (tasks_cancel i) r = report_line (concat "Task " (concat i " cancelled")) r
report (tasks_retry i) r = report_line (concat "Task " (concat i " requeued for retry")) r
report (nodes_activate i) r = report_line (concat "Node " (concat i " activated")) r
report (nodes_deactivate i) r = report_line (concat "Node " (concat i " deactivated")) r
report (nodes_drain i) r = report_line (concat "Node " (concat i " draining")) r
report (nodes_remove i) r = report_line (concat "Node " (concat i " removed")) r
report (destroy confirm) r = report_line "Cluster destroyed" r
report _ r = []

-- What the server finds in the path of a request that is part of its URL: the path without a query
-- and a fragment, and the query's `token`.
pub record Location : Type 0 where
  pub path : String
  pub token : String

-- Outside the program: what net/http makes of a path, none where http.NewRequest refuses the URL; and
-- what comes back for a method and a path that no handler of the API has: the page of the dashboard that
-- NotFound serves, or the library's own answer.
pub record Web : Type 0 where
  pub locate : String → Option Location
  pub other_page : String → String → Response

-- The token that doRequest sends, as the middleware splits it, and the query's.
unfoldable pub sent : String → String → Credentials
sent token query_token = record {
  authorization = if token == "" then [] else "Bearer" ∷ token ∷ [];
  query_token = query_token;
}

abbrev pub code_of : {R : Type 0} → Reply R → ℕ
code_of (refused code) = code
code_of (answered code r) = code
code_of panicked = internal_error

abbrev pub response_of : {F : Type 0} → Out F (Unit {0}) (Unit {0}) → Response
response_of o = record { status = code_of (reply o).0; object = some no_fields; raw = "" }

module _ {F : Type 0} ⦃fl : Float F⦄ (x : Setting F) (web : Web) (e : Engine) (now : ℕ)
    (ids : Uuids) (uuid : String) (token : String) where
  -- The response to a request that the router has matched, or not, and the controller after it.
  unfoldable pub answer : HttpCall → Location → Option (Request F) → World F → Response × World F
  answer c l none w = (web.other_page c.method l.path, w)
  answer c l (some q) w =
      let out = serve x e now (sent token l.token) q w in (response_of out, world_of out)

  unfoldable pub located : Command → HttpCall → Option Location → World F → List Line × World F
  unfolding answer
  located k c none w = (report k (do_request none), w)
  located k c (some l) w =
      let back = answer c l (request_of ids uuid c.method l.path c.body) w in
      (report k (do_request (some back.0)), back.1)

  unfoldable pub exchanged : Command → Option HttpCall → World F → List Line × World F
  unfolding located
  exchanged k none w = ([], w)
  exchanged k (some c) w = located k c (web.locate c.path) w

  unfoldable pub run_command : Command → World F → List Line × World F
  unfolding exchanged
  run_command k w = exchanged k (call_of k) w
