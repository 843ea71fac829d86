-- ===== src/Cli.antt =====
-- The command line client of cli/cmd: the request that each command makes, and what it does with the
-- answer. Printing is a list of lines, without the boxes and tables. The terminal, the machine and the
-- connection are what a command is given.
pub mod Bodies
pub mod Submitting
pub mod Talking
pub mod Paths
pub mod Session
use project_constellation.Prelude.{
  ℕ, ℤ, pos, ltb_ℤ, Bool, true, false, not, ◌&&◌, ◌||◌, ◌==◌, String, List, [], ◌∷◌, Option, none,
  some, concat, leb, if◌then◌else◌,
}

-- A value in a JSON object, as encoding/json reads and writes it, and an object: a Go map.
pub data Json : Type 0 where
  text : String → Json
  number : ℤ → Json
  boolean : Bool → Json

abbrev pub Body : Type 0
Body = String → Option Json

abbrev pub no_fields : Body
no_fields key = none

-- `m[key] = v`, and the same under a test.
abbrev pub put : String → Json → Body → Body
put key v m k = if k == key then some v else m k

abbrev pub put_if : Bool → String → Json → Body → Body
put_if b key v m k = if k == key then (if b then some v else m k) else m k

pub record HttpCall : Type 0 where
  pub method : String
  pub path : String
  pub body : Option Body

abbrev pub api_get : String → HttpCall
api_get path = record { method = "GET"; path = path; body = none }

abbrev pub api_delete : String → HttpCall
api_delete path = record { method = "DELETE"; path = path; body = none }

abbrev pub api_post : String → Option Body → HttpCall
api_post path body = record { method = "POST"; path = path; body = body }

abbrev pub api_put : String → Body → HttpCall
api_put path body = record { method = "PUT"; path = path; body = some body }

-- A response: its status, and its body where that is a JSON object.
pub record Response : Type 0 where
  pub status : ℕ
  pub object : Option Body
  pub raw : String

-- doRequest, for what comes back over the connection: none is an error.
unfoldable pub read_response : Response → Option Body
read_response r = elim r.object [
  | none ↦ if leb 400 r.status then none else some (put "message" (text r.raw) no_fields)
  | some fields ↦ if leb 400 r.status then none else some fields
]

unfoldable pub do_request : Option Response → Option Body
do_request none = none
do_request (some r) = read_response r

-- The value of the header Authorization, if it is set.
unfoldable pub authorization : String → Option String
authorization token = if token == "" then none else some (concat "Bearer " token)

-- The flags of `run`.
pub record RunFlags : Type 0 where
  pub cmd : String
  pub file : String
  pub name : String
  pub cpu : ℤ
  pub memory : String
  pub priority : String
  pub runtime : String
  pub docker : String
  pub retry : ℤ
  pub timeout : ℤ
  pub node : String
  pub split : String
  pub gpus : ℤ
  pub world_size : ℤ

-- The object that `run` sends.
unfoldable pub run_body : RunFlags → Body
run_body f = put_if (not (f.split == "")) "split_strategy" (text f.split) (
    put_if (not (f.node == "")) "target_node" (text f.node) (
      put_if (ltb_ℤ (pos 0) f.timeout) "timeout_seconds" (number f.timeout) (
        put_if (not (f.docker == "")) "docker_image" (text f.docker) (
          put_if (not (f.memory == "")) "memory_required" (text f.memory) (
            put_if (not (f.name == "")) "name" (text f.name) (
              put_if (ltb_ℤ (pos 1) f.world_size) "world_size" (number f.world_size) (
                put_if (ltb_ℤ (pos 1) f.world_size) "is_distributed" (boolean true) (
                  put "gpu_required" (number f.gpus) (
                    put "retry_max" (number f.retry) (
                      put "runtime" (text f.runtime) (
                        put "priority" (text f.priority) (
                          put "cpu_required" (number f.cpu)
                            (put "command" (text f.cmd) no_fields)))))))))))))

-- What `join` reports: its flags, and what it reads of the machine.
pub record JoinReport : Type 0 where
  pub controller : String
  pub token : String
  pub hostname : String
  pub cores : ℤ
  pub os : String
  pub arch : String

unfoldable pub join_body : JoinReport → Body
join_body j = put "hostname" (text j.hostname) (
    put "ip_address" (text j.hostname) (
      put "agent_port" (number (pos 9091)) (
        put "join_token" (text j.token) (
          put "cpu_model" (text j.arch) (
            put "cpu_cores" (number j.cores) (
              put "cpu_threads" (number j.cores) (
                put "memory_total" (number (pos 0)) (
                  put "disk_total" (number (pos 0))
                    (put "os_name" (text j.os) (put "arch" (text j.arch) no_fields))))))))))

pub data Command : Type 0 where
  run : RunFlags → Command
  tasks_list nodes_list status pool preflight leave : Command
  tasks_info tasks_cancel tasks_retry tasks_logs : String → Command
  nodes_info nodes_activate nodes_deactivate nodes_drain nodes_remove : String → Command
  login : String → String → Command
  init : String → Command
  -- with what is typed at the question
  destroy : String → Command
  join : JoinReport → Command

abbrev pub status_body : String → Body
status_body s = put "status" (text s) no_fields

-- The requests of the commands.
unfoldable pub run_call : RunFlags → Option HttpCall
unfolding run_body
run_call f =
    if f.cmd == "" && f.file == ""
    then none
    else some (api_post "/api/v1/tasks" (some (run_body f)))

abbrev pub tasks_list_call : HttpCall
tasks_list_call = api_get "/api/v1/tasks"

abbrev pub tasks_info_call : String → HttpCall
tasks_info_call i = api_get (concat "/api/v1/tasks/" i)

abbrev pub tasks_cancel_call : String → HttpCall
tasks_cancel_call i = api_delete (concat "/api/v1/tasks/" i)

abbrev pub tasks_retry_call : String → HttpCall
tasks_retry_call i = api_post (concat "/api/v1/tasks/" (concat i "/retry")) none

abbrev pub tasks_logs_call : String → HttpCall
tasks_logs_call i = api_get (concat "/api/v1/tasks/" (concat i "/logs"))

abbrev pub nodes_list_call : HttpCall
nodes_list_call = api_get "/api/v1/nodes"

abbrev pub nodes_info_call : String → HttpCall
nodes_info_call i = api_get (concat "/api/v1/nodes/" i)

-- `nodes activate`, `deactivate` and `drain`, with the status that they set.
abbrev pub nodes_status_call : String → String → HttpCall
nodes_status_call i s = api_put (concat "/api/v1/nodes/" (concat i "/status")) (status_body s)

abbrev pub nodes_remove_call : String → HttpCall
nodes_remove_call i = api_delete (concat "/api/v1/nodes/" i)

abbrev pub login_body : String → String → Body
login_body user password = put "username" (text user) (put "password" (text password) no_fields)

unfoldable pub login_call : String → String → Option HttpCall
login_call user password =
    if user == "" || password == ""
    then none
    else some (api_post "/api/v1/users/login" (some (login_body user password)))

abbrev pub init_body : String → Body
init_body name = put "name" (text (if name == "" then "my-cluster" else name)) no_fields

abbrev pub init_call : String → HttpCall
init_call name = api_post "/api/v1/cluster/init" (some (init_body name))

unfoldable pub destroy_call : String → Option HttpCall
destroy_call confirm =
    if not (confirm == "y") && not (confirm == "Y")
    then none
    else some (api_delete "/api/v1/cluster")

abbrev pub join_call : JoinReport → HttpCall
join_call j = api_post "/api/v1/nodes/join" (some (join_body j))

abbrev pub status_call : HttpCall
status_call = api_get "/api/v1/cluster/status"

abbrev pub pool_call : HttpCall
pool_call = api_get "/api/v1/cluster/pool"

abbrev pub preflight_call : HttpCall
preflight_call = api_get "/health"

-- The request of a command, unless it makes none.
unfoldable pub call_of : Command → Option HttpCall
call_of (run f) = run_call f
call_of tasks_list = some tasks_list_call
call_of (tasks_info i) = some (tasks_info_call i)
call_of (tasks_cancel i) = some (tasks_cancel_call i)
call_of (tasks_retry i) = some (tasks_retry_call i)
call_of (tasks_logs i) = some (tasks_logs_call i)
call_of nodes_list = some nodes_list_call
call_of (nodes_info i) = some (nodes_info_call i)
call_of (nodes_activate i) = some (nodes_status_call i "online")
call_of (nodes_deactivate i) = some (nodes_status_call i "maintenance")
call_of (nodes_drain i) = some (nodes_status_call i "draining")
call_of (nodes_remove i) = some (nodes_remove_call i)
call_of (login user password) = login_call user password
call_of (init name) = some (init_call name)
call_of (destroy confirm) = destroy_call confirm
call_of (join j) = some (join_call j)
call_of status = some status_call
call_of pool = some pool_call
call_of preflight = some preflight_call
call_of leave = none
