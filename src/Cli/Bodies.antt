-- ===== src/Cli/Bodies.antt =====
-- How the controller reads the objects that the command line client sends: encoding/json takes the
-- fields that the request's struct names, leaves out the others, gives a missing one its zero value
-- and refuses one of another type.
use project_constellation.Prelude.{ℕ, ℤ, pos, Float, String, List, [], Option, none, some}
use project_constellation.Cli.{Json, text, number, Body}
use project_constellation.Api.Tasks.{SubmitTaskRequest}
use project_constellation.Api.Users.{LoginRequest}
use project_constellation.Api.Nodes.{NodeJoinRequest, UpdateNodeStatusRequest}

infixl 5 ◌>>=◌
unfoldable pub ◌>>=◌ : {A B : Type 0} → Option A → (A → Option B) → Option B
none >>= f = none
some a >>= f = f a

unfoldable pub read_text : Option Json → Option String
read_text none = some ""
read_text (some (text s)) = some s
read_text (some _) = none

unfoldable pub read_number : Option Json → Option ℤ
read_number none = some (pos 0)
read_number (some (number n)) = some n
read_number (some _) = none

-- A map of environment variables, which the client never sends.
unfoldable pub read_variables : Option Json → Option (Unit {0})
read_variables none = some tt
read_variables (some v) = none

-- The body of a submission.
unfoldable pub read_submission : Body → Option SubmitTaskRequest
read_submission m = do
  name ← read_text (m "name")
  command ← read_text (m "command")
  cpu_required ← read_number (m "cpu_required")
  memory_required ← read_text (m "memory_required")
  priority ← read_text (m "priority")
  retry_max ← read_number (m "retry_max")
  timeout_seconds ← read_number (m "timeout_seconds")
  variables ← read_variables (m "env_vars")
  working_dir ← read_text (m "working_dir")
  runtime ← read_text (m "runtime")
  docker_image ← read_text (m "docker_image")
  target_node ← read_text (m "target_node")
  split_strategy ← read_text (m "split_strategy")
  input_file ← read_text (m "input_file")
  split_by ← read_text (m "split_by")
  chunk_size ← read_number (m "chunk_size")
  reduce_command ← read_text (m "reduce_command")
  max_nodes ← read_number (m "max_nodes")
  some (record {
    name = name;
    command = command;
    cpu_required = cpu_required;
    memory_required = memory_required;
    priority = priority;
    retry_max = retry_max;
    timeout_seconds = timeout_seconds;
    env_vars = [];
    working_dir = working_dir;
    runtime = runtime;
    docker_image = docker_image;
    target_node = target_node;
    split_strategy = split_strategy;
    input_file = input_file;
    split_by = split_by;
    chunk_size = chunk_size;
    reduce_command = reduce_command;
    max_nodes = max_nodes;
  })

unfoldable pub read_login : Body → Option LoginRequest
read_login m = do
  username ← read_text (m "username")
  password ← read_text (m "password")
  some (record { username = username; password = password })

-- The name of the cluster in the body of an initialisation.
unfoldable pub read_name : Body → Option String
read_name m = read_text (m "name")

-- A number without a fraction and a sign.
unfoldable pub read_port : Option Json → Option ℕ
read_port none = some 0
read_port (some (number (pos n))) = some n
read_port (some _) = none

module _ {F : Type 0} ⦃fl : Float F⦄ where
  unfoldable pub read_float : Option Json → Option F
  read_float none = some (fl.of_int (pos 0))
  read_float (some (number n)) = some (fl.of_int n)
  read_float (some _) = none

  -- The body of a status update: the client sends no metrics.
  unfoldable pub read_metrics_field : Option Json → Option (Option (List (String × F)))
  read_metrics_field none = some none
  read_metrics_field (some v) = none

  unfoldable pub read_status : Body → Option (UpdateNodeStatusRequest F)
  read_status m = do
    status ← read_text (m "status")
    metrics ← read_metrics_field (m "metrics")
    some (record { status = status; metrics = metrics })

  unfoldable pub read_join : Body → Option (NodeJoinRequest F)
  read_join m = do
    hostname ← read_text (m "hostname")
    ip_address ← read_text (m "ip_address")
    mac_address ← read_text (m "mac_address")
    agent_port ← read_port (m "agent_port")
    join_token ← read_text (m "join_token")
    cpu_model ← read_text (m "cpu_model")
    cpu_cores ← read_number (m "cpu_cores")
    cpu_threads ← read_number (m "cpu_threads")
    cpu_freq_mhz ← read_float (m "cpu_freq_mhz")
    memory_total ← read_number (m "memory_total")
    disk_total ← read_number (m "disk_total")
    os_name ← read_text (m "os_name")
    kernel_version ← read_text (m "kernel_version")
    arch ← read_text (m "arch")
    some (record {
      hostname = hostname;
      ip_address = ip_address;
      mac_address = mac_address;
      agent_port = agent_port;
      join_token = join_token;
      cpu_model = cpu_model;
      cpu_cores = cpu_cores;
      cpu_threads = cpu_threads;
      cpu_freq_mhz = cpu_freq_mhz;
      memory_total = memory_total;
      disk_total = disk_total;
      os_name = os_name;
      kernel_version = kernel_version;
      arch = arch;
    })
