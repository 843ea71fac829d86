-- ===== src/Examples/Data.antt =====
-- A cluster for the examples: a controller, a large and a small worker, and tasks.
use project_constellation.Prelude.{ℕ, ◌*◌, ◌^◌, ℤ, pos, negsuc, String, List, [], ◌∷◌, false}
use project_constellation.State.Model.{Node, NodeRow, NodeLiveMetrics, Task}
use project_constellation.State.Engine.{Engine, Store}
use project_constellation.Scheduler.Events.{World}

-- Foreign keys off, as SQLite has it by default, and no failure.
abbrev pub sound_engine : Engine
sound_engine = record { foreign_keys = false; fault = λ _. false }

abbrev pub node_row : String → String → ℤ → ℕ → NodeRow ℤ
node_row id role cores heartbeat = record {
  id = id;
  hostname = id;
  ip_address = "10.0.0.1";
  mac_address = "";
  agent_port = 9091;
  role = role;
  status = "online";
  ssh_user = "";
  ssh_port = 22;
  cpu_model = "";
  cpu_cores = cores;
  cpu_threads = cores;
  cpu_freq_mhz = pos 0;
  memory_total = pos 0;
  disk_total = pos 0;
  gpu_count = pos 0;
  gpu_memory = pos 0;
  os_name = "";
  kernel_version = "";
  arch = "";
  cluster_id = "c";
  joined_at = 0;
  last_heartbeat = heartbeat;
  last_ip_change = 0;
  labels = [];
}

abbrev pub idle_metrics : NodeLiveMetrics ℤ
idle_metrics = record {
  cpu_usage = pos 0;
  memory_usage = pos 0;
  disk_usage = pos 0;
  load_avg_1 = pos 0;
  load_avg_5 = pos 0;
  load_avg_15 = pos 0;
  running_tasks = pos 0;
  uptime_seconds = pos 0;
  cpu_temperature = pos 0;
  last_update = 0;
}

abbrev pub worker : String → ℤ → Node ℤ
worker id cores = record { row = node_row id "worker" cores 0; metrics = idle_metrics }

abbrev pub workers : List (Node ℤ)
workers = worker "small" (pos 2) ∷ worker "large" (pos 8) ∷ []

abbrev pub task_of : String → String → ℤ → Task
task_of id status cores = record {
  id = id;
  name = id;
  status = status;
  type = "simple";
  split_strategy = "";
  command = "true";
  runtime = "bare";
  docker_image = "";
  cpu_required = cores;
  memory_required = pos 0;
  gpu_required = pos 0;
  gpu_memory_required = pos 0;
  priority = "normal";
  retry_max = pos 1;
  retry_count = pos 0;
  timeout_seconds = pos 0;
  submitted_by = "";
  assigned_node = "";
  target_node = "";
  exit_code = negsuc 0;
  error_message = "";
  created_at = 0;
  started_at = 0;
  completed_at = 0;
  env_vars = [];
  working_dir = "";
  input_file = "";
  output_dir = "";
  reduce_command = "";
  max_nodes = pos 0;
  chunk_size = pos 0;
  split_by = "";
  chunks = [];
  is_distributed = false;
  world_size = pos 1;
  gang_id = "";
}

abbrev pub store_of : List (NodeRow ℤ) → List Task → Store ℤ
store_of nodes tasks = record {
  clusters = [];
  nodes = nodes;
  tasks = tasks;
  task_chunks = [];
  users = [];
  audit_log = [];
  live_metrics = [];
}

-- One task waits, one runs on the small worker.
abbrev pub running_on : String → Task → Task
running_on node t = record t { status = "running"; assigned_node = node }

abbrev pub sample : World ℤ
sample = record {
  store =
      store_of
        (node_row "ctrl" "controller" (pos 4) 0
          ∷ node_row "small" "worker" (pos 2) 0
          ∷ node_row "large" "worker" (pos 8) (60 * 10 ^ 9)
          ∷ [])
        (task_of "task-a" "queued" (pos 4)
          ∷ running_on "small" (task_of "task-b" "queued" (pos 1))
          ∷ []);
  events = [];
}
