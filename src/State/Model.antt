-- ===== src/State/Model.antt =====
-- The structs of controller/state/store.go, with the package's fields.
-- A time is a number of nanoseconds, and Go's zero time is 0. A field of Go type float64 has the
-- type `F`, a parameter; `int` and `int64` fields that may be negative are ℤ.
use project_constellation.Prelude.{ℕ, ℤ, Bool, String, List}

pub record Cluster : Type 0 where
  pub id : String
  pub name : String
  pub controller_host : String
  pub controller_port : ℕ
  pub grpc_port : ℕ
  pub join_token : String
  pub created_at : ℕ

-- The metrics that a heartbeat brings. They are kept in memory only.
pub record NodeLiveMetrics (F : Type 0) : Type 0 where
  pub cpu_usage : F
  pub memory_usage : F
  pub disk_usage : F
  pub load_avg_1 : F
  pub load_avg_5 : F
  pub load_avg_15 : F
  pub running_tasks : ℤ
  pub uptime_seconds : ℤ
  pub cpu_temperature : F
  pub last_update : ℕ

-- The persisted fields of `Node`: a row of the table `nodes`.
pub record NodeRow (F : Type 0) : Type 0 where
  pub id : String
  pub hostname : String
  pub ip_address : String
  pub mac_address : String
  pub agent_port : ℕ
  pub role : String
  pub status : String
  pub ssh_user : String
  pub ssh_port : ℕ
  pub cpu_model : String
  pub cpu_cores : ℤ
  pub cpu_threads : ℤ
  pub cpu_freq_mhz : F
  pub memory_total : ℤ
  pub disk_total : ℤ
  pub gpu_count : ℤ
  pub gpu_memory : ℤ
  pub os_name : String
  pub kernel_version : String
  pub arch : String
  pub cluster_id : String
  pub joined_at : ℕ
  pub last_heartbeat : ℕ
  pub last_ip_change : ℕ
  pub labels : List String

-- `Node`: a row, and the live metrics that the store attaches to it.
pub record Node (F : Type 0) : Type 0 where
  pub row : NodeRow F
  pub open row use *
  pub metrics : NodeLiveMetrics F
  pub open metrics use *

pub record TaskChunk : Type 0 where
  pub id : String
  pub parent_task_id : String
  pub chunk_index : ℕ
  pub assigned_node : String
  pub status : String
  pub input_file : String
  pub output_file : String
  pub exit_code : ℤ
  pub started_at : ℕ
  pub completed_at : ℕ

-- A row of `tasks` is a `Task` whose `chunks` are empty. A NULL in `assigned_node`, `started_at` or
-- `completed_at` is the zero value that `scanTask` reads for it.
pub record Task : Type 0 where
  pub id : String
  pub name : String
  pub status : String
  pub type : String
  pub split_strategy : String
  pub command : String
  pub runtime : String
  pub docker_image : String
  pub cpu_required : ℤ
  pub memory_required : ℤ
  pub gpu_required : ℤ
  pub gpu_memory_required : ℤ
  pub priority : String
  pub retry_max : ℤ
  pub retry_count : ℤ
  pub timeout_seconds : ℤ
  pub submitted_by : String
  pub assigned_node : String
  pub target_node : String
  pub exit_code : ℤ
  pub error_message : String
  pub created_at : ℕ
  pub started_at : ℕ
  pub completed_at : ℕ
  pub env_vars : List (String × String)
  pub working_dir : String
  pub input_file : String
  pub output_dir : String
  pub reduce_command : String
  pub max_nodes : ℤ
  pub chunk_size : ℤ
  pub split_by : String
  pub chunks : List TaskChunk
  pub is_distributed : Bool
  pub world_size : ℤ
  pub gang_id : String

pub record User : Type 0 where
  pub id : String
  pub username : String
  pub password_hash : String
  pub role : String
  pub created_at : ℕ
  pub last_login : ℕ

pub record AuditEntry : Type 0 where
  pub id : ℕ
  pub timestamp : ℕ
  pub user_id : String
  pub action : String
  pub target_type : String
  pub target_id : String
  pub details : String
