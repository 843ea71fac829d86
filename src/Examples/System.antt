-- ===== src/Examples/System.antt =====
-- The theorems on the whole controller, at the example's cluster: a task is submitted, scheduled,
-- pulled, reported and cancelled too late.
use project_constellation.Prelude.{
  ℕ, ℤ, pos, ◌≡◌, refl, String, List, [], ◌∷◌, none, some, inl, inr,
}
use project_constellation.State.Model.{Cluster, Task}
use project_constellation.State.Valid.{IsValid}
use project_constellation.State.Tasks.Updates.{task_row}
use project_constellation.Scheduler.Cycle.{split_failed}
use project_constellation.Api.Agents.{TaskResultRequest}
use project_constellation.Api.Auth.{token_of}
use project_constellation.Api.Nodes.{NodeJoinRequest}
use project_constellation.Scheduler.Events.{World}
use project_constellation.System.{
  Setting, Event, Happening, react, history, cycle, check, cancel, pull, result,
}
use project_constellation.System.Router.{Request, Visit, visits, submit, cancel, join, beat}
use project_constellation.System.Router.Strangers.{visits-Untouched}
use project_constellation.System.Router.Guests.{Untouched}
use project_constellation.State.Engine.{Engine}
use project_constellation.State.Valid.{Write, run, task_status_to, task_assignment_to}
use project_constellation.System.Lifecycle.Orders.{Ordered, run-Ordered}
use project_constellation.System.Lifecycle.{Move}
use project_constellation.System.Lifecycle.Refines.{Moves, react-Move, history-Moves}
use project_constellation.Examples.Fixed.{hundredths}
use project_constellation.Examples.Data.{sound_engine, sample, task_of}

abbrev setting : Setting ℤ
setting = record {
  jwt = record { numeric_date = λ t. t; sign = λ c. some c.username; parse = λ now s. none };
  sha256 = λ s. s;
  scan = λ s. (pos 0, "");
  machine = record { ip = "10.0.0.1"; hostname = "ctrl"; architecture = "amd64"; cores = pos 4 };
  split = λ s t. split_failed "no input";
}

abbrev at : ℕ → Event ℤ → Happening ℤ
at now a = record { engine = sound_engine; now = now; event = a }

abbrev done : TaskResultRequest
done = record { exit_code = pos 0; logs = []; status = "completed" }

abbrev day_of_work : List (Happening ℤ)
day_of_work =
    at 1 cycle
    ∷ at 2 (pull "large")
    ∷ at 3 (result "task-a" (some done))
    ∷ at 4 (cancel "task-a")
    ∷ at 5 check
    ∷ []

abbrev task_a : Task
task_a = task_of "task-a" "queued" (pos 4)

sample-IsValid : IsValid sample.store
sample-IsValid = record {
  clusters_valid = tt;
  nodes_valid = (((refl, (refl, tt)), ((refl, tt), (tt, tt))), (refl, (refl, (refl, tt))));
  tasks_valid = (((refl, tt), (tt, tt)), (refl, (refl, tt)));
  chunks_valid = tt;
  users_valid = (tt, (tt, tt));
}

history-Moves_example :
    (t' : Task) × (task_row "task-a" (history setting day_of_work sample).store ≡ some t')
    × Moves task_a t'
history-Moves_example = history-Moves setting "task-a" day_of_work sample task_a sample-IsValid refl

react-Move_example :
    (t' : Task) × (task_row "task-a" (react setting sound_engine 1 cycle sample).store ≡ some t')
    × Move 1 task_a t'
react-Move_example =
    react-Move setting sound_engine 1 sample "task-a" task_a refl cycle ((refl, tt), (tt, tt))

-- A cancellation that comes between the two calls of a scheduling cycle.
abbrev crossing : List (Engine × Write ℤ)
crossing =
    (sound_engine, task_status_to 2 "task-a" "cancelled")
    ∷ (sound_engine, task_assignment_to "task-a" "small")
    ∷ []

run-Ordered_example : Ordered "task-a" task_a (run crossing sample.store)
run-Ordered_example = run-Ordered "task-a" task_a crossing sample.store refl

-- Clients without a token, or with one that the library refuses; one has the join token.
abbrev visit : List String → Request ℤ → Visit ℤ
visit header q = record {
  engine = sound_engine;
  now = 7;
  credentials = record { authorization = header; query_token = "" };
  request = q;
}

abbrev newcomer : NodeJoinRequest ℤ
newcomer = record {
  hostname = "n9";
  ip_address = "10.0.0.9";
  mac_address = "";
  agent_port = 0;
  join_token = "key";
  cpu_model = "";
  cpu_cores = pos 4;
  cpu_threads = pos 4;
  cpu_freq_mhz = pos 0;
  memory_total = pos 0;
  disk_total = pos 0;
  os_name = "";
  kernel_version = "";
  arch = "";
}

abbrev lab : Cluster
lab = record {
  id = "c";
  name = "lab";
  controller_host = "10.0.0.1";
  controller_port = 8080;
  grpc_port = 9090;
  join_token = "key";
  created_at = 1;
}

abbrev with_lab : World ℤ
with_lab = record sample { store = record sample.store { clusters = lab ∷ [] } }

abbrev strange_visits : List (Visit ℤ)
strange_visits =
    visit [] (cancel "task-a")
    ∷ visit ("Bearer" ∷ "forged" ∷ []) (submit "9" none)
    ∷ visit [] (join "12345678-9" (some newcomer))
    ∷ visit [] (beat "small")
    ∷ []

visits-Untouched_example : Untouched with_lab.store (visits setting strange_visits with_lab).store
unfolding token_of
visits-Untouched_example =
    visits-Untouched setting strange_visits with_lab
      (inl refl, (inr refl, (inl refl, (inl refl, tt))))
