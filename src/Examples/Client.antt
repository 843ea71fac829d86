-- ===== src/Examples/Client.antt =====
-- The theorems on the command line client, at the example's cluster.
use project_constellation.Prelude.{◌≡◌, refl, ℤ, pos, [], ◌∷◌, some, none}
use project_constellation.Api.Auth.{Claims, token_of, require_auth, admit}
use project_constellation.Api.Cluster.{Uuids}
use project_constellation.Api.Tasks.{handle_submit_task, handle_cancel_task}
use project_constellation.Scheduler.Cycle.{split_failed}
use project_constellation.State.Tasks.{update_task_status}
use project_constellation.State.Chunks.{get_task}
use project_constellation.State.Clusters.{add_audit_entry}
use project_constellation.Api.Handler.{
  ◌>>=◌, ◌>>◌, check, query, or_refuse, write, write_answer, attempt, emit, respond, reply,
}
use project_constellation.System.{Setting}
use project_constellation.System.Router.{serve, route, sealed, is_public}
use project_constellation.Cli.{RunFlags, run_body, call_of, tasks_cancel, do_request, read_response}
use project_constellation.Cli.Bodies.{read_submission}
use project_constellation.Cli.Submitting.{
  asked_of, read_submission-run_body, Ran, handle_submit_task-Ran,
}
use project_constellation.Cli.Talking.{routes, first_route, path_params, take_route, request_of}
use project_constellation.Cli.Bodies as Bodies
use project_constellation.Prelude.Text.{split_on}
use project_constellation.Cli.Session.{
  Web, answer, located, succeeded, run_command, exchanged, report, sent,
}
use project_constellation.Cli.Session.Cancelling.{IsCancelled, run_command-IsCancelled}
use project_constellation.Examples.Fixed.{hundredths}
use project_constellation.Examples.Data.{sound_engine, sample}

-- Four nodes with a GPU each.
abbrev wide : RunFlags
wide = record {
  cmd = "train";
  file = "";
  name = "";
  cpu = pos 4;
  memory = "";
  priority = "high";
  runtime = "bare";
  docker = "";
  retry = pos 1;
  timeout = pos 0;
  node = "large";
  split = "";
  gpus = pos 1;
  world_size = pos 4;
}

abbrev uuids : Uuids
uuids = record { for_cluster = "1"; for_token = "2"; for_admin = "3" }

read_submission-run_body_example : read_submission (run_body wide) ≡ some (asked_of wide)
read_submission-run_body_example = read_submission-run_body wide

handle_submit_task-Ran_example :
    Ran sound_engine 7 "0123456789abcdef"
      (λ s. (pos 0, ""))
      wide
      sample
      (handle_submit_task sound_engine 7 "0123456789abcdef"
        (λ s. (pos 0, ""))
        (read_submission (run_body wide))
        sample)
handle_submit_task-Ran_example =
    handle_submit_task-Ran sound_engine 7 "0123456789abcdef" (λ s. (pos 0, "")) wide sample

-- A library that knows one token.
abbrev claims : Claims
claims = record { username = "ada"; role = "admin"; expires_at = 9; issued_at = 0 }

-- A server that answers 404 to what no handler has.
abbrev web : Web
web = record {
  locate = λ p. some (record { path = p; token = "" });
  other_page = λ method path. record { status = 404; object = none; raw = "not found" };
}

one_part : split_on b'/' "task-a" ≡ "task-a" ∷ []
unfolding split_on
one_part = refl

abbrev open_setting : Setting ℤ
open_setting = record {
  jwt = record { numeric_date = λ t. t; sign = λ c. some "t"; parse = λ now s. some claims };
  sha256 = λ s. s;
  scan = λ s. (pos 0, "");
  machine = record { ip = "10.0.0.1"; hostname = "ctrl"; architecture = "amd64"; cores = pos 4 };
  split = λ s t. split_failed "no input";
}

printed :
    (run_command open_setting web sound_engine 7 uuids "u" "t" (tasks_cancel "task-a") sample).0
    ≡ succeeded "Task task-a cancelled" ∷ []
unfolding run_command exchanged located answer call_of request_of routes first_route path_params
    take_route split_on Bodies.◌>>=◌ serve is_public require_auth token_of sent admit route sealed
    handle_cancel_task report do_request read_response get_task update_task_status add_audit_entry
    ◌>>=◌ ◌>>◌ check query or_refuse write write_answer attempt emit respond reply
printed = refl

run_command-IsCancelled_example :
    IsCancelled "task-a"
      (run_command open_setting web sound_engine 7 uuids "u" "t"
        (tasks_cancel "task-a")
        sample).1.store
run_command-IsCancelled_example =
    run_command-IsCancelled open_setting web sound_engine 7 uuids "u" "t" "task-a" sample ""
      one_part refl refl printed
