-- ===== src/Examples/Submit.antt =====
-- The theorem on submissions, at a request that is queued.
use project_constellation.Prelude.{pos, [], some}
use project_constellation.Api.Tasks.{SubmitTaskRequest, handle_submit_task}
use project_constellation.System.Lifecycle.Submitted.{Submission, handle_submit_task-Submission}
use project_constellation.Examples.Fixed.{hundredths}
use project_constellation.Examples.Data.{sound_engine, sample}

abbrev asked : SubmitTaskRequest
asked = record {
  name = "";
  command = "make";
  cpu_required = pos 0;
  memory_required = "";
  priority = "high";
  retry_max = pos 2;
  timeout_seconds = pos 0;
  env_vars = [];
  working_dir = "";
  runtime = "";
  docker_image = "";
  target_node = "large";
  split_strategy = "";
  input_file = "";
  split_by = "";
  chunk_size = pos 0;
  reduce_command = "";
  max_nodes = pos 0;
}

handle_submit_task-Submission_example :
    Submission sound_engine 7 "0123456789abcdef"
      (λ s. (pos 0, ""))
      asked
      sample
      (handle_submit_task sound_engine 7 "0123456789abcdef" (λ s. (pos 0, "")) (some asked) sample)
handle_submit_task-Submission_example =
    handle_submit_task-Submission sound_engine 7 "0123456789abcdef" (λ s. (pos 0, "")) asked sample
