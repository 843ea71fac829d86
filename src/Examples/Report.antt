-- ===== src/Examples/Report.antt =====
-- The theorem on reports, at a task with two chunks of which the last reports.
use project_constellation.Prelude.{ℕ, ℤ, pos, ◌≡◌, refl, String, [], ◌∷◌, some, arith}
use project_constellation.State.Model.{Task, TaskChunk}
use project_constellation.State.Tasks.{set_result}
use project_constellation.State.Tasks.Updates.{task_row}
use project_constellation.State.Chunks.{chunk_id}
use project_constellation.Scheduler.Events.{World}
use project_constellation.Api.Handler.{stop, answered, status_ok}
use project_constellation.Api.Agents.{TaskResultRequest, handle_task_result}
use project_constellation.System.Lifecycle.Completed.{handle_task_result-completes}
use project_constellation.Prelude.Text.{show_ℕ}
use project_constellation.Examples.Data.{sound_engine, store_of, task_of}

abbrev split_task : Task
split_task = record (task_of "task-2f" "splitting" (pos 1)) { type = "split" }

abbrev part : ℕ → String → TaskChunk
part index status = record {
  id = chunk_id "chunk" "task-2f" index;
  parent_task_id = "task-2f";
  chunk_index = index;
  assigned_node = "large";
  status = status;
  input_file = "";
  output_file = "";
  exit_code = pos 0;
  started_at = 1;
  completed_at = 0;
}

abbrev nearly : World ℤ
nearly = record {
  store = record (store_of [] (split_task ∷ [])) {
    task_chunks = part 0 "completed" ∷ part 1 "running" ∷ [];
  };
  events = [];
}

abbrev last_report : TaskResultRequest
last_report = record { exit_code = pos 0; logs = []; status = "completed" }

handle_task_result-completes_example :
    (w' : World ℤ) × (handle_task_result sound_engine 8
        (chunk_id "chunk" "task-2f" 1)
        (some last_report)
        nearly
      ≡ stop (answered status_ok tt) w')
    × (task_row "task-2f" w'.store ≡ some (set_result 8 (pos 0) "" split_task))
unfolding show_ℕ
handle_task_result-completes_example =
    handle_task_result-completes sound_engine 8 (record { no_fault = λ s. refl; no_keys = refl })
      "chunk" "2f" 1 refl (refl, (refl, tt)) last_report split_task nearly
      (record {
        clusters_valid = tt;
        nodes_valid = (tt, tt);
        tasks_valid = ((tt, tt), (refl, tt));
        chunks_valid = ((refl, tt), (tt, tt));
        users_valid = (tt, (tt, tt));
      })
      refl (omega arith, (refl, (refl, tt)))
