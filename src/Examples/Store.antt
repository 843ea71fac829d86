-- ===== src/Examples/Store.antt =====
-- The theorems on the state store and on the heartbeat check, at the example's cluster.
use mathlib.Core.List.{Perm}
use project_constellation.Prelude.{
  ℕ, ◌<◌, ◌↔◌, String, All, true, any, ◌&&◌, ◌==◌, ℤ, pos, ◌*◌, ◌^◌, ◌≡◌, refl, some, List, [], ◌∷◌,
  select, sort_by,
}
use project_constellation.State.Model.{Task, TaskChunk}
use project_constellation.State.Engine.{Engine, Store, ok}
use project_constellation.State.Nodes.{list_nodes}
use project_constellation.State.Tasks.{get_queued_tasks, rank}
use project_constellation.State.Tasks.Queue.{InOrder, is_waiting, get_queued_tasks-InOrder}
use project_constellation.State.Tasks.Updates.{task_row}
use project_constellation.State.Chunks.{is_finished, are_all_chunks_completed}
use project_constellation.State.Chunks.Completion.{are_all_chunks_completed_lem}
use project_constellation.State.Valid.{
  IsValid, Write, create_task_of, register, task_status_to, run, new_store,
}
use project_constellation.State.Valid.Calls.{run-IsValid}
use project_constellation.Scheduler.Heartbeat.{check_heartbeats, is_lost}
use project_constellation.Scheduler.Heartbeat.Offline.{IsOffline, check_heartbeats-IsOffline}
use project_constellation.Scheduler.Heartbeat.Rows.{
  Rescheduled, IsLost, listed, check_heartbeats-Rescheduled,
}
use project_constellation.Examples.Fixed.{hundredths}
use project_constellation.Examples.Data.{
  sound_engine, node_row, sample, task_of, running_on, store_of,
}

-- After 80 seconds the small worker was not heard of in time.
check_heartbeats-Rescheduled_example :
    (t' : Task) × (task_row "task-b" (check_heartbeats sound_engine (80 * 10 ^ 9) sample).store
      ≡ some t')
    × Rescheduled
        (80 * 10 ^ 9)
        (IsLost (80 * 10 ^ 9) (listed (list_nodes sound_engine sample.store)))
        (running_on "small" (task_of "task-b" "queued" (pos 1)))
        t'
check_heartbeats-Rescheduled_example =
    check_heartbeats-Rescheduled sound_engine (80 * 10 ^ 9) sample "task-b"
      (running_on "small" (task_of "task-b" "queued" (pos 1))) ((refl, tt), (tt, tt)) refl

lost_small :
    any
      (λ n. n.id == "small" && is_lost (80 * 10 ^ 9) n)
      (listed (list_nodes sound_engine sample.store))
    ≡ true
unfolding list_nodes sort_by
lost_small = refl

check_heartbeats-IsOffline_example :
    All (IsOffline "small") (check_heartbeats sound_engine (80 * 10 ^ 9) sample).store.nodes
check_heartbeats-IsOffline_example =
    check_heartbeats-IsOffline sound_engine (80 * 10 ^ 9) sample "small" (λ st. refl)
      (refl, (refl, (refl, tt))) lost_small

-- A young critical task goes before an old normal one.
abbrev normal : Task
normal = task_of "task-a" "queued" (pos 4)

abbrev critical : Task
critical = record (task_of "task-c" "submitted" (pos 1)) { priority = "critical"; created_at = 7 }

abbrev waiting : Store ℤ
waiting = store_of [] (normal ∷ critical ∷ running_on "small" normal ∷ [])

critical_first : get_queued_tasks sound_engine waiting ≡ ok (critical ∷ normal ∷ [])
unfolding get_queued_tasks rank sort_by
critical_first = refl

get_queued_tasks-InOrder_example :
    InOrder (critical ∷ normal ∷ [])
    × Perm (critical ∷ normal ∷ []) (select is_waiting waiting.tasks)
get_queued_tasks-InOrder_example = get_queued_tasks-InOrder sound_engine waiting critical_first

abbrev chunk_of : ℕ → String → TaskChunk
chunk_of index status = record {
  id = "";
  parent_task_id = "task-a";
  chunk_index = index;
  assigned_node = "";
  status = status;
  input_file = "";
  output_file = "";
  exit_code = pos 0;
  started_at = 0;
  completed_at = 0;
}

-- Two chunks of one task, one completed and one failed.
abbrev with_two_chunks : Store ℤ
with_two_chunks = record (store_of [] (normal ∷ [])) {
  task_chunks = chunk_of 0 "completed" ∷ chunk_of 1 "failed" ∷ [];
}

both_finished : are_all_chunks_completed sound_engine "task-a" with_two_chunks ≡ ok true
unfolding are_all_chunks_completed
both_finished = refl

are_all_chunks_completed_lem_example : (true ≡ true) ↔ (
    (0 < 2) × All (λ c. is_finished c ≡ true) (chunk_of 0 "completed" ∷ chunk_of 1 "failed" ∷ []))
are_all_chunks_completed_lem_example =
    are_all_chunks_completed_lem sound_engine with_two_chunks "task-a" true both_finished

abbrev calls : List (Engine × Write ℤ)
calls =
    (sound_engine, register (node_row "small" "worker" (pos 2) 0))
    ∷ (sound_engine, create_task_of 5 "0123456789ab" (task_of "" "" (pos 1)))
    ∷ (sound_engine, task_status_to 9 "task-01234567" "running")
    ∷ []

run-IsValid_example : IsValid (run calls new_store)
run-IsValid_example = run-IsValid calls
