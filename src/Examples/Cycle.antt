-- ===== src/Examples/Cycle.antt =====
-- The theorems on a scheduling cycle, at the example's cluster.
use project_constellation.Prelude.{ℤ, pos, ◌*◌, ◌^◌, ◌≡◌, refl, some}
use project_constellation.State.Model.{Task}
use project_constellation.State.Engine.{Store}
use project_constellation.State.Nodes.{scan_node, get_online_worker_nodes}
use project_constellation.State.Tasks.Updates.{task_row}
use project_constellation.State.Tasks.{set_assignment}
use project_constellation.State.Valid.{IsValid}
use project_constellation.State.Model.{Node}
use project_constellation.Scheduler.Scoring.{score_node}
use project_constellation.Scheduler.Placement.{find_best_node, find_loop, satisfies_constraints}
use project_constellation.Scheduler.Cycle.{Split, split_failed, schedule_cycle, or_empty}
use project_constellation.Scheduler.Cycle.Turns.{Outcome}
use project_constellation.Scheduler.Cycle.Progress.{schedule_cycle-row}
use project_constellation.Scheduler.Cycle.Outcomes.{schedule_cycle-Outcome}
use project_constellation.Examples.Fixed.{hundredths}
use project_constellation.Examples.Data.{sound_engine, sample, task_of, node_row, idle_metrics}

abbrev no_split : Store ℤ → Task → Split
no_split s t = split_failed "no input"

schedule_cycle-Outcome_example :
    (t' : Task) × (task_row "task-a" (schedule_cycle sound_engine 100 no_split sample).store
      ≡ some t')
    × Outcome sound_engine 100 no_split
        (or_empty (get_online_worker_nodes sound_engine sample.store))
        (task_of "task-a" "queued" (pos 4))
        t'
schedule_cycle-Outcome_example =
    schedule_cycle-Outcome sound_engine 100 no_split sample "task-a"
      (task_of "task-a" "queued" (pos 4)) ((refl, tt), (tt, tt)) refl

sample-IsValid : IsValid sample.store
sample-IsValid = record {
  clusters_valid = tt;
  nodes_valid = (((refl, (refl, tt)), ((refl, tt), (tt, tt))), (refl, (refl, (refl, tt))));
  tasks_valid = (((refl, tt), (tt, tt)), (refl, (refl, tt)));
  chunks_valid = tt;
  users_valid = (tt, (tt, tt));
}

abbrev large_node : Node ℤ
large_node = record {
  row = node_row "large" "worker" (pos 8) (60 * 10 ^ 9);
  metrics = idle_metrics;
}

best_worker :
    find_best_node
      (task_of "task-a" "queued" (pos 4))
      (or_empty (get_online_worker_nodes sound_engine sample.store))
    ≡ some large_node
unfolding find_best_node find_loop satisfies_constraints score_node get_online_worker_nodes
    scan_node
best_worker = refl

-- The task goes to the large worker.
schedule_cycle-row_example :
    task_row "task-a" (schedule_cycle sound_engine 100 no_split sample).store
    ≡ some (set_assignment "large" (task_of "task-a" "queued" (pos 4)))
schedule_cycle-row_example =
    schedule_cycle-row sound_engine 100 no_split (record { no_fault = λ s. refl; no_keys = refl })
      (task_of "task-a" "queued" (pos 4)) (record { queued = refl; whole = refl; alone = refl })
      large_node sample sample-IsValid refl best_worker
