-- ===== src/Examples/Queue.antt =====
-- The theorem on the priority queue, at three tasks.
use project_constellation.Prelude.{pos, List, [], ◌∷◌}
use project_constellation.State.Model.{Task}
use project_constellation.Scheduler.Queue.Operations.{tasks}
use project_constellation.Scheduler.Queue.Contract.{
  Call, enqueues, dequeues, removes, Allowed, call, run_queue, run_queue-Allowed,
}
use project_constellation.Examples.Data.{task_of}

abbrev first_come : Task
first_come = task_of "first" "queued" (pos 1)

abbrev late_come : Task
late_come = record (task_of "late" "queued" (pos 1)) { created_at = 5 }

abbrev rush : Task
rush = record (task_of "rush" "queued" (pos 1)) { priority = "high"; created_at = 9 }

abbrev calls : List Call
calls = enqueues late_come ∷ enqueues first_come ∷ enqueues rush ∷ removes "late" ∷ dequeues ∷ []

run_queue-Allowed_example :
    Allowed dequeues
      (tasks (run_queue calls []))
      (call dequeues (run_queue calls [])).0
      (tasks (call dequeues (run_queue calls [])).1)
run_queue-Allowed_example = run_queue-Allowed calls dequeues
