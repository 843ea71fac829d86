-- ===== src/Cli/Submitting.antt =====
-- What `constellation run` submits.
use project_constellation.Prelude.{
  ℕ, ◌≡◌, refl, sym, ap, ℤ, pos, ltb_ℤ, Bool, true, false, not, ◌==◌, eq_iff, Bool-cases, inl, inr,
  String, [], ◌∷◌, ◌++◌, none, some, if◌then◌else◌, Float,
}
use project_constellation.State.Model.{Task}
use project_constellation.State.Engine.{Engine}
use project_constellation.Scheduler.Events.{World}
use project_constellation.State.Tasks.{task_defaults}
use project_constellation.State.Chunks.Created.{created_row}
use project_constellation.Api.Handler.{Out, refused, answered, reply, created}
use project_constellation.Api.Tasks.{
  SubmitTaskRequest, request_defaults, requested_task, handle_submit_task, SubmitReply,
}
use project_constellation.System.Lifecycle.Submitted.{
  Submission, handle_submit_task-Submission, new_task,
}
use project_constellation.Cli.{text, number, RunFlags, run_body}
use project_constellation.Cli.Bodies.{
  read_submission, read_text, read_number, read_variables, ◌>>=◌,
}

-- The request that the flags stand for.
unfoldable pub asked_of : RunFlags → SubmitTaskRequest
asked_of f = record {
  name = f.name;
  command = f.cmd;
  cpu_required = f.cpu;
  memory_required = f.memory;
  priority = f.priority;
  retry_max = f.retry;
  timeout_seconds = if ltb_ℤ (pos 0) f.timeout then f.timeout else pos 0;
  env_vars = [];
  working_dir = "";
  runtime = f.runtime;
  docker_image = f.docker;
  target_node = f.node;
  split_strategy = f.split;
  input_file = "";
  split_by = "";
  chunk_size = pos 0;
  reduce_command = "";
  max_nodes = pos 0;
}

read_text-put_if : (s : String) → read_text (if not (s == "") then some (text s) else none) ≡ some s
unfolding read_text
read_text-put_if s = elim (Bool-cases (s == "")) [
  | inl e ↦ rw e (ap some (sym ((eq_iff s "").0 e)))
  | inr e ↦ rw e refl
]

read_number-put_if :
    (b : Bool) (n : ℤ)
    → read_number (if b then some (number n) else none) ≡ some (if b then n else pos 0)
unfolding read_number
read_number-put_if true n = refl
read_number-put_if false n = refl

-- The controller reads from what `run` sends the request that the flags stand for, in which nothing
-- is left of the number of nodes and of the GPUs.
pub read_submission-run_body : (f : RunFlags) → read_submission (run_body f) ≡ some (asked_of f)
unfolding read_submission run_body asked_of ◌>>=◌ read_variables
read_submission-run_body f =
    rw
      (
        read_text-put_if f.name,
        read_text-put_if f.memory,
        read_number-put_if (ltb_ℤ (pos 0) f.timeout) f.timeout,
        read_text-put_if f.docker,
        read_text-put_if f.node,
        read_text-put_if f.split,
      )
      (unfold read_text in unfold read_number in refl)

-- A queued task on one node without GPUs, with the other flags as given.
pub record IsPlain (f : RunFlags) (t : Task) : Type 0 where
  pub waiting : t.status ≡ "queued"
  pub same_command : t.command ≡ f.cmd
  pub same_target : t.target_node ≡ f.node
  pub same_retries : t.retry_max ≡ f.retry
  pub cores : t.cpu_required ≡ (if ltb_ℤ (pos 0) f.cpu then f.cpu else pos 1)
  pub alone : t.is_distributed ≡ false
  pub one_node : t.world_size ≡ pos 1
  pub no_gpus : t.gpu_required ≡ pos 0

module _ {F : Type 0} ⦃fl : Float F⦄ (e : Engine) (now : ℕ) (uuid : String)
    (scan : String → F × String) (f : RunFlags) (w : World F) where
  pub data Ran (out : Out F SubmitReply SubmitReply) : Type 0 where
    turned_down :
        (code : ℕ)
        → (reply out).0 ≡ refused code
        → (reply out).1.store.tasks ≡ w.store.tasks
        → Ran out
    queued :
        (t : Task)
        → (reply out).0
          ≡ answered created (record { task_id = t.id; name = t.name; status = t.status })
        → (reply out).1.store.tasks ≡ w.store.tasks ++ t ∷ []
        → IsPlain f t
        → Ran out

  new_task-IsPlain : IsPlain f (created_row (new_task e now uuid scan (asked_of f) w))
  unfolding new_task task_defaults requested_task request_defaults asked_of
  new_task-IsPlain = record {
    waiting = refl;
    same_command = refl;
    same_target = refl;
    same_retries = refl;
    cores = refl;
    alone = refl;
    one_node = refl;
    no_gpus = refl;
  }

  -- What `run` sends, the controller either turns down, and leaves the tasks as they are, or it adds
  -- one task, which waits in the queue and has the command, the node, the retries and the cores that
  -- the flags ask for, but is not distributed, wants one node and no GPU, whatever the flags ask for.
  pub handle_submit_task-Ran :
      Ran (handle_submit_task e now uuid scan (read_submission (run_body f)) w)
  handle_submit_task-Ran =
      rw (read_submission-run_body f)
        (elim (handle_submit_task-Submission e now uuid scan (asked_of f) w) [
          | Submission.turned_down code a same ↦ turned_down code a same
          | Submission.queued fit a added waits ↦
              queued (created_row (new_task e now uuid scan (asked_of f) w)) a added
                new_task-IsPlain
        ])
