-- ===== src/System/Lifecycle/Submitted.antt =====
-- What becomes of a submission, on every branch of HandleSubmitTask.
use project_constellation.Prelude.{
  ℕ, ◌≡◌, refl, sym, ◌∙◌, ap, Bool, true, false, ◌==◌, Bool-cases, inl, inr, String, [], ◌∷◌, ◌++◌,
  concat, some, arith, Float,
}
use project_constellation.State.Model.{Node, Task}
use project_constellation.State.Engine.{Engine, Store, Result, ok, err}
use project_constellation.State.Tasks.{create_task, task_defaults, is_queued}
use project_constellation.State.Nodes.{get_node}
use project_constellation.State.Clusters.{add_audit_entry}
use project_constellation.State.Chunks.Created.{created_row, create_task-made}
use project_constellation.Scheduler.Events.{World, task_value}
use project_constellation.Api.Handler.{
  refused, answered, Out, stop, go, Handler, ◌>>=◌, ◌>>◌, check, decoded, query, insert,
  insert_answer, or_refuse, attempt, emit, respond, skip, reply, bad_request, internal_error,
  created,
}
use project_constellation.Api.Keeps.{Keeps}
use project_constellation.Api.Closed.Calls.{handler_rules}
use project_constellation.Api.Tasks.{
  SubmitTaskRequest, SubmitReply, request_defaults, requested_task, is_acceptable, check_target,
  submit_steps, handle_submit_task,
}
use project_constellation.System.Lifecycle.Aside.{SameTasks, SameTasks-IsClosedAside}

module _ {F : Type 0} ⦃fl : Float F⦄ (e : Engine) (now : ℕ) (uuid : String)
    (scan : String → F × String) (asked : SubmitTaskRequest) (w : World F) where
  -- The task that the request asks for, as CreateTask completes it.
  unfoldable pub new_task : Task
  unfolding task_defaults requested_task
  new_task = task_defaults now uuid (requested_task scan (request_defaults asked))

  pub data Submission (out : Out F SubmitReply SubmitReply) : Type 0 where
    turned_down :
        (code : ℕ)
        → (reply out).0 ≡ refused code
        → (reply out).1.store.tasks ≡ w.store.tasks
        → Submission out
    queued :
        is_acceptable (request_defaults asked) ≡ true
        → (reply out).0
          ≡ answered created
              (record { task_id = new_task.id; name = new_task.name; status = new_task.status })
        → (reply out).1.store.tasks ≡ w.store.tasks ++ created_row new_task ∷ []
        → is_queued (created_row new_task) ≡ true
        → Submission out

  check-Submission :
      (b : Bool) (code : ℕ) (k : Handler F SubmitReply SubmitReply)
      → (b ≡ true → Submission (k w))
      → Submission ((check b code >> k) w)
  unfolding check ◌>>◌ ◌>>=◌ reply
  check-Submission true code k h = h refl
  check-Submission false code k h = turned_down code refl refl

  node-Submission :
      (found : Result (Node F)) (k : Handler F SubmitReply SubmitReply)
      → Submission (k w)
      → Submission (
          (((λ v. or_refuse found bad_request v) >>= λ node.
          check (node.status == "online") bad_request)
              >> k)
            w)
  unfolding ◌>>◌ ◌>>=◌ reply or_refuse
  node-Submission (err x) k h = turned_down bad_request refl refl
  node-Submission (ok node) k h = check-Submission (node.status == "online") bad_request k (λ up. h)

  target-Submission :
      (target : String) (k : Handler F SubmitReply SubmitReply)
      → Submission (k w)
      → Submission ((check_target e now uuid target >> k) w)
  unfolding check_target ◌>>◌ ◌>>=◌ query
  target-Submission target k h = elim (Bool-cases (target == "")) [
    | inl b ↦ rw b (unfold skip in h)
    | inr b ↦ rw b (node-Submission (get_node e target w.store) k h)
  ]

  -- What follows the insert.
  abbrev tail : Task → Handler F SubmitReply SubmitReply
  tail task =
      attempt (
        add_audit_entry e now "" "task_submit" "task" task.id
          (concat "Task '" (concat task.name "' submitted")))
      >> (emit "task_submitted" (("task", task_value task) ∷ [])
          >> respond created (record { task_id = task.id; name = task.name; status = task.status }))

  tail-Submission :
      (t : Task) (s' : Store F)
      → is_acceptable (request_defaults asked) ≡ true
      → new_task ≡ t
      → s'.tasks ≡ w.store.tasks ++ created_row new_task ∷ []
      → Submission (tail t (record w { store = s' }))
  unfolding attempt emit respond ◌>>◌ ◌>>=◌ reply new_task
  tail-Submission t s' fit same added =
      let aside = SameTasks-IsClosedAside {F = F} s'.tasks in
      let quiet : Keeps (SameTasks s'.tasks) (tail t) = search (handler_rules) depth 20 in
      queued fit
        (ap (λ q. answered created (record { task_id = q.id; name = q.name; status = q.status }))
          (sym same))
        (quiet.kept (record w { store = s' }) refl ∙ added) refl

  insert-Submission :
      is_acceptable (request_defaults asked) ≡ true
      → Submission (
          (insert
                (create_task e now uuid (requested_task scan (request_defaults asked)))
                internal_error
              >>= tail)
            w)
  unfolding insert insert_answer reply ◌>>=◌ new_task task_defaults
  insert-Submission fit = through (create_task e now uuid task w.store) refl
    where
      task : Task
      task = requested_task scan (request_defaults asked)

      through :
          (r : Result (Task × Store F))
          → create_task e now uuid task w.store ≡ r
          → Submission
              (elim (insert_answer {R = SubmitReply} w internal_error r)
                as (λ _. Out F SubmitReply SubmitReply) [ stop q v ↦ stop q v | go t v ↦ tail t v ])
      through (err x) h = turned_down internal_error refl refl
      through (ok (t, s')) h =
          let (fresh, (row, store)) = create_task-made e now uuid task w.store t s' h in
          tail-Submission t s' fit row (ap (λ v. v.tasks) (sym store))

  -- HandleSubmitTask, on a body that it could read, either refuses the request and leaves the tasks as
  -- they are, or the request is acceptable, and the task that it asks for is added, waits to be
  -- scheduled, and is the one that the answer, 201, names.
  pub handle_submit_task-Submission : Submission (handle_submit_task e now uuid scan (some asked) w)
  unfolding handle_submit_task submit_steps is_acceptable decoded ◌>>=◌
  handle_submit_task-Submission =
      let req = request_defaults asked in
      check-Submission _ _ _ (λ c1. check-Submission _ _ _ (λ c2. check-Submission _ _ _ (λ c3.
        check-Submission _ _ _ (λ c4.
          check-Submission _ _ _ (λ c5.
            target-Submission _ _ (insert-Submission (ground (arith, c1, c2, c3, c4, c5))))))))
