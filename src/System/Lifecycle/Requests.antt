-- ===== src/System/Lifecycle/Requests.antt =====
-- The moves that the requests to cancel, to retry and to report a task make.
use project_constellation.Prelude.{
  ℕ, ℤ, ◌≡◌, refl, Bool, true, not, inl, inr, String, [], ◌∷◌, some, one_of, Bool-cases, arith,
}
use project_constellation.State.Model.{Task}
use project_constellation.State.Engine.{Engine, Store, Result, ok, err, after}
use project_constellation.State.Tasks.{
  set_result, set_retry, set_status, update_task_status, increment_task_retry,
}
use project_constellation.State.Tasks.Updates.{
  task_row, Updated, set_status-id, update_task_status-Updated, increment_task_retry-Updated,
}
use project_constellation.State.Chunks.{get_task}
use project_constellation.State.Chunks.Read.{get_task-row}
use project_constellation.Scheduler.Events.{World}
use project_constellation.Api.Handler.{
  Handler, Out, stop, go, ◌>>=◌, ◌>>◌, query, or_refuse, check, write, not_found, bad_request,
  internal_error,
}
use project_constellation.Api.Keeps.{Keeps, world_of}
use project_constellation.Api.Closed.Calls.{handler_rules}
use project_constellation.Api.Tasks.{handle_cancel_task, handle_retry_task}
use project_constellation.System.Lifecycle.{Move, Lives, cancelled, retried, reported, terminal}
use project_constellation.System.Lifecycle.Aside.{SameTasks, SameTasks-IsClosedAside}
use project_constellation.System.Lifecycle.Touched.{
  Touched, Touched-Became, same, touched, write-Updated,
}

module _ {F : Type 0} (e : Engine) (now : ℕ) (i : String) (w : World F) where
  -- A request that reads a task, tests its status, and writes its row.
  guarded-Touched :
      {R A : Type 0} (test : String → Bool) (call : Store F → Result (Store F)) (f : Task → Task)
      (rest : Task → Handler F R A)
      → ((t : Task) → (f t).id ≡ t.id)
      → Updated i f w.store (after w.store (call w.store))
      → ((t : Task) (s : Store F) → Keeps (SameTasks s.tasks) (rest t))
      → ((t : Task) → test t.status ≡ true → Move now t (f t))
      → Touched now w (
          world_of (
            (query (get_task e i) not_found >>= λ t.
            check (test t.status) bad_request >> (write call internal_error >> rest t))
              w))
  unfolding query ◌>>=◌
  guarded-Touched {R} {A} test call f rest keep u k m = read (get_task e i w.store) refl
    where
      steps : Task → Handler F R A
      steps t = check (test t.status) bad_request >> (write call internal_error >> rest t)

      tested : (t : Task) → get_task e i w.store ≡ ok t → Touched now w (world_of (steps t w))
      tested t g = elim (Bool-cases (test t.status)) [
        | inr no_pass ↦ unfold check in unfold ◌>>◌ in rw no_pass (same refl)
        | inl pass ↦
            unfold check in
            unfold ◌>>◌ in
            rw pass (
              touched i f keep (write-Updated call internal_error (rest t) i f w u (k t))
                (λ row r. m row (rw (← get_task-row e i w.store t row g r) pass)))
      ]

      read :
          (r : Result Task)
          → get_task e i w.store ≡ r
          → Touched now w (
              world_of (elim (or_refuse {R = R} r not_found w) as (λ _. Out F R A) [
                | stop q v ↦ stop q v
                | go t v ↦ steps t v
              ]))
      read (ok t) g = tested t g
      read (err x) g = same refl

module _ {F : Type 0} (e : Engine) (now : ℕ) (j : String) (t : Task) where
  pub handle_cancel_task-Move :
      (i : String) (w : World F)
      → task_row j w.store ≡ some t
      → Lives now j t (world_of (handle_cancel_task e now i w)).store.tasks
  unfolding handle_cancel_task
  handle_cancel_task-Move i w r =
      Touched-Became now w _
        (guarded-Touched e now i w (λ s. not (one_of s terminal))
          (update_task_status e now i "cancelled") (set_status now "cancelled") _
          (set_status-id now "cancelled") (update_task_status-Updated e now i "cancelled" w.store)
          (λ q s.
            let aside = SameTasks-IsClosedAside {F = F} s.tasks in search (handler_rules) depth 20)
          (λ q p. cancelled (ground arith) refl))
        j t r

  pub handle_retry_task-Move :
      (i : String) (w : World F)
      → task_row j w.store ≡ some t
      → Lives now j t (world_of (handle_retry_task e now i w)).store.tasks
  unfolding handle_retry_task
  handle_retry_task-Move i w r =
      Touched-Became now w _
        (guarded-Touched e now i w (λ s. one_of s ("failed" ∷ "cancelled" ∷ []))
          (increment_task_retry e i) set_retry _ (λ q. refl)
          (increment_task_retry-Updated e i w.store)
          (λ q s.
            let aside = SameTasks-IsClosedAside {F = F} s.tasks in search (handler_rules) depth 20)
          (λ q p. retried p refl))
        j t r

  -- The result of a task, or of the parent that its last chunk finishes.
  pub reported-Move :
      (i : String) (exit_code : ℤ) (message : String) (w : World F) (s' : Store F)
      → Updated i (set_result now exit_code message) w.store s'
      → task_row j w.store ≡ some t
      → Lives now j t s'.tasks
  reported-Move i exit_code message w s' u r =
      Touched-Became now w (record w { store = s' })
        (touched i (set_result now exit_code message) (λ q. refl) u
          (λ q h. reported exit_code message refl))
        j t r
