-- ===== src/Cli/Session/Cancelling.antt =====
-- What `constellation tasks cancel` has done when it says so.
use project_constellation.Prelude.{
  ℕ, ◌≡◌, refl, ap, ◌∙◌, ◌⊎◌, inl, inr, Bool, true, false, not, ◌==◌, String, [], ◌∷◌, Option, none,
  some, concat, leb, one_of, arith, eq_refl, Float, Bool-cases,
}
use project_constellation.Prelude.Rows.{row_of, row_of-update_where}
use project_constellation.State.Model.{Task}
use project_constellation.State.Engine.{Engine, Store, Result, ok, err}
use project_constellation.State.Tasks.{update_task_status, set_status}
use project_constellation.State.Tasks.Updates.{task_row, set_status-id}
use project_constellation.State.Chunks.{get_task}
use project_constellation.State.Chunks.Read.{get_task-task_row}
use project_constellation.State.Engine.Rules.{exec-made, require-made, ok_inj}
use project_constellation.State.Clusters.{add_audit_entry}
use project_constellation.Scheduler.Events.{World, text}
use project_constellation.Api.Handler.{
  Out, stop, go, refused, answered, panicked, reply, Handler, ◌>>=◌, ◌>>◌, check, query, or_refuse,
  write, write_answer, attempt, emit, respond, refuse, status_ok, bad_request, not_found,
  internal_error,
}
use project_constellation.Api.Keeps.{Keeps, world_of}
use project_constellation.Api.Closed.Calls.{handler_rules}
use project_constellation.Api.Auth.{Claims, require_auth, token_of, admit}
use project_constellation.Api.Cluster.{Uuids}
use project_constellation.Api.Tasks.{handle_cancel_task}
use project_constellation.System.{Setting}
use project_constellation.System.Lifecycle.Aside.{SameTasks, SameTasks-IsClosedAside}
use project_constellation.System.Router.{serve, route, sealed, is_public, cancel}
use project_constellation.Cli.{call_of, do_request, read_response, tasks_cancel}
use project_constellation.Cli.Paths.{cancel_path}
use project_constellation.Prelude.Text.{split_on}
use project_constellation.Cli.Session.{
  Web, succeeded, report, sent, code_of, answer, located, exchanged, run_command,
}

-- The row of a task says that it is cancelled.
abbrev pub IsCancelled : {F : Type 0} → String → Store F → Type 0
IsCancelled i s = (t : Task) × (task_row i s ≡ some t) × (t.status ≡ "cancelled")

-- The answer is an error, or the task is cancelled.
abbrev Settled : {F : Type 0} → String → Out F (Unit {0}) (Unit {0}) → Type 0
Settled i o = (leb 400 (code_of (reply o).0) ≡ true) ⊎ IsCancelled i (world_of o).store

module _ {F : Type 0} (e : Engine) (now : ℕ) (i : String) where
  update_task_status-IsCancelled :
      (s s' : Store F) (row : Task)
      → update_task_status e now i "cancelled" s ≡ ok s'
      → task_row i s ≡ some row
      → IsCancelled i s'
  unfolding update_task_status
  update_task_status-IsCancelled s s' row h r =
      let stored = ok_inj _ _ (require-made _ _ _ (exec-made e _ _ _ h)).1 in
      let f = set_status now "cancelled" in
      (
        f row,
        rw (← stored) (
            row_of-update_where (λ t. t.id) f (set_status-id now "cancelled") i i s.tasks
            ∙ rw (eq_refl i, r) refl),
        refl,
      )

  -- What follows the update leaves the tasks alone.
  abbrev rest : Task → Handler F (Unit {0}) (Unit {0})
  rest t =
      attempt (
        add_audit_entry e now "" "task_cancel" "task" i
          (concat "Task '" (concat t.name "' cancelled")))
      >> (emit "task_cancelled" (("task_id", text i) ∷ []) >> respond status_ok tt)

  rest-IsCancelled :
      (t : Task) (w : World F) → IsCancelled i w.store → IsCancelled i (world_of (rest t w)).store
  rest-IsCancelled t w (row, r, c) =
      let aside = SameTasks-IsClosedAside {F = F} w.store.tasks in
      let quiet : Keeps (SameTasks w.store.tasks) (rest t) = search (handler_rules) depth 20 in
      (row, ap (row_of (λ q. q.id) i) (quiet.kept w refl) ∙ r, c)

  steps : Task → Handler F (Unit {0}) (Unit {0})
  steps t =
      check (not (one_of t.status ("completed" ∷ "failed" ∷ "cancelled" ∷ []))) bad_request
      >> (write (update_task_status e now i "cancelled") internal_error >> rest t)

  written-Settled :
      (t : Task) (w : World F) (row : Task)
      → task_row i w.store ≡ some row
      → Settled i ((write (update_task_status e now i "cancelled") internal_error >> rest t) w)
  unfolding write ◌>>◌ ◌>>=◌
  written-Settled t w row r = on (update_task_status e now i "cancelled" w.store) refl
    where
      on :
          (a : Result (Store F))
          → update_task_status e now i "cancelled" w.store ≡ a
          → Settled i
              (elim (write_answer {R = Unit {0}} w internal_error a)
                as (λ _. Out F (Unit {0}) (Unit {0})) [ stop q v ↦ stop q v | go u v ↦ rest t v ])
      on (err x) h = unfold write_answer in unfold reply in inl (ground arith)
      on (ok s') h =
          unfold write_answer in
          inr (
            rest-IsCancelled t (record w { store = s' })
              (update_task_status-IsCancelled w.store s' row h r))

  steps-Settled :
      (t : Task) (w : World F) (row : Task) → task_row i w.store ≡ some row → Settled i (steps t w)
  unfolding steps
  steps-Settled t w row r = on (not (one_of t.status ("completed" ∷ "failed" ∷ "cancelled" ∷ [])))
    where
      on :
          (b : Bool)
          → Settled i (
              (check b bad_request
                  >> (write (update_task_status e now i "cancelled") internal_error >> rest t))
                w)
      on true = unfold ◌>>◌ in unfold ◌>>=◌ in unfold check in written-Settled t w row r
      on false = unfold ◌>>◌ in unfold ◌>>=◌ in unfold check in unfold reply in inl (ground arith)

  handle_cancel_task-Settled : (w : World F) → Settled i (handle_cancel_task e now i w)
  unfolding handle_cancel_task query ◌>>=◌ steps
  handle_cancel_task-Settled w = on (get_task e i w.store) refl
    where
      on :
          (a : Result Task)
          → get_task e i w.store ≡ a
          → Settled i
              (elim (or_refuse {R = Unit {0}} a not_found w) as (λ _. Out F (Unit {0}) (Unit {0})) [
                | stop q v ↦ stop q v
                | go t v ↦ steps t v
              ])
      on (err x) h = unfold or_refuse in unfold reply in inl (ground arith)
      on (ok t) h =
          let (row, r) = get_task-task_row e i w.store t h in
          unfold or_refuse in steps-Settled t w row r

sealed-Settled :
    {F : Type 0} (i : String) (o : Out F (Unit {0}) (Unit {0})) → Settled i o → Settled i (sealed o)
unfolding sealed reply
sealed-Settled i (stop (answered code r) w) h = h
sealed-Settled i (stop (refused code) w) h = h
sealed-Settled i (stop panicked w) h = inl (ground arith)
sealed-Settled i (go r w) h = h

module _ {F : Type 0} ⦃fl : Float F⦄ (x : Setting F) (web : Web) (e : Engine) (now : ℕ)
    (ids : Uuids) (uuid token i : String) (w : World F) where
  serve-Settled : (query : String) → Settled i (serve x e now (sent token query) (cancel i) w)
  unfolding serve is_public route require_auth
  serve-Settled query = elim (Bool-cases (token_of (sent token query) == "")) [
    | inl b ↦ rw b (unfold refuse in unfold reply in inl (ground arith))
    | inr b ↦ rw b (claimed (x.jwt.parse now (token_of (sent token query))))
  ]
    where
      claimed :
          (o : Option Claims)
          → Settled i
              (admit {F = F} {R = Unit {0}} {A = Unit {0}} (λ c. route x e now (cancel i)) o w)
      claimed none = unfold admit in unfold refuse in unfold reply in inl (ground arith)
      claimed (some c) =
          unfold admit in
          unfold route in
          sealed-Settled i (handle_cancel_task e now i w) (handle_cancel_task-Settled e now i w)

  -- Where the task's id is not empty and holds no slash, and the URL library finds the path that the
  -- client wrote, with any token in the query, the following holds: if `constellation tasks cancel`
  -- prints that the task is cancelled, then the task is in the controller's database after the command,
  -- and its status there is cancelled.
  pub run_command-IsCancelled :
      (query : String)
      → split_on b'/' i ≡ i ∷ []
      → (i == "") ≡ false
      → web.locate (concat "/api/v1/tasks/" i)
        ≡ some (record { path = concat "/api/v1/tasks/" i; token = query })
      → (run_command x web e now ids uuid token (tasks_cancel i) w).0
        ≡ succeeded (concat "Task " (concat i " cancelled")) ∷ []
      → IsCancelled i (run_command x web e now ids uuid token (tasks_cancel i) w).1.store
  unfolding run_command exchanged located answer call_of report do_request read_response
  run_command-IsCancelled query whole full path =
      rw (path, cancel_path {F = F} ids uuid i whole full)
        (λ h. elim (serve-Settled query) [
          | inr done ↦ done
          | inl late ↦ absurd (cc (rw late at h))
        ])
