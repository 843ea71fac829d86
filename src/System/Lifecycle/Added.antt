-- ===== src/System/Lifecycle/Added.antt =====
-- A submission leaves the rows that are there alone.
use project_constellation.Prelude.{
  ℕ, ◌≡◌, refl, not, ◌||◌, ◌==◌, String, Bool, List, [], ◌∷◌, ◌++◌, some, Option, Bool-cases, inl,
  inr, Float,
}
use project_constellation.Prelude.Rows.{row_of}
use project_constellation.State.Model.{Task}
use project_constellation.State.Engine.{
  task_check, has_task, references_node, Statement, exec, Engine, Store, Result, ok, require, after,
  new_state,
}
use project_constellation.State.Engine.Rules.{after-exec_new, after-require_new}
use project_constellation.State.Tasks.{create_task, task_defaults}
use project_constellation.State.Valid.{IsClosedAside}
use project_constellation.Scheduler.Events.{World}
use project_constellation.Api.Keeps.{world_of}
use project_constellation.Api.Closed.{handle_submit_task-Keeps}
use project_constellation.Api.Tasks.{SubmitTaskRequest, handle_submit_task}
use project_constellation.System.Lifecycle.{Lives, stays-Lives}
use project_constellation.System.Lifecycle.Aside.{perform-SameTasks}

row_of-append :
    (j : String) (ts : List Task) (q t : Task)
    → row_of (λ x. x.id) j ts ≡ some t
    → row_of (λ x. x.id) j (ts ++ q ∷ []) ≡ some t
row_of-append j [] q t h = absurd (cc h)
row_of-append j (x ∷ xs) q t h = elim (Bool-cases (x.id == j)) [
  | inl e ↦ rw e (rw e at h)
  | inr e ↦ rw e (row_of-append j xs q t (rw e at h))
]

module _ {F : Type 0} (j : String) (t : Task) where
  -- The row of the id is this one.
  pub record HasRow (s : Store F) : Type 0 where
    pub row : row_of (λ x. x.id) j s.tasks ≡ some t

  HasRow-IsClosedAside : IsClosedAside HasRow
  HasRow-IsClosedAside = record {
    closed_aside =
        λ e c s aside h. record { row = rw (perform-SameTasks e c s s.tasks aside refl) h.row };
  }

  -- What an insert leaves.
  pub record Leaves (s : Store F) (r : Result (Task × Store F)) : Type 0 where
    pub left : HasRow (after s (new_state r))

  required :
      (s : Store F) (h : HasRow s) (b : Bool) (r : Result (Task × Store F))
      → Leaves s r
      → Leaves s (require b r)
  required s h b r k = record { left = after-require_new HasRow s h b r (λ _. k.left) }

  executed :
      (s : Store F) (h : HasRow s) (e : Engine) (st : Statement) (r : Result (Task × Store F))
      → Leaves s r
      → Leaves s (exec e st r)
  executed s h e st r k = record { left = after-exec_new HasRow s h e st r k.left }

  appended :
      (s : Store F) (a q : Task)
      → HasRow s
      → Leaves s (ok (a, record s { tasks = s.tasks ++ q ∷ [] }))
  appended s a q h = record { left = record { row = row_of-append j s.tasks q t h.row } }

  pub create_task-Leaves :
      (e : Engine) (now : ℕ) (uuid : String) (task : Task) (s : Store F)
      → HasRow s
      → Leaves s (create_task e now uuid task s)
  unfolding create_task
  create_task-Leaves e now uuid task s h =
      let t = task_defaults now uuid task in
      executed s h e _ _ (
        required s h (task_check t) _ (
          required s h (not (has_task t.id s)) _ (
            required s h (t.assigned_node == "" || references_node e t.assigned_node s) _
              (appended s t (record t { started_at = 0; completed_at = 0; chunks = [] }) h))))

  pub handle_submit_task-Lives :
      ⦃fl : Float F⦄ (e : Engine) (now : ℕ) (uuid : String) (scan : String → F × String)
      (body : Option SubmitTaskRequest) (w : World F)
      → row_of (λ x. x.id) j w.store.tasks ≡ some t
      → Lives now j t (world_of (handle_submit_task e now uuid scan body w)).store.tasks
  handle_submit_task-Lives e now uuid scan body w r =
      stays-Lives now j t _
        ((handle_submit_task-Keeps HasRow HasRow-IsClosedAside e
            (λ now' uuid' q. record {
              insert_kept = λ s h. (create_task-Leaves e now' uuid' q s h).left;
            })
            now uuid scan body).kept
          w (record { row = r })).row
