-- ===== src/System/Lifecycle.antt =====
-- The life of a task: the moves that the requests and the scheduler make with its row.
pub mod Aside
pub mod Touched
pub mod Added
pub mod Requests
pub mod Reports
pub mod Refines
pub mod Submitted
pub mod Completed
pub mod Orders
use project_constellation.Prelude.{
  ℕ, ℤ, pos, ltb_ℤ, ◌≡◌, true, false, String, List, [], ◌∷◌, one_of, some, refl,
}
use project_constellation.Prelude.Rows.{row_of}
use project_constellation.State.Model.{Task}
use project_constellation.State.Tasks.{is_queued, set_assignment, set_result, set_retry, set_status}

abbrev pub terminal : List String
terminal = "completed" ∷ "failed" ∷ "cancelled" ∷ []

-- A move, with the states that it starts from.
pub data Move (now : ℕ) (t t' : Task) : Type 0 where
  stays : t' ≡ t → Move now t t'
  assigned : (node_id : String) → is_queued t ≡ true → t' ≡ set_assignment node_id t → Move now t t'
  ganged : is_queued t ≡ true → t' ≡ set_status now "scheduled" t → Move now t t'
  splits : is_queued t ≡ true → t' ≡ set_status now "splitting" t → Move now t t'
  split_fails :
      (message : String)
      → is_queued t ≡ true
      → t' ≡ set_result now (pos 1) message t
      → Move now t t'
  starts : t.status ≡ "scheduled" → t' ≡ set_status now "running" t → Move now t t'
  rescheduled :
      t.status ≡ "running"
      → ltb_ℤ t.retry_count t.retry_max ≡ true
      → t' ≡ set_retry t
      → Move now t t'
  exhausted :
      (message : String)
      → t.status ≡ "running"
      → ltb_ℤ t.retry_count t.retry_max ≡ false
      → t' ≡ set_result now (pos 1) message t
      → Move now t t'
  cancelled : one_of t.status terminal ≡ false → t' ≡ set_status now "cancelled" t → Move now t t'
  retried : one_of t.status ("failed" ∷ "cancelled" ∷ []) ≡ true → t' ≡ set_retry t → Move now t t'
  reported :
      (exit_code : ℤ) (message : String) → t' ≡ set_result now exit_code message t → Move now t t'

-- A task of the id is in the table, and a move leads to it.
abbrev pub Lives : ℕ → String → Task → List Task → Type 0
Lives now j t ts = (t' : Task) × (row_of (λ q. q.id) j ts ≡ some t') × Move now t t'

pub stays-Lives :
    (now : ℕ) (j : String) (t : Task) (ts : List Task)
    → row_of (λ q. q.id) j ts ≡ some t
    → Lives now j t ts
stays-Lives now j t ts r = (t, r, stays refl)
