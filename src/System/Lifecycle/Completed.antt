-- ===== src/System/Lifecycle/Completed.antt =====
-- The report on the last chunk of a split task, in a database that refuses nothing.
use project_constellation.Prelude.{
  ℕ, pos, ◌≡◌, refl, ap, ◌∙◌, ◌<◌, Bool, true, ◌&&◌, String, List, [], ◌∷◌, some, concat, length,
  select, one_of, update_where, All, ltb, eqb,
}
use project_constellation.State.Model.{Task, TaskChunk}
use project_constellation.State.Engine.{Engine, Store, ok, Statement, Table}
use project_constellation.State.Valid.{IsValid, chunk_status_to, perform}
use project_constellation.State.Valid.Calls.{perform-IsValid}
use project_constellation.State.Tasks.{set_result, update_task_result}
use project_constellation.State.Tasks.Updates.{task_row}
use project_constellation.State.Tasks.Open.{IsOpen, update_task_result-row}
use project_constellation.State.Chunks.{
  chunk_id, chunk_key, chunk_parent, is_finished, set_chunk_status, update_chunk_status,
  are_all_chunks_completed,
}
use project_constellation.State.Chunks.Completion.{are_all_chunks_completed_lem}
use project_constellation.Scheduler.Events.{World, text, broadcast, update_store}
use project_constellation.Api.Handler.{
  Out, stop, go, Handler, ◌>>=◌, ◌>>◌, decoded, peek, write, write_answer, attempt, emit, respond,
  answered, status_ok, internal_error,
}
use project_constellation.Prelude.Text.{split_on}
use project_constellation.Api.Agents.{
  TaskResultRequest, handle_task_result, report, report_chunk, parent_of, check_parent,
  finish_parent,
}
use project_constellation.Api.Agents.Ids.{NoDash, chunk_prefixes, chunk_id-report}

-- The chunks after a report on one of them.
abbrev pub reported : {F : Type 0} → ℕ → String → TaskResultRequest → Store F → List TaskChunk
reported now i req s =
    update_where (chunk_key i) (set_chunk_status now req.status req.exit_code) s.task_chunks

-- A task has chunks, and they are all completed or failed.
abbrev pub AllFinished : String → List TaskChunk → Type 0
AllFinished parent cs =
    (0 < length (select (chunk_parent parent) cs))
    × All (λ c. is_finished c ≡ true) (select (chunk_parent parent) cs)

-- A step that goes on gives way to the next.
next_step :
    {F R B : Type 0} (m : Handler F R (Unit {0})) (k : Handler F R B) (w v : World F)
    → m w ≡ go tt v
    → (m >> k) w ≡ k v
unfolding ◌>>◌ ◌>>=◌
next_step {F} {R} {B} m k w v h =
    ap
      (λ (out : Out F R (Unit {0})). elim out as (λ _. Out F R B) [
        | stop q u ↦ stop q u
        | go a u ↦ k u
      ])
      h

module _ {F : Type 0} (e : Engine) (now : ℕ) (o : IsOpen e) where
  are_all_chunks_completed-ok :
      (parent : String) (s : Store F) → (b : Bool) × (are_all_chunks_completed e parent s ≡ ok b)
  unfolding are_all_chunks_completed
  are_all_chunks_completed-ok parent s = (
    ltb 0 (length (select (chunk_parent parent) s.task_chunks))
        && eqb (length (select (chunk_parent parent) s.task_chunks))
            (length (select (λ c. chunk_parent parent c && is_finished c) s.task_chunks)),
    rw
        (
          o.no_fault (Statement.count Table.task_chunks parent),
          o.no_fault (Statement.count Table.task_chunks "finished"),
        )
        refl,
  )

  are_all_chunks_completed-AllFinished :
      (parent : String) (s : Store F)
      → AllFinished parent s.task_chunks
      → are_all_chunks_completed e parent s ≡ ok true
  are_all_chunks_completed-AllFinished parent s h =
      let (b, answer) = are_all_chunks_completed-ok parent s in
      answer ∙ ap ok ((are_all_chunks_completed_lem e s parent b answer).1 h)

  module _ (parent : String) (t : Task) (w : World F) (v : IsValid w.store)
      (r : task_row parent w.store ≡ some t) where
    -- The world after the parent is completed.
    abbrev completed : World F
    completed =
        broadcast "task_completed" (("task_id", text parent) ∷ ("status", text "completed") ∷ [])
          (update_store (update_task_result e now parent (pos 0) "") w)

    check_parent-completed :
        AllFinished parent w.store.task_chunks
        → check_parent {F = F} e now (some parent) w ≡ go tt completed
    unfolding check_parent ◌>>=◌ peek
    check_parent-completed h =
        rw (are_all_chunks_completed-AllFinished parent w.store h)
          (unfold finish_parent in unfold ◌>>◌ in unfold attempt in unfold emit in refl)

    completed-row : task_row parent completed.store ≡ some (set_result now (pos 0) "" t)
    completed-row =
        let (s', made, row) = update_task_result-row e o parent t w.store v r now in rw made row

  module _ (i : String) (req : TaskResultRequest) (w : World F) where
    -- The world after the chunk's row is written.
    abbrev noted : World F
    noted =
        broadcast "chunk_completed" (("chunk_id", text i) ∷ ("status", text req.status) ∷ [])
          (record w { store = record w.store { task_chunks = reported now i req w.store } })

    update_chunk_status-reported :
        update_chunk_status e now i req.status req.exit_code w.store ≡ ok noted.store
    unfolding update_chunk_status
    update_chunk_status-reported = rw (o.no_fault (Statement.update Table.task_chunks i)) refl

    noted-IsValid : IsValid w.store → IsValid noted.store
    unfolding perform
    noted-IsValid v =
        rw update_chunk_status-reported at
          (perform-IsValid e (chunk_status_to now i req.status req.exit_code) w.store v)

    report_chunk-completed :
        (parent : String) (t : Task)
        → parent_of (split_on b'-' i) ≡ some parent
        → (v : IsValid w.store) (r : task_row parent w.store ≡ some t)
        → AllFinished parent (reported now i req w.store)
        → report_chunk e now i req w
          ≡ stop (answered status_ok tt) (completed parent t noted (noted-IsValid v) r)
    unfolding report_chunk
    report_chunk-completed parent t p v r h =
        next_step {R = Unit {0}} _ _ w (record w { store = noted.store }) stored
        ∙ next_step {R = Unit {0}} _ _ (record w { store = noted.store }) noted told
        ∙ next_step {R = Unit {0}} _ _ noted (completed parent t noted (noted-IsValid v) r) parents
        ∙ answers
      where
        stored :
            write {R = Unit {0}}
              (update_chunk_status e now i req.status req.exit_code)
              internal_error
              w
            ≡ go tt (record w { store = noted.store })
        stored = unfold write in rw update_chunk_status-reported (unfold write_answer in refl)

        told :
            emit {R = Unit {0}} "chunk_completed"
              (("chunk_id", text i) ∷ ("status", text req.status) ∷ [])
              (record w { store = noted.store })
            ≡ go tt noted
        told = unfold emit in refl

        answers :
            respond {F = F} {R = Unit {0}} status_ok tt
              (completed parent t noted (noted-IsValid v) r)
            ≡ stop (answered status_ok tt) (completed parent t noted (noted-IsValid v) r)
        answers = unfold respond in refl

        parents :
            check_parent {F = F} e now (parent_of (split_on b'-' i)) noted
            ≡ go tt (completed parent t noted (noted-IsValid v) r)
        parents = rw p (check_parent-completed parent t noted (noted-IsValid v) r h)

-- In a well-formed database that refuses nothing, the report on a chunk that the controller made,
-- after which all the chunks of its task are completed or failed, is answered with 200, and leaves
-- the row of the task completed, with exit code 0 and no message.
pub handle_task_result-completes :
    {F : Type 0} (e : Engine) (now : ℕ)
    → IsOpen e
    → (prefix hex : String) (index : ℕ) → one_of prefix chunk_prefixes ≡ true
    → NoDash hex
    → (req : TaskResultRequest) (t : Task) (w : World F) → IsValid w.store
    → task_row (concat "task-" hex) w.store ≡ some t
    → AllFinished
        (concat "task-" hex)
        (reported now (chunk_id prefix (concat "task-" hex) index) req w.store)
    → (w' : World F) × (handle_task_result e now
          (chunk_id prefix (concat "task-" hex) index)
          (some req)
          w
        ≡ stop (answered status_ok tt) w')
      × (task_row (concat "task-" hex) w'.store ≡ some (set_result now (pos 0) "" t))
unfolding handle_task_result decoded ◌>>=◌ report
handle_task_result-completes e now o prefix hex index known free req t w v r h =
    let parent = concat "task-" hex in
    let i = chunk_id prefix parent index in
    let (kind, found) = chunk_id-report prefix hex index known free in
    let sound = noted-IsValid e now o i req w v in
    (
      completed e now o parent t (noted e now o i req w) sound r,
      rw kind (report_chunk-completed e now o i req w parent t found v r h),
      completed-row e now o parent t (noted e now o i req w) sound r,
    )
