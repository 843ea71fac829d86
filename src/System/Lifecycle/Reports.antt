-- ===== src/System/Lifecycle/Reports.antt =====
-- The moves that an agent's report and pull make, and what a submission leaves alone.
use project_constellation.Prelude.{
  ℕ, pos, ◌≡◌, refl, sym, Bool, true, false, ◌&&◌, ◌==◌, String, List, [], ◌∷◌, ◌++◌, Option, none,
  some, map, All-mono, All-select, select, select_sound, and_true, eq_iff, for_each, subst,
}
use project_constellation.Prelude.Rows.{IsUnique, IsUnique-select, row_of-All}
use project_constellation.Prelude.Text.{split_on}
use project_constellation.State.Model.{Task, TaskChunk}
use project_constellation.State.Engine.{Engine, Store, Result, ok, err}
use project_constellation.State.Tasks.{
  get_pending_tasks_for_node, set_status, update_task_result, update_task_status,
}
use project_constellation.State.Tasks.Updates.{
  task_row, set_status-id, update_task_result-Updated, update_task_status-Updated,
}
use project_constellation.Scheduler.Events.{World, update_store}
use project_constellation.Scheduler.Loop.{IsReading, Turn, turn, for_each-Became}
use project_constellation.Api.Handler.{
  Handler, go, ◌>>=◌, ◌>>◌, collect, give, attempt, skip, decoded, peek, panic, respond,
  internal_error, status_ok,
}
use project_constellation.Api.Keeps.{Keeps, world_of}
use project_constellation.Api.Closed.Calls.{handler_rules}
use project_constellation.Api.Agents.{
  ExecutableTask, task_executable, finish_parent, check_parent, report_chunk, report_task, report,
  ReportKind, of_chunk, of_task, out_of_range, TaskResultRequest, handle_task_result, hand_out_task,
  hand_out_chunk, handle_get_pending_tasks, parent_of,
}
use project_constellation.State.Engine.Rules.{exec-ok}
use project_constellation.Api.Closed.{hand_out_chunk-Keeps}
use project_constellation.State.Chunks.{get_pending_chunks_for_node}
use project_constellation.System.Lifecycle.{Move, Lives, stays-Lives, stays, starts}
use project_constellation.System.Lifecycle.Aside.{SameTasks, SameTasks-IsClosedAside}
use project_constellation.System.Lifecycle.Touched.{
  query-tasks, go-bind, bind-tasks, then-tasks, write-Updated, attempt-Updated,
}
use project_constellation.System.Lifecycle.Requests.{reported-Move}

module _ {F : Type 0} (e : Engine) (now : ℕ) (j : String) (t : Task) where
  finish_parent-Lives :
      (i : String) (r : Result Bool) (w : World F)
      → task_row j w.store ≡ some t
      → Lives now j t (world_of (finish_parent e now i r w)).store.tasks
  unfolding finish_parent
  finish_parent-Lives i (ok true) w r =
      reported-Move e now j t i (pos 0) "" w _
        (attempt-Updated _ _ i _ w (update_task_result-Updated e now i (pos 0) "" w.store)
          (λ ts. let aside = SameTasks-IsClosedAside {F = F} ts in search handler_rules))
        r
  finish_parent-Lives i (ok false) w r = unfold skip in stays-Lives now j t _ r
  finish_parent-Lives i (err x) w r = unfold skip in stays-Lives now j t _ r

  check_parent-Lives :
      (o : Option String) (w : World F)
      → task_row j w.store ≡ some t
      → Lives now j t (world_of (check_parent e now o w)).store.tasks
  unfolding check_parent peek ◌>>=◌
  check_parent-Lives none w r = unfold skip in stays-Lives now j t _ r
  check_parent-Lives (some i) w r = finish_parent-Lives i _ w r

  report-Lives :
      (i : String) (req : TaskResultRequest) (kind : ReportKind) (w : World F)
      → task_row j w.store ≡ some t
      → Lives now j t (world_of (report e now i req kind w)).store.tasks
  unfolding report report_chunk report_task ◌>>◌
  report-Lives i req of_task w r =
      reported-Move e now j t i req.exit_code _ w _
        (write-Updated (update_task_result e now i req.exit_code _) internal_error _ i _ w
          (update_task_result-Updated e now i req.exit_code _ w.store)
          (λ s. let aside = SameTasks-IsClosedAside {F = F} s.tasks in search handler_rules))
        r
  report-Lives i req out_of_range w r = unfold panic in stays-Lives now j t _ r
  report-Lives i req of_chunk w r =
      let aside = SameTasks-IsClosedAside {F = F} w.store.tasks in
      bind-tasks (Lives now j t) _ _ w (stays-Lives now j t _ r) (search handler_rules) (λ a v same.
        bind-tasks (Lives now j t) _ _ v (stays-Lives now j t _ (rw same r))
          (let aside' = SameTasks-IsClosedAside {F = F} v.store.tasks in search handler_rules)
          (λ b u same'.
            then-tasks (Lives now j t) _ _ u
              (check_parent-Lives (parent_of (split_on b'-' i)) u (rw (same', same) r))
              (λ ts. let aside'' = SameTasks-IsClosedAside {F = F} ts in search handler_rules)))

  pub handle_task_result-Move :
      (i : String) (body : Option TaskResultRequest) (w : World F)
      → task_row j w.store ≡ some t
      → Lives now j t (world_of (handle_task_result e now i body w)).store.tasks
  unfolding handle_task_result ◌>>=◌ decoded
  handle_task_result-Move i none w r = stays-Lives now j t _ r
  handle_task_result-Move i (some req) w r = report-Lives i req _ w r

-- The loop over the pending tasks, as a loop over the world.
abbrev start_task : {F : Type 0} → Engine → ℕ → Task → World F → World F
start_task e now q w = update_store (update_task_status e now q.id "running") w

pub collect-hand_out_task :
    {F : Type 0} (e : Engine) (now : ℕ) (ts : List Task) (w : World F)
    → collect (hand_out_task e now) ts w
      ≡ go (map task_executable ts) (for_each (start_task e now) ts w)
unfolding collect hand_out_task attempt give ◌>>=◌ ◌>>◌ for_each
collect-hand_out_task e now [] w = refl
collect-hand_out_task e now (q ∷ qs) w = rw (collect-hand_out_task e now qs (start_task e now q w))

module _ {F : Type 0} (e : Engine) (now : ℕ) (j : String) (t : Task) where
  -- A pending task's turn.
  start_task-Turn :
      (q : Task)
      → q.status ≡ "scheduled"
      → (w : World F) → Turn (Move now) q w (start_task e now q w)
  start_task-Turn q h w =
      turn (set_status now "running") (set_status-id now "running")
        (update_task_status-Updated e now q.id "running" w.store) (starts h refl)

  pending-IsReading :
      (node_id : String) (w : World F)
      → IsUnique (λ q. q.id) w.store.tasks
      → IsReading
          (λ q. q.status ≡ "scheduled")
          (select (λ q. q.assigned_node == node_id && q.status == "scheduled") w.store.tasks)
          w
  pending-IsReading node_id w u =
      let p : Task → Bool = λ q. q.assigned_node == node_id && q.status == "scheduled" in
      record {
        passed =
            All-mono (select p w.store.tasks)
              (λ q h. (eq_iff q.status "scheduled").0 (and_true (q.assigned_node == node_id) _ h).1)
              (select_sound p w.store.tasks);
        unique = IsUnique-select (λ q. q.id) p _ u;
        current =
            All-select (λ q. task_row q.id w.store ≡ some q) p _
              (row_of-All (λ q. q.id) w.store.tasks u);
      }

  start_tasks-Lives :
      (node_id : String) (w : World F) (ts : List Task)
      → select (λ q. q.assigned_node == node_id && q.status == "scheduled") w.store.tasks ≡ ts
      → IsUnique (λ q. q.id) w.store.tasks
      → task_row j w.store ≡ some t
      → Lives now j t (for_each (start_task e now) ts w).store.tasks
  start_tasks-Lives node_id w ts read u r =
      for_each-Became (Move now) (λ q. stays refl) (λ q. q.status ≡ "scheduled") (start_task e now)
        start_task-Turn ts w j t
        (subst (λ qs. IsReading (λ q. q.status ≡ "scheduled") qs w) read
          (pending-IsReading node_id w u))
        r

  pending_tasks_read :
      (node_id : String) (s : Store F) (ts : List Task)
      → get_pending_tasks_for_node e node_id s ≡ ok ts
      → select (λ q. q.assigned_node == node_id && q.status == "scheduled") s.tasks ≡ ts
  unfolding get_pending_tasks_for_node
  pending_tasks_read node_id s ts g = exec-ok e _ _ _ g

  pub handle_get_pending_tasks-Move :
      (node_id : String) (w : World F)
      → IsUnique (λ q. q.id) w.store.tasks
      → task_row j w.store ≡ some t
      → Lives now j t (world_of (handle_get_pending_tasks e now node_id w)).store.tasks
  unfolding handle_get_pending_tasks
  handle_get_pending_tasks-Move node_id w u r =
      query-tasks (Lives now j t) (get_pending_tasks_for_node e node_id) internal_error _ w
        (stays-Lives now j t _ r)
        (λ ts g.
          query-tasks (Lives now j t) (get_pending_chunks_for_node e node_id) internal_error _ w
            (stays-Lives now j t _ r) (λ cs g'. handed ts cs (pending-tasks ts g)))
    where
      pending-tasks :
          (ts : List Task)
          → get_pending_tasks_for_node e node_id w.store ≡ ok ts
          → select (λ q. q.assigned_node == node_id && q.status == "scheduled") w.store.tasks ≡ ts
      pending-tasks ts g = pending_tasks_read node_id w.store ts g

      handed :
          (ts : List Task) (cs : List TaskChunk)
          → select (λ q. q.assigned_node == node_id && q.status == "scheduled") w.store.tasks ≡ ts
          → Lives now j t
              (world_of (
                (collect (hand_out_task e now) ts >>= λ hs.
                collect (hand_out_chunk e now) cs >>= λ hc. respond status_ok (hs ++ hc))
                  w)).store.tasks
      handed ts cs g =
          let v = for_each (start_task e now) ts w in
          let rest : (hs : List ExecutableTask)
              → Handler F (List ExecutableTask) (List ExecutableTask) =
            λ hs. collect (hand_out_chunk e now) cs >>= λ hc. respond status_ok (hs ++ hc) in
          let keep : (hs : List ExecutableTask) → Keeps (SameTasks v.store.tasks) (rest hs) = λ hs.
            let aside = SameTasks-IsClosedAside {F = F} v.store.tasks in
            search (handler_rules, hand_out_chunk-Keeps) depth 8 in
          rw
            (go-bind (collect (hand_out_task e now) ts) rest w _ v
              (collect-hand_out_task e now ts w))
            (subst (Lives now j t) (sym ((keep _).kept v refl))
              (start_tasks-Lives node_id w ts g u r))
