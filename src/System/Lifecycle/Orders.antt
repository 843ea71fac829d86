-- ===== src/System/Lifecycle/Orders.antt =====
-- What stays of a task while handlers and loops run, at the same time too: all that they do to the
-- database is made of calls of the store, which its lock keeps apart.
use project_constellation.Prelude.{
  ℕ, pos, ◌≡◌, refl, sym, ◌∙◌, subst, ◌==◌, String, List, some, false, inl, inr, Bool-cases, eq_iff,
  arith, for_each-keeps,
}
use project_constellation.State.Model.{Task}
use project_constellation.State.Engine.{Engine, Store, after}
use project_constellation.State.Tasks.{set_assignment, set_result, set_retry, set_status}
use project_constellation.State.Tasks.Updates.{
  task_row, Updated, set_status-id, task_row-Updated, task_row-Updated_self,
  update_task_status-Updated, update_task_assignment-Updated, update_task_result-Updated,
  increment_task_retry-Updated,
}
use project_constellation.State.Valid.{
  Write, perform, run, is_task_write, create_cluster_of, delete_all_clusters, register,
  node_status_to, heartbeat_at, ip_to, delete_node_of, metrics_to, create_task_of, task_status_to,
  task_assignment_to, task_result_to, task_retry_of, create_chunk_of, chunk_status_to,
  chunk_assignment_to, create_user_of, delete_user_of, login_of, audit,
}
use project_constellation.System.Lifecycle.Aside.{perform-SameTasks}
use project_constellation.System.Lifecycle.Added.{create_task-Leaves}

-- What its submission says of a task: all but its progress.
abbrev pub order_of : Task → Task
order_of t = record t {
  status = "";
  assigned_node = "";
  exit_code = pos 0;
  error_message = "";
  retry_count = pos 0;
  started_at = 0;
  completed_at = 0;
}

set_status-order_of :
    (now : ℕ) (status : String) (t : Task) → order_of (set_status now status t) ≡ order_of t
set_status-order_of now status t = ground arith

module _ {F : Type 0} (j : String) (t : Task) where
  -- The task of the id is there, with what its submission said.
  abbrev pub Ordered : Store F → Type 0
  Ordered s = (t' : Task) × (task_row j s ≡ some t') × (order_of t' ≡ order_of t)

  Updated-Ordered :
      {i : String} {f : Task → Task} {s s' : Store F}
      → ((q : Task) → (f q).id ≡ q.id)
      → ((q : Task) → order_of (f q) ≡ order_of q)
      → Updated i f s s'
      → Ordered s
      → Ordered s'
  Updated-Ordered {i} {f} {s} {s'} keep same u (q, r, o) = elim (Bool-cases (i == j)) [
    | inr other ↦ (q, task_row-Updated j keep other u ∙ r, o)
    | inl own ↦
        let e : i ≡ j = (eq_iff i j).0 own in
        let r' : task_row i s ≡ some q = subst (λ k. task_row k s ≡ some q) (sym e) r in
        elim (task_row-Updated_self keep r' u) [
          | inl old ↦ (q, subst (λ k. task_row k s' ≡ some q) e old, o)
          | inr new ↦ (f q, subst (λ k. task_row k s' ≡ some (f q)) e new, same q ∙ o)
        ]
  ]

  aside-Ordered :
      (e : Engine) (c : Write F) (s : Store F)
      → is_task_write c ≡ false
      → Ordered s
      → Ordered (after s (perform e c s))
  aside-Ordered e c s aside (q, r, o) = (q, rw (perform-SameTasks e c s s.tasks aside refl) r, o)

  perform-Ordered :
      (e : Engine) (c : Write F) (s : Store F) → Ordered s → Ordered (after s (perform e c s))
  perform-Ordered e (create_task_of now uuid task) s (q, r, o) =
      unfold perform in
      (q, (create_task-Leaves j q e now uuid task s (record { row = r })).left.row, o)
  perform-Ordered e (task_status_to now i status) s h =
      unfold perform in
      Updated-Ordered (set_status-id now status) (set_status-order_of now status)
        (update_task_status-Updated e now i status s) h
  perform-Ordered e (task_assignment_to i node_id) s h =
      unfold perform in
      Updated-Ordered {f = set_assignment node_id} (λ q. refl) (λ q. refl)
        (update_task_assignment-Updated e i node_id s) h
  perform-Ordered e (task_result_to now i exit_code message) s h =
      unfold perform in
      Updated-Ordered {f = set_result now exit_code message} (λ q. refl) (λ q. refl)
        (update_task_result-Updated e now i exit_code message s) h
  perform-Ordered e (task_retry_of i) s h =
      unfold perform in
      Updated-Ordered {f = set_retry} (λ q. refl) (λ q. refl) (increment_task_retry-Updated e i s) h
  perform-Ordered e (create_cluster_of now uuid token name host port grpc_port) s h =
      aside-Ordered e (create_cluster_of now uuid token name host port grpc_port) s refl h
  perform-Ordered e delete_all_clusters s h = aside-Ordered e delete_all_clusters s refl h
  perform-Ordered e (register n) s h = aside-Ordered e (register n) s refl h
  perform-Ordered e (node_status_to i status) s h =
      aside-Ordered e (node_status_to i status) s refl h
  perform-Ordered e (heartbeat_at now i) s h = aside-Ordered e (heartbeat_at now i) s refl h
  perform-Ordered e (ip_to now i ip) s h = aside-Ordered e (ip_to now i ip) s refl h
  perform-Ordered e (delete_node_of i) s h = aside-Ordered e (delete_node_of i) s refl h
  perform-Ordered e (metrics_to now i m) s h = aside-Ordered e (metrics_to now i m) s refl h
  perform-Ordered e (create_chunk_of c) s h = aside-Ordered e (create_chunk_of c) s refl h
  perform-Ordered e (chunk_status_to now i status exit_code) s h =
      aside-Ordered e (chunk_status_to now i status exit_code) s refl h
  perform-Ordered e (chunk_assignment_to i node_id) s h =
      aside-Ordered e (chunk_assignment_to i node_id) s refl h
  perform-Ordered e (create_user_of now uuid u) s h =
      aside-Ordered e (create_user_of now uuid u) s refl h
  perform-Ordered e (delete_user_of name) s h = aside-Ordered e (delete_user_of name) s refl h
  perform-Ordered e (login_of now name) s h = aside-Ordered e (login_of now name) s refl h
  perform-Ordered e (audit now a1 a2 a3 a4 a5) s h =
      aside-Ordered e (audit now a1 a2 a3 a4 a5) s refl h

  -- Whatever writing calls of the store come after each other, with whatever arguments, and whichever
  -- statements the database refuses, a task whose id is in the table stays in the table, and keeps all that its
  -- submission says: only its status, node, exit code, error message, retry count and times of start
  -- and completion can change.
  pub run-Ordered :
      (calls : List (Engine × Write F)) (s : Store F)
      → task_row j s ≡ some t
      → Ordered (run calls s)
  unfolding run
  run-Ordered calls s r =
      for_each-keeps Ordered _ calls s (λ call v h. perform-Ordered call.0 call.1 v h) (t, r, refl)
