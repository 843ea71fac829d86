-- ===== src/State/Valid/Writes.antt =====
-- Every call that writes keeps the database well-formed.
use Prim.Native.String.{slice}
use project_constellation.Prelude.{
  if◌then◌else◌, ◌≡◌, ◌==◌, ◌&&◌, ◌||◌, Bool, true, not, List, String, any, ℕ,
}
use project_constellation.Prelude.Rows.{IsUnique-append, IsUnique-update_where}
use project_constellation.State.Model.{Cluster, NodeRow, Task, TaskChunk, User}
use project_constellation.State.Engine.{
  Engine, Store, Result, Statement, ok, after, exec, require, new_state, node_check, task_check,
  user_check, references_node, has_node, has_task, has_chunk,
}
use project_constellation.State.Engine.Rules.{
  after-exec, after-require, after-exec_new, after-require_new,
}
use project_constellation.State.Tasks.{update_task, task_key, create_task, task_defaults}
use project_constellation.State.Chunks.{update_chunk, chunk_defaults, chunk_key, create_task_chunk}
use project_constellation.State.Nodes.{
  update_node, is_referenced, node_key, register_node, delete_node,
}
use project_constellation.State.Clusters.{create_cluster, create_user}
use project_constellation.State.Valid.{IsValid, Clusters, Nodes, Tasks, Chunks, Users}
use project_constellation.State.Valid.Rows.{
  not-true, any-first, any-second, Keyed-append, Keyed-update_where, Keyed-select,
}

-- The store after an answer is well-formed.
pub record Keeps {F : Type 0} (s : Store F) (r : Result (Store F)) : Type 0 where
  pub kept : IsValid (after s r)

pub record KeepsNew {A F : Type 0} (s : Store F) (r : Result (A × Store F)) : Type 0 where
  pub kept_new : IsValid (after s (new_state r))

module _ {F : Type 0} (s : Store F) (v : IsValid s) where
  pub Clusters-now : (cs : List Cluster) → Clusters cs → IsValid (record s { clusters = cs })
  Clusters-now cs h = record {
    clusters_valid = h;
    nodes_valid = v.nodes_valid;
    tasks_valid = v.tasks_valid;
    chunks_valid = v.chunks_valid;
    users_valid = v.users_valid;
  }

  pub Nodes-now : (ns : List (NodeRow F)) → Nodes ns → IsValid (record s { nodes = ns })
  Nodes-now ns h = record {
    clusters_valid = v.clusters_valid;
    nodes_valid = h;
    tasks_valid = v.tasks_valid;
    chunks_valid = v.chunks_valid;
    users_valid = v.users_valid;
  }

  pub Tasks-now : (ts : List Task) → Tasks ts → IsValid (record s { tasks = ts })
  Tasks-now ts h = record {
    clusters_valid = v.clusters_valid;
    nodes_valid = v.nodes_valid;
    tasks_valid = h;
    chunks_valid = v.chunks_valid;
    users_valid = v.users_valid;
  }

  pub Chunks-now : (cs : List TaskChunk) → Chunks cs → IsValid (record s { task_chunks = cs })
  Chunks-now cs h = record {
    clusters_valid = v.clusters_valid;
    nodes_valid = v.nodes_valid;
    tasks_valid = v.tasks_valid;
    chunks_valid = h;
    users_valid = v.users_valid;
  }

  pub Users-now : (us : List User) → Users us → IsValid (record s { users = us })
  Users-now us h = record {
    clusters_valid = v.clusters_valid;
    nodes_valid = v.nodes_valid;
    tasks_valid = v.tasks_valid;
    chunks_valid = v.chunks_valid;
    users_valid = h;
  }

  -- A statement, or a constraint, before an answer that keeps the store valid.
  pub executed :
      (e : Engine) (st : Statement) (r : Result (Store F)) → Keeps s r → Keeps s (exec e st r)
  executed e st r k = record { kept = after-exec IsValid s v e st r k.kept }

  pub required : (b : Bool) (r : Result (Store F)) → (b ≡ true → Keeps s r) → Keeps s (require b r)
  required b r k = record { kept = after-require IsValid s v b r (λ h. (k h).kept) }

  executed_new :
      {A : Type 0} (e : Engine) (st : Statement) (r : Result (A × Store F))
      → KeepsNew s r
      → KeepsNew s (exec e st r)
  executed_new e st r k = record { kept_new = after-exec_new IsValid s v e st r k.kept_new }

  required_new :
      {A : Type 0} (b : Bool) (r : Result (A × Store F))
      → (b ≡ true → KeepsNew s r)
      → KeepsNew s (require b r)
  required_new b r k = record { kept_new = after-require_new IsValid s v b r (λ h. (k h).kept_new) }

  pub done : {s' : Store F} → IsValid s' → Keeps s (ok s')
  done h = record { kept = h }

  pub forget : {A : Type 0} {r : Result (A × Store F)} → KeepsNew s r → Keeps s (new_state r)
  forget k = record { kept = k.kept_new }

  done_new : {A : Type 0} {a : A} {s' : Store F} → IsValid s' → KeepsNew s (ok (a, s'))
  done_new h = record { kept_new = h }

  pub update_task-Keeps :
      (e : Engine) (i : String) (f : Task → Task)
      → ((t : Task) → (f t).id ≡ t.id)
      → Keeps s (update_task e i f s)
  update_task-Keeps e i f keep = executed e _ _ (
      required _ _ (λ passes. done (
        Tasks-now _ (
          Keyed-update_where (λ t. t.id) task_check (task_key i) f keep s.tasks (not-true _ passes)
            v.tasks_valid))))

  pub update_node-Keeps :
      (e : Engine) (i : String) (f : NodeRow F → NodeRow F)
      → ((n : NodeRow F) → (f n).id ≡ n.id)
      → Keeps s (update_node e i f s)
  update_node-Keeps e i f keep = executed e _ _ (
      required _ _ (λ passes. done (
        Nodes-now _ (
          Keyed-update_where (λ n. n.id) node_check (node_key i) f keep s.nodes (not-true _ passes)
            v.nodes_valid))))

  pub update_chunk-Keeps :
      (e : Engine) (i : String) (f : TaskChunk → TaskChunk)
      → ((c : TaskChunk) → (f c).id ≡ c.id)
      → Keeps s (update_chunk e i f s)
  update_chunk-Keeps e i f keep = executed e _ _ (
      done (
        Chunks-now _
          (IsUnique-update_where (λ c. c.id) f keep (chunk_key i) s.task_chunks v.chunks_valid)))

  pub create_task-Keeps :
      (e : Engine) (now : ℕ) (uuid : String) (t : Task) → KeepsNew s (create_task e now uuid t s)
  unfolding create_task
  create_task-Keeps e now uuid task =
      let t = task_defaults now uuid task in
      executed_new e _ _ (
        required_new (task_check t) _ (λ checked. required_new (not (has_task t.id s)) _ (λ fresh.
          required_new (t.assigned_node == "" || references_node e t.assigned_node s) _ (λ refers.
            done_new (
              Tasks-now _ (
                Keyed-append (λ t. t.id) task_check s.tasks _ v.tasks_valid checked
                  (not-true _ fresh)))))))

  pub create_task_chunk-Keeps : (e : Engine) (c : TaskChunk) → KeepsNew s (create_task_chunk e c s)
  unfolding create_task_chunk
  create_task_chunk-Keeps e chunk =
      let c = chunk_defaults chunk in
      executed_new e _ _ (
        required_new (not (has_chunk c.id s)) _ (λ fresh.
          required_new (not e.foreign_keys || has_task c.parent_task_id s) _ (λ parent.
            required_new (c.assigned_node == "" || references_node e c.assigned_node s) _ (λ refers.
              done_new (
                Chunks-now _ (
                  IsUnique-append (λ c. c.id) s.task_chunks _ v.chunks_valid
                    (not-true _ fresh)))))))

  pub create_cluster-Keeps :
      (e : Engine) (now : ℕ) (uuid token name host : String) (port grpc_port : ℕ)
      → KeepsNew s (create_cluster e now uuid token name host port grpc_port s)
  unfolding create_cluster
  create_cluster-Keeps e now uuid token name host port grpc_port = executed_new e _ _ (
      required_new (not (any (λ d. d.id == slice uuid 0 12) s.clusters)) _ (λ fresh. done_new (
        Clusters-now _
          (IsUnique-append (λ c. c.id) s.clusters _ v.clusters_valid (not-true _ fresh)))))

  pub register_node-Keeps : (e : Engine) (n : NodeRow F) → Keeps s (register_node e n s)
  unfolding register_node
  register_node-Keeps e n = executed e _ _ (
      required (node_check n) _ (λ checked. required (not (has_node n.id s)) _ (λ fresh.
        required (not e.foreign_keys || any (λ c. c.id == n.cluster_id) s.clusters) _ (λ refers.
          done (
            Nodes-now _ (
              Keyed-append (λ n. n.id) node_check s.nodes _ v.nodes_valid checked
                (not-true _ fresh)))))))

  pub delete_node-Keeps : (e : Engine) (i : String) → Keeps s (delete_node e i s)
  unfolding delete_node
  delete_node-Keeps e i = executed e _ _ (
      required (not (e.foreign_keys && (has_node i s && is_referenced i s))) _ (λ free. done (
        Nodes-now _
          (Keyed-select (λ n. n.id) node_check (λ n. not (node_key i n)) s.nodes v.nodes_valid))))

  pub create_user-Keeps :
      (e : Engine) (now : ℕ) (uuid : String) (u : User) → KeepsNew s (create_user e now uuid u s)
  unfolding create_user
  create_user-Keeps e now uuid u = executed_new e _ _ (
      required_new (user_check u) _ (λ checked.
        required_new
          (not (
            any
              (λ v.
                v.id == (if u.id == "" then slice uuid 0 12 else u.id) || v.username == u.username)
              s.users))
          _
          (λ fresh. done_new (
            Users-now _ (
              IsUnique-append (λ u. u.id) s.users _ v.users_valid.0
                  (any-first _ _ s.users (not-true _ fresh)),
              Keyed-append (λ u. u.username) user_check s.users _ v.users_valid.1 checked
                  (any-second _ _ s.users (not-true _ fresh)),
            )))))
