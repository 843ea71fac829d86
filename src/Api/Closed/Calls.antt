-- ===== src/Api/Closed/Calls.antt =====
-- What every call of the store keeps, and so each call by itself.
use project_constellation.Prelude.{refl, ℕ, ℤ, String}
use project_constellation.State.Model.{NodeRow, NodeLiveMetrics, Task, TaskChunk, User}
use project_constellation.State.Engine.{Engine, Store, ok, new_state}
use project_constellation.State.Tasks.{
  create_task, update_task_status, update_task_result, update_task_assignment, increment_task_retry,
}
use project_constellation.State.Chunks.{
  create_task_chunk, update_chunk_status, update_chunk_assignment,
}
use project_constellation.State.Nodes.{
  register_node, delete_node, update_node_status, update_node_heartbeat, update_node_live_metrics,
}
use project_constellation.State.Clusters.{
  create_cluster, delete_cluster, create_user, delete_user, update_user_login, add_audit_entry,
}
use project_constellation.State.Valid.{
  IsClosed, IsClosedAside, IsClosed-IsClosedAside, Write, perform, task_status_to, task_result_to,
  task_assignment_to, task_retry_of, chunk_status_to, chunk_assignment_to, node_status_to,
  heartbeat_at, register, delete_node_of, delete_user_of, delete_all_clusters, login_of, audit,
  create_task_of, create_chunk_of, create_user_of, create_cluster_of, metrics_to,
}
use project_constellation.Api.Keeps.{
  CallKeeps, InsertKeeps, Keeps, Keeps-bind, Keeps-seq, Keeps-query, Keeps-check, Keeps-decoded,
  Keeps-peek, Keeps-write, Keeps-insert, Keeps-attempt, Keeps-emit, Keeps-respond, Keeps-refuse,
  Keeps-skip, Keeps-give, Keeps-if, Keeps-panic, Keeps-collect,
}

module _ {F : Type 0} (P : Store F → Type 0) (h : IsClosed P) (e : Engine) where
  pub update_task_status-CallKeeps :
      (now : ℕ) (i status : String) → CallKeeps P (update_task_status e now i status)
  unfolding perform
  update_task_status-CallKeeps now i status = record {
    call_kept = h.closed e (task_status_to now i status);
  }

  pub update_task_result-CallKeeps :
      (now : ℕ) (i : String) (exit_code : ℤ) (message : String)
      → CallKeeps P (update_task_result e now i exit_code message)
  unfolding perform
  update_task_result-CallKeeps now i exit_code message = record {
    call_kept = h.closed e (task_result_to now i exit_code message);
  }

  pub update_task_assignment-CallKeeps :
      (i node_id : String) → CallKeeps P (update_task_assignment e i node_id)
  unfolding perform
  update_task_assignment-CallKeeps i node_id = record {
    call_kept = h.closed e (task_assignment_to i node_id);
  }

  pub increment_task_retry-CallKeeps : (i : String) → CallKeeps P (increment_task_retry e i)
  unfolding perform
  increment_task_retry-CallKeeps i = record { call_kept = h.closed e (task_retry_of i) }

  pub create_task-InsertKeeps :
      (now : ℕ) (uuid : String) (t : Task) → InsertKeeps P (create_task e now uuid t)
  unfolding perform
  create_task-InsertKeeps now uuid t = record {
    insert_kept = h.closed e (create_task_of now uuid t);
  }

  pub create_task-CallKeeps :
      (now : ℕ) (uuid : String) (t : Task)
      → CallKeeps P (λ s. new_state (create_task e now uuid t s))
  unfolding perform
  create_task-CallKeeps now uuid t = record { call_kept = h.closed e (create_task_of now uuid t) }

module _ {F : Type 0} (P : Store F → Type 0) (h : IsClosedAside P) (e : Engine) where
  pub update_chunk_status-CallKeeps :
      (now : ℕ) (i status : String) (exit_code : ℤ)
      → CallKeeps P (update_chunk_status e now i status exit_code)
  unfolding perform
  update_chunk_status-CallKeeps now i status exit_code = record {
    call_kept = λ s q. h.closed_aside e (chunk_status_to now i status exit_code) s refl q;
  }

  pub update_chunk_assignment-CallKeeps :
      (i node_id : String) → CallKeeps P (update_chunk_assignment e i node_id)
  unfolding perform
  update_chunk_assignment-CallKeeps i node_id = record {
    call_kept = λ s q. h.closed_aside e (chunk_assignment_to i node_id) s refl q;
  }

  pub update_node_status-CallKeeps :
      (i status : String) → CallKeeps P (update_node_status e i status)
  unfolding perform
  update_node_status-CallKeeps i status = record {
    call_kept = λ s q. h.closed_aside e (node_status_to i status) s refl q;
  }

  pub update_node_heartbeat-CallKeeps :
      (now : ℕ) (i : String) → CallKeeps P (update_node_heartbeat e now i)
  unfolding perform
  update_node_heartbeat-CallKeeps now i = record {
    call_kept = λ s q. h.closed_aside e (heartbeat_at now i) s refl q;
  }

  pub register_node-CallKeeps : (n : NodeRow F) → CallKeeps P (register_node e n)
  unfolding perform
  register_node-CallKeeps n = record { call_kept = λ s q. h.closed_aside e (register n) s refl q }

  pub delete_node-CallKeeps : (i : String) → CallKeeps P (delete_node e i)
  unfolding perform
  delete_node-CallKeeps i = record {
    call_kept = λ s q. h.closed_aside e (delete_node_of i) s refl q;
  }

  pub delete_user-CallKeeps : (name : String) → CallKeeps P (delete_user e name)
  unfolding perform
  delete_user-CallKeeps name = record {
    call_kept = λ s q. h.closed_aside e (delete_user_of name) s refl q;
  }

  pub delete_cluster-CallKeeps : CallKeeps P (delete_cluster e)
  unfolding perform
  delete_cluster-CallKeeps = record {
    call_kept = λ s q. h.closed_aside e (delete_all_clusters) s refl q;
  }

  pub update_user_login-CallKeeps :
      (now : ℕ) (name : String) → CallKeeps P (update_user_login e now name)
  unfolding perform
  update_user_login-CallKeeps now name = record {
    call_kept = λ s q. h.closed_aside e (login_of now name) s refl q;
  }

  pub add_audit_entry-CallKeeps :
      (now : ℕ) (a b c d f : String) → CallKeeps P (add_audit_entry e now a b c d f)
  unfolding perform
  add_audit_entry-CallKeeps now a b c d f = record {
    call_kept = λ s q. h.closed_aside e (audit now a b c d f) s refl q;
  }

  pub create_task_chunk-InsertKeeps : (c : TaskChunk) → InsertKeeps P (create_task_chunk e c)
  unfolding perform
  create_task_chunk-InsertKeeps c = record {
    insert_kept = λ s q. h.closed_aside e (create_chunk_of c) s refl q;
  }

  pub create_task_chunk-CallKeeps :
      (c : TaskChunk) → CallKeeps P (λ s. new_state (create_task_chunk e c s))
  unfolding perform
  create_task_chunk-CallKeeps c = record {
    call_kept = λ s q. h.closed_aside e (create_chunk_of c) s refl q;
  }

  pub create_user-InsertKeeps :
      (now : ℕ) (uuid : String) (u : User) → InsertKeeps P (create_user e now uuid u)
  unfolding perform
  create_user-InsertKeeps now uuid u = record {
    insert_kept = λ s q. h.closed_aside e (create_user_of now uuid u) s refl q;
  }

  pub create_user-CallKeeps :
      (now : ℕ) (uuid : String) (u : User)
      → CallKeeps P (λ s. new_state (create_user e now uuid u s))
  unfolding perform
  create_user-CallKeeps now uuid u = record {
    call_kept = λ s q. h.closed_aside e (create_user_of now uuid u) s refl q;
  }

  pub create_cluster-InsertKeeps :
      (now : ℕ) (uuid token name host : String) (port grpc_port : ℕ)
      → InsertKeeps P (create_cluster e now uuid token name host port grpc_port)
  unfolding perform
  create_cluster-InsertKeeps now uuid token name host port grpc_port = record {
    insert_kept = λ s q.
        h.closed_aside e (create_cluster_of now uuid token name host port grpc_port) s refl q;
  }

  pub create_cluster-CallKeeps :
      (now : ℕ) (uuid token name host : String) (port grpc_port : ℕ)
      → CallKeeps P (λ s. new_state (create_cluster e now uuid token name host port grpc_port s))
  unfolding perform
  create_cluster-CallKeeps now uuid token name host port grpc_port = record {
    call_kept = λ s q.
        h.closed_aside e (create_cluster_of now uuid token name host port grpc_port) s refl q;
  }

  pub update_node_live_metrics-CallKeeps :
      (now : ℕ) (i : String) (m : NodeLiveMetrics F)
      → CallKeeps P (λ s. ok (update_node_live_metrics now i m s))
  unfolding perform
  update_node_live_metrics-CallKeeps now i m = record {
    call_kept = λ s q. h.closed_aside e (metrics_to now i m) s refl q;
  }

-- The rules of the steps, and of the calls that they make.
pub ruleset handler_rules = (
  IsClosed-IsClosedAside, Keeps-bind, Keeps-seq, Keeps-query, Keeps-check, Keeps-decoded,
  Keeps-peek, Keeps-write, Keeps-insert, Keeps-attempt, Keeps-emit, Keeps-respond, Keeps-refuse,
  Keeps-skip, Keeps-give, Keeps-if, Keeps-panic, Keeps-collect, update_task_status-CallKeeps,
  update_task_result-CallKeeps, increment_task_retry-CallKeeps, update_chunk_status-CallKeeps,
  update_node_status-CallKeeps, update_node_heartbeat-CallKeeps, register_node-CallKeeps,
  delete_node-CallKeeps, delete_user-CallKeeps, delete_cluster-CallKeeps,
  update_user_login-CallKeeps, add_audit_entry-CallKeeps, update_node_live_metrics-CallKeeps,
  create_user-CallKeeps, create_task-InsertKeeps, create_user-InsertKeeps,
  create_cluster-InsertKeeps,
)
