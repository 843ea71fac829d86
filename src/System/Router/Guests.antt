-- ===== src/System/Router/Guests.antt =====
-- What the three handlers outside the guarded group and the Heartbeat of gRPC leave as it is.
use project_constellation.Prelude.{
  ℕ, ◌≡◌, refl, sym, subst, ◌⊎◌, inl, inr, Bool, Bool-cases, ◌&&◌, update_where, ap, ◌∙◌, not, ◌||◌,
  ◌==◌, String, List, [], ◌∷◌, ◌++◌, Option, none, some, any, arith, Float,
}
use project_constellation.State.Model.{Cluster, NodeRow, User}
use project_constellation.State.Engine.{
  Engine, Store, ok, new_state, Statement, Table, node_check, has_node,
}
use project_constellation.State.Engine.Rules.{after-exec, after-require}
use project_constellation.State.Nodes.{
  node_key, register_node, set_heartbeat, update_node_heartbeat,
}
use project_constellation.State.Clusters.{
  add_audit_entry, create_cluster, create_user, update_user_login,
}
use project_constellation.Api.Handler.{attempt}
use project_constellation.Api.Keeps.{Keeps, CallKeeps, InsertKeeps, Keeps-attempt}
use project_constellation.Api.Closed.Calls.{handler_rules}
use project_constellation.Api.Auth.{Jwt}
use project_constellation.Api.Users.{
  LoginRequest, handle_login, login_steps, or_unauthorized, signed,
}
use project_constellation.Api.Nodes.{
  NodeJoinRequest, grpc_heartbeat, handle_node_join, join_steps, or_not_found,
}
use project_constellation.Api.Cluster.{
  Machine, Uuids, handle_cluster_init, init_steps, refuse_existing,
}

-- A node as it was, or as a heartbeat left it: online, with the time of the heartbeat.
abbrev pub Beaten : {F : Type 0} → NodeRow F → NodeRow F → Type 0
Beaten n m = (m ≡ n) ⊎ (at : ℕ) × (m ≡ set_heartbeat at n)

-- The nodes are still there, in their order, but for heartbeats, and others may come after them.
abbrev pub Follows : {F : Type 0} → List (NodeRow F) → List (NodeRow F) → Type 0
Follows [] ms = Unit {0}
Follows (n ∷ ns) [] = ⊥
Follows (n ∷ ns) (m ∷ ms) = Beaten n m × Follows ns ms

module _ {F : Type 0} where
  pub Follows-refl : (ns : List (NodeRow F)) → Follows ns ns
  Follows-refl [] = tt
  Follows-refl (n ∷ ns) = (inl refl, Follows-refl ns)

  Follows-append :
      (ns ms : List (NodeRow F)) (row : NodeRow F) → Follows ns ms → Follows ns (ms ++ row ∷ [])
  Follows-append [] ms row h = tt
  Follows-append (n ∷ ns) [] row h = absurd h
  Follows-append (n ∷ ns) (m ∷ ms) row h = (h.0, Follows-append ns ms row h.1)

  beat-Beaten : (now : ℕ) (n m : NodeRow F) → Beaten n m → Beaten n (set_heartbeat now m)
  beat-Beaten now n m (inl same) = inr (now, ap (set_heartbeat now) same)
  beat-Beaten now n m (inr (at, e)) = inr (now, ap (set_heartbeat now) e)

  Follows-update :
      (now : ℕ) (p : NodeRow F → Bool) (ns ms : List (NodeRow F))
      → Follows ns ms
      → Follows ns (update_where p (set_heartbeat now) ms)
  Follows-update now p [] ms h = tt
  Follows-update now p (n ∷ ns) [] h = absurd h
  Follows-update now p (n ∷ ns) (m ∷ ms) h = elim (Bool-cases (p m)) [
    | inl b ↦ rw b (beat-Beaten now n m h.0, Follows-update now p ns ms h.1)
    | inr b ↦ rw b (h.0, Follows-update now p ns ms h.1)
  ]

-- The tasks and the chunks are as they were, and the nodes too, but for heartbeats and new nodes.
pub record Untouched {F : Type 0} (base s : Store F) : Type 0 where
  pub tasks_kept : s.tasks ≡ base.tasks
  pub chunks_kept : s.task_chunks ≡ base.task_chunks
  pub nodes_kept : Follows base.nodes s.nodes

-- Other tables do not matter.
same_rows :
    {F : Type 0} (base s s' : Store F)
    → s'.tasks ≡ s.tasks
    → s'.task_chunks ≡ s.task_chunks
    → s'.nodes ≡ s.nodes
    → Untouched base s
    → Untouched base s'
same_rows base s s' t c n h = record {
  tasks_kept = t ∙ h.tasks_kept;
  chunks_kept = c ∙ h.chunks_kept;
  nodes_kept = subst (Follows base.nodes) (sym n) h.nodes_kept;
}

module _ {F : Type 0} (base : Store F) (e : Engine) where
  create_cluster-InsertKeeps :
      (now : ℕ) (uuid token name host : String) (port grpc_port : ℕ)
      → InsertKeeps (Untouched base) (create_cluster e now uuid token name host port grpc_port)
  unfolding create_cluster
  create_cluster-InsertKeeps now uuid token name host port grpc_port = record {
    insert_kept = λ s h. same_rows base s _ (ground arith) (ground arith) (ground arith) h;
  }

  create_user-CallKeeps :
      (now : ℕ) (uuid : String) (u : User)
      → CallKeeps (Untouched base) (λ s. new_state (create_user e now uuid u s))
  unfolding create_user
  create_user-CallKeeps now uuid u = record {
    call_kept = λ s h. same_rows base s _ (ground arith) (ground arith) (ground arith) h;
  }

  update_user_login-CallKeeps :
      (now : ℕ) (name : String) → CallKeeps (Untouched base) (update_user_login e now name)
  unfolding update_user_login
  update_user_login-CallKeeps now name = record {
    call_kept = λ s h. same_rows base s _ (ground arith) (ground arith) (ground arith) h;
  }

  add_audit_entry-CallKeeps :
      (now : ℕ) (a b c d m : String) → CallKeeps (Untouched base) (add_audit_entry e now a b c d m)
  unfolding add_audit_entry
  add_audit_entry-CallKeeps now a b c d m = record {
    call_kept = λ s h. same_rows base s _ (ground arith) (ground arith) (ground arith) h;
  }

  register_node-CallKeeps : (n : NodeRow F) → CallKeeps (Untouched base) (register_node e n)
  unfolding register_node
  register_node-CallKeeps n = record {
    call_kept = λ s h.
        let row = record n { ssh_user = ""; ssh_port = 22; last_ip_change = 0 } in
        after-exec (Untouched base) s h e (Statement.insert Table.nodes n.id) _ (
          after-require (Untouched base) s h (node_check n) _ (λ c1.
            after-require (Untouched base) s h (not (has_node n.id s)) _ (λ c2.
              after-require (Untouched base) s h
                (not e.foreign_keys || any (λ c. c.id == n.cluster_id) s.clusters)
                (ok (record s { nodes = s.nodes ++ row ∷ [] }))
                (λ c3. record {
                  tasks_kept = h.tasks_kept;
                  chunks_kept = h.chunks_kept;
                  nodes_kept = Follows-append base.nodes s.nodes row h.nodes_kept;
                }))));
  }

  update_node_heartbeat-CallKeeps :
      (now : ℕ) (i : String) → CallKeeps (Untouched base) (update_node_heartbeat e now i)
  unfolding update_node_heartbeat
  update_node_heartbeat-CallKeeps now i = record {
    call_kept = λ s h. after-exec (Untouched base) s h e (Statement.update Table.nodes i) _ (
        after-require (Untouched base) s h
          (not (any (λ n. node_key i n && not (node_check (set_heartbeat now n))) s.nodes)) _
          (λ c. record {
            tasks_kept = h.tasks_kept;
            chunks_kept = h.chunks_kept;
            nodes_kept = Follows-update now (node_key i) base.nodes s.nodes h.nodes_kept;
          }));
  }

  pub grpc_heartbeat-Keeps :
      (now : ℕ) (i : String) → Keeps (Untouched base) (grpc_heartbeat {F = F} e now i)
  unfolding grpc_heartbeat
  grpc_heartbeat-Keeps now i = search (handler_rules, update_node_heartbeat-CallKeeps)

  or_unauthorized-Keeps :
      {R : Type 0} (now : ℕ) (sha256 : String → String) (o : Option User)
      → Keeps {R = R} (Untouched base) (or_unauthorized {F = F} e now sha256 o)
  unfolding or_unauthorized
  or_unauthorized-Keeps now sha256 none = search handler_rules
  or_unauthorized-Keeps now sha256 (some u) = search handler_rules

  signed-Keeps :
      (now : ℕ) (sha256 : String → String) (u : User) (o : Option String)
      → Keeps (Untouched base) (signed {F = F} e now sha256 u o)
  unfolding signed
  signed-Keeps now sha256 u none = search handler_rules
  signed-Keeps now sha256 u (some token) = search handler_rules

  login_steps-Keeps :
      (now : ℕ) (sha256 : String → String) (jwt : Jwt) (req : LoginRequest)
      → Keeps (Untouched base) (login_steps {F = F} e now sha256 jwt req)
  unfolding login_steps
  login_steps-Keeps now sha256 jwt req =
      search (handler_rules, or_unauthorized-Keeps, signed-Keeps, update_user_login-CallKeeps) depth
        20

  pub handle_login-Keeps :
      (now : ℕ) (sha256 : String → String) (jwt : Jwt) (body : Option LoginRequest)
      → Keeps (Untouched base) (handle_login {F = F} e now sha256 jwt body)
  unfolding handle_login
  handle_login-Keeps now sha256 jwt body = search (handler_rules, login_steps-Keeps)

module _ {F : Type 0} ⦃fl : Float F⦄ (base : Store F) (e : Engine) where
  or_not_found-Keeps :
      {R : Type 0} (now : ℕ) (o : Option Cluster)
      → Keeps {R = R} (Untouched base) (or_not_found {F = F} e now o)
  unfolding or_not_found
  or_not_found-Keeps now none = search handler_rules
  or_not_found-Keeps now (some c) = search handler_rules

  join_steps-Keeps :
      (now : ℕ) (jwt : Jwt) (uuid : String) (req : NodeJoinRequest F)
      → Keeps (Untouched base) (join_steps e now jwt uuid req)
  unfolding join_steps
  join_steps-Keeps now jwt uuid req =
      search (handler_rules, or_not_found-Keeps, register_node-CallKeeps, add_audit_entry-CallKeeps)
        depth 20

  pub handle_node_join-Keeps :
      (now : ℕ) (jwt : Jwt) (uuid : String) (body : Option (NodeJoinRequest F))
      → Keeps (Untouched base) (handle_node_join e now jwt uuid body)
  unfolding handle_node_join
  handle_node_join-Keeps now jwt uuid body = search (handler_rules, join_steps-Keeps)

  refuse_existing-Keeps :
      {R : Type 0} (now : ℕ) (o : Option Cluster)
      → Keeps {R = R} (Untouched base) (refuse_existing {F = F} e now o)
  unfolding refuse_existing
  refuse_existing-Keeps now none = search handler_rules
  refuse_existing-Keeps now (some c) = search handler_rules

  create_user-Keeps :
      {R : Type 0} (now : ℕ) (uuid : String) (u : User)
      → Keeps {R = R} (Untouched base) (attempt (λ s. new_state (create_user e now uuid u s)))
  create_user-Keeps now uuid u = Keeps-attempt _ _ (create_user-CallKeeps base e now uuid u)

  init_steps-Keeps :
      (now : ℕ) (m : Machine) (ids : Uuids) (sha256 : String → String) (name : String)
      → Keeps (Untouched base) (init_steps {F = F} e now m ids sha256 name)
  unfolding init_steps
  init_steps-Keeps now m ids sha256 name =
      search
        (
          handler_rules, refuse_existing-Keeps, create_user-Keeps, create_cluster-InsertKeeps,
          register_node-CallKeeps, add_audit_entry-CallKeeps,
        )
        depth 20

  pub handle_cluster_init-Keeps :
      (now : ℕ) (m : Machine) (ids : Uuids) (sha256 : String → String) (body : Option String)
      → Keeps (Untouched base) (handle_cluster_init {F = F} e now m ids sha256 body)
  unfolding handle_cluster_init
  handle_cluster_init-Keeps now m ids sha256 body = search (handler_rules, init_steps-Keeps)
