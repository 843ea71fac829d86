-- ===== src/State/Clusters.antt =====
-- The cluster, user and audit operations of controller/state/store.go.
use Prim.Native.String.{slice}
use project_constellation.Prelude.{
  ℕ, ◌+◌, ℤ, pos, negsuc, Bool, ◌&&◌, ◌||◌, not, ◌==◌, String, List, [], ◌∷◌, ◌++◌, none, some,
  Option, concat, eqb, leb, any, select, find?, update_where, sort_by, take, length, if◌then◌else◌,
}
use project_constellation.State.Model.{Cluster, User, AuditEntry}
use project_constellation.State.Engine.{
  Engine, Store, Result, ok, Statement, Table, exec, require, user_check,
}
use project_constellation.State.Tasks.{datetime}

abbrev pub head? {ℓ} : {A : Type ℓ} → List A → Option A
head? [] = none
head? (x ∷ xs) = some x

abbrev pub user_key : String → User → Bool
user_key name u = u.username == name

-- The number that AUTOINCREMENT gives: one more than any before it. Entries are never deleted.
abbrev pub next_audit_id : List AuditEntry → ℕ
next_audit_id xs = length xs + 1

-- `LIMIT` of ListAuditLog.
abbrev pub audit_limit : ℤ → ℕ
audit_limit (negsuc n) = 100
audit_limit (pos n) = if eqb n 0 then 100 else n

module _ {F : Type 0} (e : Engine) where
  unfoldable pub create_cluster :
      ℕ → String → String → String → String → ℕ → ℕ → Store F → Result (Cluster × Store F)
  create_cluster now uuid token_uuid name host port grpc_port s =
      let c : Cluster = record {
        id = slice uuid 0 12;
        name = name;
        controller_host = host;
        controller_port = port;
        grpc_port = grpc_port;
        join_token = concat "cst_" (slice token_uuid 0 16);
        created_at = now;
      } in
      exec e (Statement.insert Table.cluster c.id) (
        require (not (any (λ d. d.id == c.id) s.clusters))
          (ok (c, record s { clusters = s.clusters ++ c ∷ [] })))

  -- The first row, or none.
  unfoldable pub get_cluster : Store F → Result (Option Cluster)
  get_cluster s = exec e (Statement.select Table.cluster "") (ok (head? s.clusters))

  -- A cluster that a node refers to stays, where foreign keys are enforced.
  unfoldable pub delete_cluster : Store F → Result (Store F)
  delete_cluster s = exec e (Statement.delete Table.cluster "") (
      require
        (not (e.foreign_keys && any (λ c. any (λ n. n.cluster_id == c.id) s.nodes) s.clusters))
        (ok (record s { clusters = [] })))

  unfoldable pub create_user : ℕ → String → User → Store F → Result (User × Store F)
  create_user now uuid user s =
      let u = record user {
        id = if user.id == "" then slice uuid 0 12 else user.id;
        created_at = if eqb user.created_at 0 then now else user.created_at;
      } in
      exec e (Statement.insert Table.users u.username) (
        require (user_check u) (
          require (not (any (λ v. v.id == u.id || v.username == u.username) s.users))
            (ok (u, record s { users = s.users ++ record u { last_login = 0 } ∷ [] }))))

  unfoldable pub get_user_by_username : String → Store F → Result (Option User)
  get_user_by_username name s =
      exec e (Statement.select Table.users name) (ok (find? (user_key name) s.users))

  unfoldable pub list_users : Store F → Result (List User)
  list_users s =
      exec e (Statement.select Table.users "")
        (ok (sort_by (λ a b. leb a.created_at b.created_at) s.users))

  unfoldable pub delete_user : String → Store F → Result (Store F)
  delete_user name s =
      exec e (Statement.delete Table.users name)
        (ok (record s { users = select (λ u. not (user_key name u)) s.users }))

  unfoldable pub update_user_login : ℕ → String → Store F → Result (Store F)
  update_user_login now name s = exec e (Statement.update Table.users name) (
      ok (record s {
        users = update_where (user_key name) (λ u. record u { last_login = datetime now }) s.users;
      }))

  unfoldable pub add_audit_entry :
      ℕ → String → String → String → String → String → Store F → Result (Store F)
  add_audit_entry now user_id action target_type target_id details s =
      exec e (Statement.insert Table.audit_log target_id) (
        ok (record s {
          audit_log =
              s.audit_log
              ++ record {
                id = next_audit_id s.audit_log;
                timestamp = datetime now;
                user_id = user_id;
                action = action;
                target_type = target_type;
                target_id = target_id;
                details = details;
              }
                ∷ [];
        }))

  unfoldable pub list_audit_log : ℤ → Store F → Result (List AuditEntry)
  list_audit_log limit s =
      exec e (Statement.select Table.audit_log "")
        (ok (take (audit_limit limit) (sort_by (λ a b. leb b.timestamp a.timestamp) s.audit_log)))
