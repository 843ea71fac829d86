-- ===== src/State/Engine.antt =====
-- The database as controller/state/store.go sees it: the tables of `migrate`, the statements that
-- it may refuse, and the constraints that the schema states.
-- The engine itself (dqlite) is not part of the repository. What one call may meet of it is the
-- parameter `Engine`: whether foreign keys are enforced (an SQLite setting), and which statements
-- fail. A statement that fails changes nothing.
pub mod Rules
use project_constellation.Prelude.{
  Bool, true, false, not, ◌&&◌, ◌||◌, ◌==◌, String, List, [], ◌∷◌, one_of, any, if◌then◌else◌,
}
use project_constellation.State.Model.{
  Cluster, NodeLiveMetrics, NodeRow, Task, TaskChunk, User, AuditEntry,
}

pub data Table : Type 0 where
  cluster nodes tasks task_chunks users audit_log : Table

-- A statement, with the text of its key (a row's id, or what the query is about).
pub data Statement : Type 0 where
  select insert update delete count : Table → String → Statement

pub data Error : Type 0 where
  database constraint not_found : Error

pub data Result {ℓ} (A : Type ℓ) : Type ℓ where
  ok : A → Result A
  err : Error → Result A

infixl 5 ◌>>=◌
abbrev pub ◌>>=◌ {ℓ κ} : {A : Type ℓ} {B : Type κ} → Result A → (A → Result B) → Result B
ok a >>= f = f a
err e >>= f = err e

pub record Engine : Type 0 where
  pub foreign_keys : Bool
  pub fault : Statement → Bool

-- One statement: what it does, unless the database refuses it.
abbrev pub exec {ℓ} : {A : Type ℓ} → Engine → Statement → Result A → Result A
exec e s r = if e.fault s then err Error.database else r

-- A constraint of the schema over one statement.
abbrev pub require {ℓ} : {A : Type ℓ} → Bool → Result A → Result A
require true r = r
require false r = err Error.constraint

-- The tables, and the metrics that the store keeps in memory.
pub record Store (F : Type 0) : Type 0 where
  pub clusters : List Cluster
  pub nodes : List (NodeRow F)
  pub tasks : List Task
  pub task_chunks : List TaskChunk
  pub users : List User
  pub audit_log : List AuditEntry
  pub live_metrics : List (String × NodeLiveMetrics F)

-- A call whose error the caller drops: the store is as it was.
abbrev pub after {ℓ} : {S : Type ℓ} → S → Result S → S
after s (ok t) = t
after s (err e) = s

-- The store of a call that also returns a value.
abbrev pub new_state {ℓ κ} : {A : Type ℓ} {S : Type κ} → Result (A × S) → Result S
new_state (ok (a, s)) = ok s
new_state (err e) = err e

abbrev pub node_statuses : List String
node_statuses = "online" ∷ "offline" ∷ "draining" ∷ "maintenance" ∷ "discovered" ∷ []

abbrev pub task_statuses : List String
task_statuses =
    "submitted" ∷ "queued" ∷ "splitting" ∷ "scheduled" ∷ "transferring" ∷ "running" ∷ "completed"
    ∷ "failed" ∷ "cancelled" ∷ []

abbrev pub priorities : List String
priorities = "critical" ∷ "high" ∷ "normal" ∷ "low" ∷ []

-- The CHECK constraints of the schema.
abbrev pub node_check : {F : Type 0} → NodeRow F → Bool
node_check n = one_of n.role ("controller" ∷ "worker" ∷ []) && one_of n.status node_statuses

abbrev pub task_check : Task → Bool
task_check t =
    one_of t.status task_statuses
    && (one_of t.type ("simple" ∷ "split" ∷ [])
        && (one_of t.runtime ("bare" ∷ "docker" ∷ []) && one_of t.priority priorities))

abbrev pub user_check : User → Bool
user_check u = one_of u.role ("admin" ∷ "operator" ∷ "viewer" ∷ [])

-- The key of a node, task or chunk is in its table.
abbrev pub has_node : {F : Type 0} → String → Store F → Bool
has_node i s = any (λ n. n.id == i) s.nodes

abbrev pub has_task : {F : Type 0} → String → Store F → Bool
has_task i s = any (λ t. t.id == i) s.tasks

abbrev pub has_chunk : {F : Type 0} → String → Store F → Bool
has_chunk i s = any (λ c. c.id == i) s.task_chunks

-- `REFERENCES nodes(id)` of a value that is not NULL.
abbrev pub references_node : {F : Type 0} → Engine → String → Store F → Bool
references_node e i s = not e.foreign_keys || has_node i s
