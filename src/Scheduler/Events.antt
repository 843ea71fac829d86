-- ===== src/Scheduler/Events.antt =====
-- The world that the controller acts on: the store, and the events that it has broadcast so far
-- through the hub of controller/api/websocket.go, the latest last.
use project_constellation.Prelude.{ℤ, String, List, [], ◌∷◌, ◌++◌}
use project_constellation.State.Model.{Cluster, NodeRow, Task}
use project_constellation.State.Engine.{Store, Result, after}

pub data Value (F : Type 0) : Type 0 where
  text : String → Value F
  number : ℤ → Value F
  task_value : Task → Value F
  node_value : NodeRow F → Value F
  cluster_value : Cluster → Value F

pub record Event (F : Type 0) : Type 0 where
  pub type : String
  pub fields : List (String × Value F)

pub record World (F : Type 0) : Type 0 where
  pub store : Store F
  pub events : List (Event F)

-- BroadcastEvent, as the caller sees it.
abbrev pub broadcast : {F : Type 0} → String → List (String × Value F) → World F → World F
broadcast type fields w = record w {
  events = w.events ++ record { type = type; fields = fields } ∷ [];
}

-- A store call whose error is dropped.
abbrev pub update_store : {F : Type 0} → (Store F → Result (Store F)) → World F → World F
update_store f w = record w { store = after w.store (f w.store) }
