-- ===== src/State.antt =====
-- controller/state/store.go: the structs, the database, and the operations of the store.
pub mod Model
pub mod Engine
pub mod Tasks
pub mod Chunks
pub mod Nodes
pub mod Clusters
pub mod Pool
pub mod Valid
