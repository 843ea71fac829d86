-- ===== src/Api.antt =====
-- The HTTP handlers of controller/api.
pub mod Handler
pub mod Keeps
pub mod Numbers
pub mod Tasks
pub mod Agents
pub mod Auth
pub mod Users
pub mod Nodes
pub mod Cluster
pub mod Closed
pub mod Hub
