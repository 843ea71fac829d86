-- ===== src/Scheduler.antt =====
-- controller/scheduler: scoring, placement, the scheduling cycle and the heartbeat monitor.
pub mod Scoring
pub mod Placement
pub mod Events
pub mod Loop
pub mod Queue
pub mod Cycle
pub mod Heartbeat
