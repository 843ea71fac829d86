-- ===== src/Examples.antt =====
-- Runs of the model at concrete inputs: the theorems of the other modules, applied.
mod Fixed
mod Data
mod Placement
mod Cycle
mod Store
mod System
mod Split
mod Login
mod Submit
mod Hub
mod Queue
mod Client
mod Report
