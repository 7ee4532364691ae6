-- ===== src/Scheduler.antt =====
-- src/server/scheduler.rs: which node a pending pod is bound to.
pub mod Float
pub mod Quantity
pub mod Usage
pub mod Labels
pub mod Topology
pub mod Selection
pub mod Pass
pub mod Whole
mod Tests
