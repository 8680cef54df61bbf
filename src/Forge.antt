-- ===== src/Forge.antt =====
-- The distributed query engine: crates/forge-common, forge-proto, forge-shuffle, forge-scheduler.
pub mod Proto
pub mod Plan
pub mod Planner
pub mod Resolve
pub mod Job
pub mod Executors
pub mod Scheduler
pub mod Samples
pub mod Witnesses
