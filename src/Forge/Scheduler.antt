-- ===== src/Forge/Scheduler.antt =====
-- crates/forge-scheduler/src/scheduler.rs. `State` has its data and the handlers of calls, `Dispatch`
-- the dispatch loop; the other modules prove what holds of them.
pub mod State
pub mod Dispatch
pub mod Slots
pub mod Eviction
