-- ===== src/Jobs.antt =====
-- The Jobs API (crates/lakeforge-api/src/api/jobs.rs).
pub mod Runs
pub mod Gate
pub mod Batch
pub mod Execute
pub mod Ended
pub mod Progress
pub mod Starts
pub mod Termination
pub mod Endings
pub mod Order
pub mod Dependencies
pub mod Rounds
pub mod Repair
pub mod Closure
pub mod Dependents
pub mod Stuck
pub mod Tick
pub mod Concurrency
pub mod Ticks
pub mod TickWitnesses
pub mod Attempts
pub mod Cancel
pub mod Validation
pub mod Samples
pub mod Witnesses
