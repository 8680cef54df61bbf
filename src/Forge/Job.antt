-- ===== src/Forge/Job.antt =====
-- crates/forge-scheduler/src/job.rs: the state machine of one distributed job. `State` has its
-- data, `Ops`, `Events` and `Info` its operations; the other modules have the theorems.
pub mod State
pub mod Ops
pub mod Events
pub mod Info
pub mod Invariant
pub mod Reports
pub mod ErrorPath
pub mod Runs
pub mod Lost
pub mod Counts
pub mod Launches
pub mod Results
