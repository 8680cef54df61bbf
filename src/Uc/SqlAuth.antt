-- ===== src/Uc/SqlAuth.antt =====
-- The privileges that a statement needs (crates/lakeforge-api/src/uc/sqlauth.rs and the analysis of
-- crates/lakeforge-api/src/uc/sqlguard.rs that it works on).
pub mod Checks
pub mod Statements
pub mod Spec
pub mod Agreement
pub mod Enforced
pub mod Witnesses
