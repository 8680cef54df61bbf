-- ===== src/Uc.antt =====
-- crates/lakeforge-api/src/uc/privileges.rs: the privilege model of the catalog.
pub mod Names
pub mod Normal
pub mod Securable
pub mod Authorizer
pub mod Caching
pub mod Inheritance
pub mod Grants
pub mod Changes
pub mod Granted
pub mod Effective
pub mod GrantSql
pub mod SqlAuth
pub mod Witnesses
