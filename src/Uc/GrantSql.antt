-- ===== src/Uc/GrantSql.antt =====
-- The privilege statements of SQL (crates/lakeforge-api/src/uc/grant_sql.rs).
pub mod Tokens
pub mod Parse
pub mod Statements
pub mod Printing
pub mod Rendering
pub mod Reading
pub mod RoundTrip
pub mod Ownership
pub mod Witnesses
