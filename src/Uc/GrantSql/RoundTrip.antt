-- ===== src/Uc/GrantSql/RoundTrip.antt =====
-- GRANT and REVOKE statements as text, read back
-- (crates/lakeforge-api/src/uc/grant_sql.rs).
use lakeforge.Prelude.{Bool, List, nat_eq}
use lakeforge.Uc.Names.{Name, name_eq}
use lakeforge.Uc.Securable.{Securable}
use lakeforge.Uc.GrantSql.Printing.{print_toks}
use lakeforge.Uc.GrantSql.Rendering.{grant_toks}

-- The text of a GRANT or REVOKE statement.
abbrev pub render : Bool → List (List Name) → Securable → Name → Name → Name
render granting ps sec name principal = print_toks (grant_toks granting ps sec name principal)
