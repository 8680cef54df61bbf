-- ===== src/Uc/GrantSql/Rendering.antt =====
-- The tokens of GRANT and REVOKE statements
-- (crates/lakeforge-api/src/uc/grant_sql.rs).
use lakeforge.Prelude.{
  ◌≡◌, Bool, true, List, [], ◌∷◌, ◌++◌, map, nat_eq, if◌then◌else◌, All, String,
}
use lakeforge.Uc.Names.{Name, codes, name_eq, split_name, normalize_privilege}
use lakeforge.Uc.Securable.{
  Securable, metastore, catalog, schema, table, volume, function, external_location,
  storage_credential, connection, share, recipient, provider,
}
use lakeforge.Uc.GrantSql.Tokens.{Tok, comma}
use lakeforge.Uc.GrantSql.Parse.{is_privilege_word, join, spell_all, qualify}
use lakeforge.Uc.GrantSql.Statements.{grantee_keyword}
use lakeforge.Uc.GrantSql.Printing.{word, quote}

abbrev pub keywords : List String → List Tok
keywords ss = map (λ s. word (codes s)) ss

-- The keywords of a securable, and its name in backticks; the metastore has no name.
abbrev pub securable_toks : Securable → Name → List Tok
securable_toks metastore name = keywords ("METASTORE" ∷ [])
securable_toks catalog name = keywords ("CATALOG" ∷ []) ++ quote name ∷ []
securable_toks schema name = keywords ("SCHEMA" ∷ []) ++ quote name ∷ []
securable_toks table name = keywords ("TABLE" ∷ []) ++ quote name ∷ []
securable_toks volume name = keywords ("VOLUME" ∷ []) ++ quote name ∷ []
securable_toks function name = keywords ("FUNCTION" ∷ []) ++ quote name ∷ []
securable_toks external_location name = keywords ("EXTERNAL" ∷ "LOCATION" ∷ []) ++ quote name ∷ []
securable_toks storage_credential name = keywords ("STORAGE" ∷ "CREDENTIAL" ∷ []) ++ quote name ∷ []
securable_toks connection name = keywords ("CONNECTION" ∷ []) ++ quote name ∷ []
securable_toks share name = keywords ("SHARE" ∷ []) ++ quote name ∷ []
securable_toks recipient name = keywords ("RECIPIENT" ∷ []) ++ quote name ∷ []
securable_toks provider name = keywords ("PROVIDER" ∷ []) ++ quote name ∷ []

-- A privilege is the list of its words.
abbrev pub privileges_toks : List (List Name) → List Tok
privileges_toks [] = []
privileges_toks (ws ∷ []) = map word ws
privileges_toks (ws ∷ vs ∷ ps) = map word ws ++ comma ∷ privileges_toks (vs ∷ ps)

abbrev pub verb : Bool → Name
verb granting = if granting then codes "GRANT" else codes "REVOKE"

abbrev pub grantee_toks : Bool → Name → List Tok
grantee_toks granting principal = word (grantee_keyword granting) ∷ quote principal ∷ []

abbrev pub grant_toks : Bool → List (List Name) → Securable → Name → Name → List Tok
grant_toks granting ps sec name principal =
    word (verb granting) ∷ privileges_toks ps
    ++ (word (codes "ON") ∷ securable_toks sec name ++ grantee_toks granting principal)

-- A privilege as the parser spells it.
abbrev pub privilege : List Name → Name
privilege ws = spell_all (normalize_privilege (join ws))

-- The full name that the statement is about.
abbrev pub full_name : Name → Name → Securable → Name → Name
full_name dc ds metastore name = codes "lakeforge-metastore"
full_name dc ds sec name = qualify dc ds sec (split_name 46 name) name

abbrev pub IsPrivilege : List Name → Type 0
IsPrivilege [] = ⊥
IsPrivilege (w ∷ ws) = (is_privilege_word w ≡ true) × All (λ v. is_privilege_word v ≡ true) ws
