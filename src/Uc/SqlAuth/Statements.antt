-- ===== src/Uc/SqlAuth/Statements.antt =====
-- `authorize_sql` (crates/lakeforge-api/src/uc/sqlauth.rs).
use lakeforge.Prelude.{◌&&◌, Option, none, some, List, [], ◌∷◌, ◌++◌, if◌then◌else◌}
use lakeforge.Prelude.Assoc.{Assoc, insert}
use lakeforge.Uc.Names.{Name, codes, name_eq}
use lakeforge.Uc.Securable.{Securable, catalog, schema, table, function}
use lakeforge.Uc.Authorizer.{Principal, Catalog, is_empty}
use lakeforge.Uc.SqlAuth.Checks.{
  Check, ◌>>=◌, ◌>>◌, pure, deny, is_write, Analysis, Metastore, in_system, parent_schema,
  parent_catalog, required, required_owner, required_path, required_object, require_system_read,
  require_visible_parents, require_path_privilege, governed_table, is_system_table, uc_exists,
}

-- `full_name -> table_type`, of the governed tables that the statement touches.
abbrev pub Types : Type 0
Types = Assoc Name Name

module _ (c : Catalog) (p : Principal) (m : Metastore) where
  abbrev pub read_governed : Types → Name → Option Name → Check Types
  read_governed types full (some t) = do
    if in_system full
        then require_system_read c p m full
        else required_object c p m table full (codes "SELECT")
    pure (insert full t types)
  read_governed types full none = do require_visible_parents c p m full; pure types

  unfoldable pub check_reads : List Name → Types → Check Types
  check_reads [] types = pure types
  check_reads (full ∷ ns) types = do
    next ← read_governed types full (governed_table m full)
    check_reads ns next

  abbrev pub write_governed : Types → Name → Option Name → Check Types
  write_governed types full (some t) = do
    required_object c p m table full (codes "MODIFY")
    pure (insert full t types)
  write_governed types full none = do require_visible_parents c p m full; pure types

  unfoldable pub check_write : Types → Name → Check Types
  check_write types full =
      if is_system_table m full
      then deny (codes "Table '" ++ full ++ codes "' is read-only")
      else write_governed types full (governed_table m full)

  unfoldable pub check_writes : List Name → Types → Check Types
  unfolding check_write
  check_writes [] types = pure types
  check_writes (full ∷ ns) types = do next ← check_write types full; check_writes ns next

  abbrev pub create_in_schema : Name → Name → Option Name → Check (Unit {0})
  create_in_schema full privilege none = pure tt
  create_in_schema full privilege (some s) = do
    required_path c p m full
    required c p m schema s privilege

  abbrev pub create_in_catalog : Option Name → Check (Unit {0})
  create_in_catalog none = pure tt
  create_in_catalog (some k) = do
    required c p m catalog k (codes "USE_CATALOG")
    required c p m catalog k (codes "CREATE_SCHEMA")

  abbrev pub create_new : Securable → Name → Check (Unit {0})
  create_new table full = create_in_schema full (codes "CREATE_TABLE") (parent_schema full)
  create_new function full = create_in_schema full (codes "CREATE_FUNCTION") (parent_schema full)
  create_new schema full = create_in_catalog (parent_catalog full)
  create_new sec full = required_owner c p m sec full

  abbrev pub create_location : Option Name → Check (Unit {0})
  create_location none = pure tt
  create_location (some loc) = require_path_privilege c p m loc (codes "CREATE_EXTERNAL_TABLE")

  abbrev pub read_only : Check (Unit {0})
  read_only = deny (codes "Catalog 'system' is read-only")

  -- A replacement of what exists needs its owner, and no check of the location.
  unfoldable pub check_create : Analysis → Securable → Name → Check (Unit {0})
  check_create an sec full =
      let created = do create_new sec full; create_location an.location
      in if in_system full
        then read_only
        else if an.replace && uc_exists m sec full
        then required_owner c p m sec full
        else created

  unfoldable pub check_creates : Analysis → List (Securable × Name) → Check (Unit {0})
  unfolding check_create
  check_creates an [] = pure tt
  check_creates an ((sec, full) ∷ es) = do check_create an sec full; check_creates an es

  unfoldable pub check_owned_one : Securable → Name → Check (Unit {0})
  check_owned_one sec full =
      if in_system full
      then read_only
      else if uc_exists m sec full
      then required_owner c p m sec full
      else require_visible_parents c p m full

  unfoldable pub check_owned : List (Securable × Name) → Check (Unit {0})
  unfolding check_owned_one
  check_owned [] = pure tt
  check_owned ((sec, full) ∷ es) = do check_owned_one sec full; check_owned es

  abbrev pub path_privilege : Analysis → Name
  path_privilege an =
      if is_write an.kind && is_empty an.writes && is_empty an.creates
      then codes "WRITE_FILES"
      else codes "READ_FILES"

  unfoldable pub check_paths : Name → List Name → Check (Unit {0})
  check_paths privilege [] = pure tt
  check_paths privilege (path ∷ ps) = do
    require_path_privilege c p m path privilege
    check_paths privilege ps

  unfoldable pub authorize_sql : Analysis → Check Types
  unfolding check_reads check_writes check_creates check_owned check_paths is_write
  authorize_sql an = do
    read ← check_reads an.reads []
    types ← check_writes an.writes read
    check_creates an an.creates
    check_owned an.owned
    check_paths (path_privilege an) an.paths
    pure types
