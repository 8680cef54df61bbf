-- ===== src/Uc/SqlAuth/Spec.antt =====
-- Which statements a principal may run: the rights on the objects of an analysis, read from the
-- store and from no caches (crates/lakeforge-api/src/uc/sqlauth.rs).
use lakeforge.Prelude.{
  Bool, true, false, ◌&&◌, ◌||◌, Option, none, some, List, [], ◌∷◌, ◌++◌, any, if◌then◌else◌, ◌==◌,
  not, ℕ, all,
}
use lakeforge.Uc.Names.{Name, codes, name_eq, split_name}
use lakeforge.Uc.Securable.{
  Securable, catalog, schema, table, function, external_location, lineage_of,
}
use lakeforge.Uc.Authorizer.{Principal, Catalog, owner_of, matches_owner}
use lakeforge.Uc.Caching.{permits}
use lakeforge.Uc.SqlAuth.Checks.{
  Analysis, Metastore, is_some, uc_get, uc_exists, is_system_table, governed_table, best_location,
  in_system, parent_schema, parent_catalog, second_or_empty,
}
use lakeforge.Uc.SqlAuth.Statements.{path_privilege}

module _ (c : Catalog) (p : Principal) where
  -- The right to use the ancestors of a name: USE CATALOG, and USE SCHEMA for three parts.
  abbrev pub uses_schema : List Name → Bool
  uses_schema (k ∷ s ∷ t ∷ r) = permits c p schema (k ++ 46 ∷ s) (codes "USE_SCHEMA")
  uses_schema _ = true

  abbrev pub uses_parts : List Name → Bool
  uses_parts [] = true
  uses_parts (k ∷ r) = permits c p catalog k (codes "USE_CATALOG") && uses_schema (k ∷ r)

  abbrev pub uses_path : Name → Bool
  uses_path full = uses_parts (split_name 46 full)

  abbrev pub may : Securable → Name → Name → Bool
  may sec full privilege = uses_path full && permits c p sec full privilege

  -- An admin, or an owner along the lineage.
  unfoldable pub owns : Securable → Name → Bool
  owns sec n =
      p.is_admin
      || any (λ (e : Securable × Name). matches_owner p (owner_of c e.0 e.1)) (lineage_of sec n)

  -- One who owns it, or has MANAGE.
  unfoldable pub manages : Securable → Name → Bool
  manages sec n = owns sec n || permits c p sec n (codes "MANAGE")

  module _ (m : Metastore) where
    abbrev pub sees_catalog : List Name → Bool
    sees_catalog [] = true
    sees_catalog (k ∷ r) =
        not (uc_exists m catalog k) || permits c p catalog k (codes "USE_CATALOG")

    abbrev pub sees_schema : List Name → Bool
    sees_schema (k ∷ s ∷ t ∷ r) =
        not (is_some (uc_get m schema (k ++ codes "." ++ s)))
        || permits c p schema (k ++ codes "." ++ s) (codes "USE_SCHEMA")
    sees_schema _ = true

    -- The rights on those ancestors of a name that exist.
    abbrev pub sees : Name → Bool
    sees full = sees_catalog (split_name 46 full) && sees_schema (split_name 46 full)

    abbrev pub reads_system : Name → Bool
    reads_system s =
        s == codes "information_schema"
        || (any (λ x. x == s) m.enabled_system_schemas
            && (p.is_admin || permits c p schema (codes "system." ++ s) (codes "SELECT")))

    abbrev pub may_read_governed : Name → Option Name → Bool
    may_read_governed full (some t) =
        if in_system full
        then reads_system (second_or_empty (split_name 46 full))
        else may table full (codes "SELECT")
    may_read_governed full none = sees full

    abbrev pub may_read : Name → Bool
    may_read full = may_read_governed full (governed_table m full)

    abbrev pub may_write_governed : Name → Option Name → Bool
    may_write_governed full (some t) = may table full (codes "MODIFY")
    may_write_governed full none = sees full

    abbrev pub may_write : Name → Bool
    may_write full = not (is_system_table m full) && may_write_governed full (governed_table m full)

    abbrev pub in_location : Name → Option (ℕ × Name) → Bool
    in_location privilege none = false
    in_location privilege (some (n, name)) = permits c p external_location name privilege

    abbrev pub may_path : Name → Name → Bool
    may_path privilege url =
        p.is_admin || in_location privilege (best_location url m.locations none)

    abbrev pub may_location : Option Name → Bool
    may_location none = true
    may_location (some loc) = may_path (codes "CREATE_EXTERNAL_TABLE") loc

    abbrev pub may_in_schema : Name → Name → Option Name → Bool
    may_in_schema full privilege none = true
    may_in_schema full privilege (some s) = uses_path full && permits c p schema s privilege

    abbrev pub may_in_catalog : Option Name → Bool
    may_in_catalog none = true
    may_in_catalog (some k) =
        permits c p catalog k (codes "USE_CATALOG") && permits c p catalog k (codes "CREATE_SCHEMA")

    abbrev pub may_create_new : Securable → Name → Bool
    may_create_new table full = may_in_schema full (codes "CREATE_TABLE") (parent_schema full)
    may_create_new function full = may_in_schema full (codes "CREATE_FUNCTION") (parent_schema full)
    may_create_new schema full = may_in_catalog (parent_catalog full)
    may_create_new sec full = manages sec full

    abbrev pub may_create : Analysis → Securable × Name → Bool
    may_create an e =
        not (in_system e.1)
        && (if an.replace && uc_exists m e.0 e.1
            then manages e.0 e.1
            else may_create_new e.0 e.1 && may_location an.location)

    abbrev pub may_change : Securable × Name → Bool
    may_change e =
        not (in_system e.1) && (if uc_exists m e.0 e.1 then manages e.0 e.1 else sees e.1)

    -- The statement, if each of its objects may be read, written, created, changed or reached as it asks.
    unfoldable pub may_run : Analysis → Bool
    may_run an =
        all may_read an.reads
        && (all may_write an.writes
            && (all (may_create an) an.creates
                && (all may_change an.owned && all (may_path (path_privilege c p m an)) an.paths)))
