-- ===== src/Uc/SqlAuth/Enforced.antt =====
-- The checks of a statement, against the rights that it needs
-- (crates/lakeforge-api/src/uc/sqlauth.rs).
use lakeforge.Prelude.{
  ◌≡◌, refl, true, ◌&&◌, Option, none, some, List, [], ◌∷◌, ◌++◌, ◌==◌, any, all, All, ℕ,
}
use lakeforge.Uc.Names.{Name, codes, name_eq, split_name}
use lakeforge.Uc.Securable.{
  Securable, metastore, catalog, schema, table, volume, function, external_location,
  storage_credential, connection, share, recipient, provider, is_fine,
}
use lakeforge.Uc.Authorizer.{Principal, Catalog, Caches, new_caches}
use lakeforge.Uc.SqlAuth.Checks.{
  Analysis, Metastore, uc_exists, uc_get, is_some, is_system_table, governed_table, best_location,
  in_system, parent_schema, parent_catalog, second_or_empty, visible_catalog, visible_schema,
  require_visible_parents, require_system_read, required_location, require_path_privilege,
}
use lakeforge.Uc.SqlAuth.Statements.{
  Types, read_governed, check_reads, write_governed, check_write, check_writes, create_in_schema,
  create_in_catalog, create_new, create_location, check_create, check_creates, check_owned_one,
  check_owned, check_paths, path_privilege, authorize_sql,
}
use lakeforge.Uc.SqlAuth.Spec.{
  sees_catalog, sees_schema, sees, reads_system, may_read_governed, may_read, may_write_governed,
  may_write, in_location, may_path, may_location, may_in_schema, may_in_catalog, may_create_new,
  may_create, may_change, may_run,
}
use lakeforge.Uc.SqlAuth.Agreement.{
  Follows, Follows-bind, Follows-then, Follows-pure, Follows-if, Follows-and, Follows-or,
  Follows-unless, required_lem, require_owner_lem, require_use_path_lem, require_on_object_lem,
  Follows-seen,
}

module _ (c : Catalog) (p : Principal) (m : Metastore) where
  visible_catalog_lem :
      (ns : List Name) → Follows c (sees_catalog c p m ns) (visible_catalog c p m ns)
  visible_catalog_lem [] = Follows-pure c tt
  visible_catalog_lem (k ∷ r) =
      Follows-seen c (uc_exists m catalog k) _ _ (required_lem c p catalog k (codes "USE_CATALOG"))

  visible_schema_lem : (ns : List Name) → Follows c (sees_schema c p m ns) (visible_schema c p m ns)
  visible_schema_lem [] = Follows-pure c tt
  visible_schema_lem (k ∷ []) = Follows-pure c tt
  visible_schema_lem (k ∷ s ∷ []) = Follows-pure c tt
  visible_schema_lem (k ∷ s ∷ t ∷ r) =
      let full = k ++ codes "." ++ s in
      Follows-seen c (is_some (uc_get m schema full)) _ _
        (required_lem c p schema full (codes "USE_SCHEMA"))

  require_visible_parents_lem :
      (full : Name) → Follows c (sees c p m full) (require_visible_parents c p m full)
  unfolding require_visible_parents
  require_visible_parents_lem full =
      Follows-bind c _ _ _ _ (visible_catalog_lem (split_name 46 full))
        λ _. visible_schema_lem (split_name 46 full)

  require_system_read_lem :
      (full : Name)
      → Follows c
          (reads_system c p m (second_or_empty (split_name 46 full)))
          (require_system_read c p m full)
  unfolding require_system_read
  require_system_read_lem full =
      let s = second_or_empty (split_name 46 full) in
      Follows-or c (s == codes "information_schema") _ _ _ (Follows-pure c tt) (
        Follows-and c (any (λ x. x == s) m.enabled_system_schemas) _ _ _
          (Follows-or c p.is_admin _ _ _ (Follows-pure c tt)
            (required_lem c p schema (codes "system." ++ s) (codes "SELECT")))
          (λ az h. (refl, h)))

  required_location_lem :
      (url privilege : Name) (o : Option (ℕ × Name))
      → Follows c (in_location c p m privilege o) (required_location c p m url privilege o)
  required_location_lem url privilege none = λ az h. (refl, h)
  required_location_lem url privilege (some (n, name)) =
      required_lem c p external_location name privilege

  require_path_privilege_lem :
      (url privilege : Name)
      → Follows c (may_path c p m privilege url) (require_path_privilege c p m url privilege)
  unfolding require_path_privilege
  require_path_privilege_lem url privilege =
      Follows-or c p.is_admin _ _ _ (Follows-pure c tt)
        (required_location_lem url privilege (best_location url m.locations none))

  read_governed_lem :
      (types : Types) (full : Name) (o : Option Name)
      → Follows c (may_read_governed c p m full o) (read_governed c p m types full o)
  read_governed_lem types full none =
      Follows-then c _ _ _ (require_visible_parents_lem full) λ _ az h. (refl, h)
  read_governed_lem types full (some t) =
      Follows-then c _ _ _
        (Follows-if c (in_system full) _ _ _ _ (require_system_read_lem full)
          (require_on_object_lem c p table full (codes "SELECT")))
        λ _ az h. (refl, h)

  check_reads_lem :
      (ns : List Name) (types : Types)
      → Follows c (all (may_read c p m) ns) (check_reads c p m ns types)
  unfolding check_reads
  check_reads_lem [] types = Follows-pure c types
  check_reads_lem (full ∷ ns) types =
      Follows-bind c _ _ _ _ (read_governed_lem types full (governed_table m full))
        λ next. check_reads_lem ns next

  write_governed_lem :
      (types : Types) (full : Name) (o : Option Name)
      → Follows c (may_write_governed c p m full o) (write_governed c p m types full o)
  write_governed_lem types full none =
      Follows-then c _ _ _ (require_visible_parents_lem full) λ _ az h. (refl, h)
  write_governed_lem types full (some t) =
      Follows-then c _ _ _ (require_on_object_lem c p table full (codes "MODIFY"))
        λ _ az h. (refl, h)

  check_writes_lem :
      (ns : List Name) (types : Types)
      → Follows c (all (may_write c p m) ns) (check_writes c p m ns types)
  unfolding check_writes check_write
  check_writes_lem [] types = Follows-pure c types
  check_writes_lem (full ∷ ns) types =
      Follows-bind c _ _ _ _
        (Follows-unless c (is_system_table m full) _ _ _ (λ az h. (refl, h))
          (write_governed_lem types full (governed_table m full)))
        λ next. check_writes_lem ns next

  create_in_schema_lem :
      (full privilege : Name) (o : Option Name)
      → Follows c (may_in_schema c p m full privilege o) (create_in_schema c p m full privilege o)
  create_in_schema_lem full privilege none = Follows-pure c tt
  create_in_schema_lem full privilege (some s) =
      Follows-bind c _ _ _ _ (require_use_path_lem c p full)
        λ _. required_lem c p schema s privilege

  create_in_catalog_lem :
      (o : Option Name) → Follows c (may_in_catalog c p m o) (create_in_catalog c p m o)
  create_in_catalog_lem none = Follows-pure c tt
  create_in_catalog_lem (some k) =
      Follows-bind c _ _ _ _ (required_lem c p catalog k (codes "USE_CATALOG"))
        λ _. required_lem c p catalog k (codes "CREATE_SCHEMA")

  create_new_lem :
      (sec : Securable) (full : Name)
      → Follows c (may_create_new c p m sec full) (create_new c p m sec full)
  create_new_lem table full = create_in_schema_lem full (codes "CREATE_TABLE") (parent_schema full)
  create_new_lem function full =
      create_in_schema_lem full (codes "CREATE_FUNCTION") (parent_schema full)
  create_new_lem schema full = create_in_catalog_lem (parent_catalog full)
  create_new_lem metastore full = require_owner_lem c p metastore full
  create_new_lem catalog full = require_owner_lem c p catalog full
  create_new_lem volume full = require_owner_lem c p volume full
  create_new_lem external_location full = require_owner_lem c p external_location full
  create_new_lem storage_credential full = require_owner_lem c p storage_credential full
  create_new_lem connection full = require_owner_lem c p connection full
  create_new_lem share full = require_owner_lem c p share full
  create_new_lem recipient full = require_owner_lem c p recipient full
  create_new_lem provider full = require_owner_lem c p provider full

  create_location_lem :
      (o : Option Name) → Follows c (may_location c p m o) (create_location c p m o)
  create_location_lem none = Follows-pure c tt
  create_location_lem (some loc) = require_path_privilege_lem loc (codes "CREATE_EXTERNAL_TABLE")

  check_creates_lem :
      (an : Analysis) (es : List (Securable × Name))
      → Follows c (all (may_create c p m an) es) (check_creates c p m an es)
  unfolding check_creates check_create
  check_creates_lem an [] = Follows-pure c tt
  check_creates_lem an ((sec, full) ∷ es) =
      Follows-bind c _ _ _ _
        (Follows-unless c (in_system full) _ _ _ (λ az h. (refl, h))
          (Follows-if c (an.replace && uc_exists m sec full) _ _ _ _
            (require_owner_lem c p sec full)
            (Follows-bind c _ _ _ _ (create_new_lem sec full)
              λ _. create_location_lem an.location)))
        λ _. check_creates_lem an es

  check_owned_lem :
      (es : List (Securable × Name)) → Follows c (all (may_change c p m) es) (check_owned c p m es)
  unfolding check_owned check_owned_one
  check_owned_lem [] = Follows-pure c tt
  check_owned_lem ((sec, full) ∷ es) =
      Follows-bind c _ _ _ _
        (Follows-unless c (in_system full) _ _ _ (λ az h. (refl, h))
          (Follows-if c (uc_exists m sec full) _ _ _ _ (require_owner_lem c p sec full)
            (require_visible_parents_lem full)))
        λ _. check_owned_lem es

  check_paths_lem :
      (privilege : Name) (ps : List Name)
      → Follows c (all (may_path c p m privilege) ps) (check_paths c p m privilege ps)
  unfolding check_paths
  check_paths_lem privilege [] = Follows-pure c tt
  check_paths_lem privilege (path ∷ ps) =
      Follows-bind c _ _ _ _ (require_path_privilege_lem path privilege)
        λ _. check_paths_lem privilege ps

-- A statement passes exactly if the principal has, on each object that it touches, the right that
-- is asked of it: of the tables that it reads, those that it writes, the objects that it creates and
-- those that it changes, and of the paths that it reaches. The rights are those of the store, which
-- the caches of the authorizer, empty at the start, do not change.
pub authorize_sql_lem :
    (c : Catalog) (p : Principal) (m : Metastore) (an : Analysis)
    → is_fine (authorize_sql c p m an new_caches).1 ≡ may_run c p m an
unfolding authorize_sql may_run
authorize_sql_lem c p m an =
    (Follows-bind c _ _ _ _ (check_reads_lem c p m an.reads [])
      (λ read. Follows-bind c _ _ _ _ (check_writes_lem c p m an.writes read) (λ types.
        Follows-bind c _ _ _ _ (check_creates_lem c p m an an.creates) (λ _.
          Follows-bind c _ _ _ _ (check_owned_lem c p m an.owned) (λ _.
            Follows-then c _ _ _ (check_paths_lem c p m (path_privilege c p m an) an.paths)
              (λ _. Follows-pure c types)))))
      new_caches (tt, tt)).0

module _ (c : Catalog) (p : Principal) (m : Metastore) where
  -- The checks of a replacement, for another location.
  check_creates-location :
      (an : Analysis) (o : Option Name) (es : List (Securable × Name))
      → an.replace ≡ true
      → All (λ (e : Securable × Name). uc_exists m e.0 e.1 ≡ true) es
      → check_creates c p m (record an { location = o }) es ≡ check_creates c p m an es
  unfolding check_creates check_create
  check_creates-location an o [] replaces h = refl
  check_creates-location an o ((sec, full) ∷ es) replaces (exists, h) =
      rw (replaces, exists, check_creates-location an o es replaces h) refl

  -- A statement that creates or replaces objects, all of which exist, passes with any location if it
  -- passes with one: the privilege to create an external table there is not asked for.
  pub replaced_location :
      (an : Analysis) (o : Option Name) (az : Caches)
      → an.replace ≡ true
      → All (λ (e : Securable × Name). uc_exists m e.0 e.1 ≡ true) an.creates
      → authorize_sql c p m (record an { location = o }) az ≡ authorize_sql c p m an az
  unfolding authorize_sql
  replaced_location an o az replaces h = rw (check_creates-location an o an.creates replaces h) refl
