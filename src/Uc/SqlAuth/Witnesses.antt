-- ===== src/Uc/SqlAuth/Witnesses.antt =====
-- The checks of a statement on a small metastore: one stored table and one external location.
use lakeforge.Prelude.{◌≡◌, refl, true, false, some, none, [], ◌∷◌, All}
use lakeforge.Uc.Names.{codes}
use lakeforge.Uc.Securable.{table, kind, is_fine}
use lakeforge.Uc.Authorizer.{Principal, Catalog, new_caches}
use lakeforge.Uc.SqlAuth.Checks.{
  create_table, Analysis, Metastore, uc_get, uc_exists, governed_table, best_location,
}
use lakeforge.Uc.SqlAuth.Statements.{authorize_sql}
use lakeforge.Uc.SqlAuth.Spec.{may_run}
use lakeforge.Uc.SqlAuth.Enforced.{authorize_sql_lem, replaced_location}

abbrev alice : Principal
alice = record { user_id = codes "u1"; user_name = codes "a@b.c"; is_admin = false; groups = [] }

abbrev sample_catalog : Catalog
sample_catalog = record {
  grant_docs = [];
  owner_docs = (codes "uc_table:main.a.t", some (codes "u1")) ∷ [];
  admin_user = codes "root";
}

abbrev sample_metastore : Metastore
sample_metastore = record {
  docs = (codes "uc_table:main.a.t", none) ∷ [];
  system_schemas = codes "access" ∷ [];
  system_table = λ s n. false;
  virtual_table = λ k s n. none;
  enabled_system_schemas = [];
  locations = (some (codes "s3://b/"), codes "b") ∷ (none, codes "x") ∷ [];
}

-- `CREATE OR REPLACE TABLE main.a.t LOCATION 's3://c/d'`.
abbrev replacement : Analysis
replacement = record {
  kind = create_table;
  reads = [];
  writes = [];
  creates = (table, codes "main.a.t") ∷ [];
  owned = [];
  paths = [];
  location = some (codes "s3://c/d");
  replace = true;
}

replacement_exists : All (λ e. uc_exists sample_metastore e.0 e.1 ≡ true) replacement.creates
unfolding uc_exists uc_get kind
replacement_exists = (refl, tt)

test_governed_table : governed_table sample_metastore (codes "main.a.t") ≡ some (codes "MANAGED")
unfolding governed_table uc_get kind
test_governed_table = refl

test_best_location :
    best_location (codes "s3://b/x") sample_metastore.locations none ≡ some (6, codes "b")
unfolding best_location
test_best_location = refl

authorize_sql_lem_example :
    is_fine (authorize_sql sample_catalog alice sample_metastore replacement new_caches).1
    ≡ may_run sample_catalog alice sample_metastore replacement
authorize_sql_lem_example = authorize_sql_lem sample_catalog alice sample_metastore replacement

replaced_location_example :
    authorize_sql sample_catalog alice sample_metastore
      (record replacement { location = none })
      new_caches
    ≡ authorize_sql sample_catalog alice sample_metastore replacement new_caches
replaced_location_example =
    replaced_location sample_catalog alice sample_metastore replacement none new_caches refl
      replacement_exists
