-- ===== src/Uc/Witnesses.antt =====
-- The theorems on privileges at a small catalog: one grant on a schema.
use lakeforge.Prelude.{◌≡◌, refl, true, false, some, [], ◌∷◌, All, none, List}
use lakeforge.Prelude.Assoc.{keys}
use lakeforge.Uc.Names.{codes, normalize_privilege, trim, Name}
use lakeforge.Uc.Securable.{
  table, as_str, kind, parents, lineage_of, grants_key, is_known_privilege,
}
use lakeforge.Uc.Authorizer.{
  Principal, Catalog, new_caches, grants_for, owner_of, principal_matches, has_privilege,
  Assignment,
}
use lakeforge.Uc.Caching.{Coherent, permits, has_privilege-permits}
use lakeforge.Uc.Effective.{Effective, IsListedOnce, effective, effective-IsListedOnce, AreDistinct}
use lakeforge.Uc.Inheritance.{a_table, permits_inherited}
use lakeforge.Uc.Granted.{holds, change_grants-holds}
use lakeforge.Uc.Grants.{change_grants, change_first, add_privileges, remove_privileges}

abbrev alice : Principal
alice = record {
  user_id = codes "u1";
  user_name = codes "a@b.c";
  is_admin = false;
  groups = codes "analysts" ∷ [];
}

abbrev sample_catalog : Catalog
sample_catalog = record {
  grant_docs =
      (
        codes "uc_grants:schema:main.default",
        record { principal = codes "Analysts"; privileges = codes "SELECT" ∷ [] } ∷ [],
      )
      ∷ [];
  owner_docs = (codes "uc_table:main.default.t", some (codes "bob")) ∷ [];
  admin_user = codes "root";
}

has_privilege-permits_example :
    ((has_privilege sample_catalog alice new_caches table
        (codes "main.default.t")
        (codes "select")).1
      ≡ permits sample_catalog alice table (codes "main.default.t") (codes "select"))
    × Coherent sample_catalog
        (has_privilege sample_catalog alice new_caches table
          (codes "main.default.t")
          (codes "select")).0
has_privilege-permits_example =
    has_privilege-permits sample_catalog alice new_caches table (codes "main.default.t")
      (codes "select") (tt, tt)

permits_inherited_example :
    permits sample_catalog alice table (codes "main.default.t") (codes "select") ≡ true
unfolding permits lineage_of parents grants_for owner_of grants_key as_str kind principal_matches
    normalize_privilege trim
permits_inherited_example =
    permits_inherited sample_catalog alice table (codes "main") (codes "default") (codes "t")
      (codes "select") a_table refl refl refl

abbrev bob_modifies : List Assignment
bob_modifies = record { principal = codes "bob"; privileges = codes "MODIFY" ∷ [] } ∷ []

change_grants-holds_example :
    holds (codes "bob") (codes "MODIFY") (
      grants_for
        (change_grants sample_catalog table
          (codes "m.s.t")
          (codes "bob")
          (codes "modify" ∷ [])
          []).0
        table
        (codes "m.s.t"))
    ≡ true
unfolding change_grants change_first add_privileges remove_privileges grants_for grants_key as_str
    normalize_privilege trim is_known_privilege
change_grants-holds_example =
    change_grants-holds sample_catalog table (codes "m.s.t") (codes "bob") (codes "MODIFY")
      (codes "modify" ∷ []) [] bob_modifies refl refl refl

effective-IsListedOnce_example :
    AreDistinct
      (keys (effective sample_catalog alice new_caches table (codes "main.default.t") none).1)
    × All
        (λ (e : Name × List Effective). IsListedOnce e.1)
        (effective sample_catalog alice new_caches table (codes "main.default.t") none).1
effective-IsListedOnce_example =
    effective-IsListedOnce sample_catalog alice new_caches table (codes "main.default.t") none
