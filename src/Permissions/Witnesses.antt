-- ===== src/Permissions/Witnesses.antt =====
-- The permissions of a job whose list lets all users view it, and a patch by its owner.
use lakeforge.Prelude.{
  ◌≡◌, refl, true, false, ◌||◌, ◌&&◌, not, leb, some, none, [], ◌∷◌, All, any, keep, inl, inr,
}
use lakeforge.Uc.Names.{codes}
use lakeforge.Uc.Securable.{is_fine}
use lakeforge.Uc.Authorizer.{Principal, is_empty}
use lakeforge.Permissions.{
  Entry, Store, user, level_rank, levels, position_of, get_permissions, entry_of, is_named,
  update_permissions,
}
use lakeforge.Permissions.Levels.{
  is_name, matches, check_permission, patch_perms, effective_level, best_level,
}
use lakeforge.Permissions.Checks.{gives_level, gives_needed, check_permission_lem}
use lakeforge.Permissions.Updates.{IsClean, update_permissions-IsClean}
use lakeforge.Permissions.Patches.{patch_perms_lem}

abbrev alice : Principal
alice = record { user_id = codes "u1"; user_name = codes "alice"; is_admin = false; groups = [] }

abbrev bob : Principal
bob = record { user_id = codes "u2"; user_name = codes "bob"; is_admin = false; groups = [] }

abbrev all_view : Entry
all_view = record {
  user_name = none;
  group_name = some (codes "users");
  service_principal_name = none;
  permission_level = some (codes "CAN_VIEW");
}

abbrev bob_manages : Entry
bob_manages = record {
  user_name = some (codes "bob");
  group_name = none;
  service_principal_name = none;
  permission_level = some (codes "CAN_MANAGE");
}

abbrev sample_store : Store
sample_store = (codes "jobs/7", all_view ∷ []) ∷ []

sample-IsClean :
    All (IsClean (codes "jobs")) (get_permissions sample_store (codes "jobs") (codes "7"))
unfolding get_permissions levels
sample-IsClean = (((codes "CAN_VIEW", refl, refl), inr (inl (codes "users", refl, refl, refl))), tt)

test_effective_level :
    effective_level sample_store bob (codes "jobs") (codes "7") ≡ some (codes "CAN_VIEW")
unfolding effective_level best_level get_permissions matches level_rank levels position_of
test_effective_level = refl

alice_owns :
    is_fine (
      check_permission sample_store alice
        (codes "jobs")
        (codes "7")
        (codes "CAN_MANAGE")
        (some (codes "alice")))
    ≡ true
unfolding check_permission
alice_owns = refl

check_permission_lem_example :
    is_fine
      (check_permission sample_store bob (codes "jobs") (codes "7") (codes "CAN_MANAGE_RUN") none)
    ≡ (bob.is_admin
        || (is_name bob.user_name none
            || (is_empty (get_permissions sample_store (codes "jobs") (codes "7"))
                || gives_needed
                    (codes "jobs")
                    bob
                    (get_permissions sample_store (codes "jobs") (codes "7"))
                    (level_rank (codes "jobs") (codes "CAN_MANAGE_RUN")))))
check_permission_lem_example =
    check_permission_lem sample_store bob (codes "jobs") (codes "7") (codes "CAN_MANAGE_RUN") none

update_permissions-IsClean_example : All (IsClean (codes "jobs")) (
    get_permissions
      (update_permissions sample_store (codes "jobs") (codes "7") (some (bob_manages ∷ []))).0
      (codes "jobs")
      (codes "7"))
update_permissions-IsClean_example =
    update_permissions-IsClean sample_store (codes "jobs") (codes "7") (some (bob_manages ∷ []))
      sample-IsClean

patch_perms_lem_example :
    is_fine (
      check_permission
        (patch_perms sample_store alice
          (codes "jobs")
          (codes "7")
          (some (codes "alice"))
          (some (bob_manages ∷ []))).0
        bob
        (codes "jobs")
        (codes "7")
        (codes "CAN_MANAGE_RUN")
        none)
    ≡ (bob.is_admin
        || (is_name bob.user_name none
            || (any (gives_level (codes "jobs") bob 1) (
                  keep
                    (λ c. not (is_named user (codes "bob") c))
                    (get_permissions sample_store (codes "jobs") (codes "7")))
                || (matches bob (entry_of (user, codes "bob") (codes "CAN_MANAGE")) && leb 1 3))))
unfolding level_rank levels position_of check_permission
patch_perms_lem_example =
    patch_perms_lem sample_store alice (codes "jobs") (codes "7") (codes "CAN_MANAGE")
      (some (codes "alice")) bob_manages (user, codes "bob") 3 sample-IsClean refl refl refl refl
      bob (codes "CAN_MANAGE_RUN") none 1 refl
