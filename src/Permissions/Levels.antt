-- ===== src/Permissions/Levels.antt =====
-- The level of a principal and the handlers that need one
-- (crates/lakeforge-api/src/api/permissions.rs).
use lakeforge.Prelude.{
  ℕ, leb, ltb, Bool, false, ◌||◌, Option, none, some, [], ◌∷◌, ◌++◌, any, ◌==◌, if◌then◌else◌,
}
use lakeforge.Uc.Names.{Name, codes, name_eq}
use lakeforge.Uc.Securable.{permission_denied, ApiResult, fine, refused}
use lakeforge.Uc.Authorizer.{Principal, is_empty}
use lakeforge.Permissions.{
  Entry, Acl, Store, level_rank, top_level, get_permissions, set_permissions, update_permissions,
}

abbrev pub is_name : Name → Option Name → Bool
is_name n none = false
is_name n (some v) = v == n

abbrev in_group : Principal → Option Name → Bool
in_group p none = false
in_group p (some g) = any (λ x. x == g) p.groups || g == codes "users"

-- Whether an entry is for a principal.
unfoldable pub matches : Principal → Entry → Bool
matches p e =
    is_name p.user_name e.user_name
    || is_name p.user_name e.service_principal_name
    || in_group p e.group_name

abbrev pub ranked_as : Name → Option ℕ → Option (ℕ × Name)
ranked_as l none = none
ranked_as l (some r) = some (r, l)

abbrev pub ranked : Name → Option Name → Option (ℕ × Name)
ranked t none = none
ranked t (some l) = ranked_as l (level_rank t l)

-- The higher of two, the first if they are equal.
abbrev pub better : Option (ℕ × Name) → Option (ℕ × Name) → Option (ℕ × Name)
better best none = best
better none (some e) = some e
better (some b) (some e) = if ltb b.0 e.0 then some e else some b

unfoldable pub best_level : Name → Principal → Acl → Option (ℕ × Name) → Option (ℕ × Name)
unfolding matches level_rank
best_level t p [] best = best
best_level t p (e ∷ es) best =
    best_level t p es (if matches p e then better best (ranked t e.permission_level) else best)

abbrev pub level_of : Option (ℕ × Name) → Option Name
level_of none = none
level_of (some b) = some b.1

unfoldable pub effective_level : Store → Principal → Name → Name → Option Name
unfolding best_level get_permissions
effective_level s p t id =
    if p.is_admin
    then some (top_level t)
    else level_of (best_level t p (get_permissions s t id) none)

abbrev rank_reaches : Option ℕ → ℕ → Bool
rank_reaches none n = false
rank_reaches (some r) n = leb n r

abbrev pub reaches : Name → Option Name → Option ℕ → Bool
reaches t none n = false
reaches t (some h) none = false
reaches t (some h) (some n) = rank_reaches (level_rank t h) n

-- `check_permission`.
unfoldable pub check_permission :
    Store → Principal → Name → Name → Name → Option Name → ApiResult (Unit {0})
unfolding get_permissions effective_level level_rank
check_permission s p t id need owner =
    if p.is_admin || is_name p.user_name owner
    then fine tt
    else if is_empty (get_permissions s t id)
    then fine tt
    else if reaches t (effective_level s p t id) (level_rank t need)
    then fine tt
    else refused (
        permission_denied (
          codes "User "
          ++ p.user_name
          ++ codes " does not have "
          ++ need
          ++ codes " on "
          ++ t
          ++ codes "/"
          ++ id))

-- A handler that needs the strongest level. It answers with the list that it leaves, from which
-- the code spells the view.
abbrev pub guarded :
    Store → Name → Name → ApiResult (Unit {0}) → Store × ApiResult Acl → Store × ApiResult Acl
guarded s t id (refused e) r = (s, refused e)
guarded s t id (fine a) (s', refused e) = (s', refused e)
guarded s t id (fine a) (s', fine acl) = (s', fine (get_permissions s' t id))

unfoldable pub put_perms :
    Store → Principal → Name → Name → Option Name → Option Acl → Store × ApiResult Acl
unfolding check_permission set_permissions get_permissions
put_perms s p t id owner acl =
    guarded s t id (check_permission s p t id (top_level t) owner) (set_permissions s t id acl)

unfoldable pub patch_perms :
    Store → Principal → Name → Name → Option Name → Option Acl → Store × ApiResult Acl
unfolding check_permission update_permissions get_permissions
patch_perms s p t id owner acl =
    guarded s t id (check_permission s p t id (top_level t) owner) (update_permissions s t id acl)
