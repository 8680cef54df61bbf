-- ===== src/Permissions.antt =====
-- The Permissions API (crates/lakeforge-api/src/api/permissions.rs): levels, access control lists,
-- and the check of a level.
use mathlib.Core.Option
use lakeforge.Prelude.{
  ◌≡◌, ℕ, suc, leb, ltb, Bool, true, false, not, ◌&&◌, ◌||◌, Option, none, some, List, [], ◌∷◌,
  ◌++◌, any, keep, ◌==◌, if◌then◌else◌, get_last?,
}
use lakeforge.Prelude.Assoc.{Assoc, lookup, insert}
use lakeforge.Uc.Names.{Name, codes, name_eq}
use lakeforge.Uc.Securable.{invalid_parameter, permission_denied, ApiResult, fine, refused}
use lakeforge.Uc.Authorizer.{Principal, is_empty}
pub mod Levels
pub mod Checks
pub mod Updates
pub mod Patches
pub mod Witnesses

-- The string fields of an entry.
pub record Entry : Type 0 where
  pub user_name : Option Name
  pub group_name : Option Name
  pub service_principal_name : Option Name
  pub permission_level : Option Name

pub data Key : Type 0 where
  user group service_principal : Key

abbrev pub Acl : Type 0
Acl = List Entry

-- The documents of permissions: the list of each, by id.
abbrev pub Store : Type 0
Store = Assoc Name Acl

abbrev one_of : List Name → Name → Bool
one_of names t = any (λ n. n == t) names

-- `levels`, from the weakest.
unfoldable pub levels : Name → List Name
levels t =
    if t == codes "clusters"
    then codes "CAN_ATTACH_TO" ∷ codes "CAN_RESTART" ∷ codes "CAN_MANAGE" ∷ []
    else if t == codes "cluster-policies"
    then codes "CAN_USE" ∷ []
    else if t == codes "instance-pools"
    then codes "CAN_ATTACH_TO" ∷ codes "CAN_MANAGE" ∷ []
    else if t == codes "jobs"
    then codes "CAN_VIEW" ∷ codes "CAN_MANAGE_RUN" ∷ codes "IS_OWNER" ∷ codes "CAN_MANAGE" ∷ []
    else if t == codes "pipelines"
    then codes "CAN_VIEW" ∷ codes "CAN_RUN" ∷ codes "IS_OWNER" ∷ codes "CAN_MANAGE" ∷ []
    else if one_of (codes "notebooks" ∷ codes "directories" ∷ codes "files" ∷ codes "repos" ∷ []) t
    then codes "CAN_READ" ∷ codes "CAN_RUN" ∷ codes "CAN_EDIT" ∷ codes "CAN_MANAGE" ∷ []
    else if one_of (codes "experiments" ∷ codes "registered-models" ∷ []) t
    then codes "CAN_READ"
      ∷ codes "CAN_EDIT"
      ∷ codes "CAN_MANAGE_STAGING_VERSIONS"
      ∷ codes "CAN_MANAGE_PRODUCTION_VERSIONS"
      ∷ codes "CAN_MANAGE"
      ∷ []
    else if one_of (codes "sql/warehouses" ∷ codes "warehouses" ∷ []) t
    then codes "CAN_USE" ∷ codes "CAN_MONITOR" ∷ codes "CAN_MANAGE" ∷ []
    else if one_of
        (codes "sql/queries"
          ∷ codes "sql/alerts"
          ∷ codes "sql/dashboards"
          ∷ codes "dashboards"
          ∷ [])
        t
    then codes "CAN_VIEW" ∷ codes "CAN_RUN" ∷ codes "CAN_EDIT" ∷ codes "CAN_MANAGE" ∷ []
    else if t == codes "serving-endpoints"
    then codes "CAN_VIEW" ∷ codes "CAN_QUERY" ∷ codes "CAN_MANAGE" ∷ []
    else if one_of (codes "tokens" ∷ codes "authorization" ∷ codes "passwords" ∷ []) t
    then codes "CAN_USE" ∷ []
    else codes "CAN_VIEW" ∷ codes "CAN_MANAGE" ∷ []

unfoldable pub position_of : Name → List Name → Option ℕ
position_of l [] = none
position_of l (x ∷ xs) = if x == l then some 0 else Option.map suc (position_of l xs)

unfoldable pub level_rank : Name → Name → Option ℕ
unfolding levels position_of
level_rank t l = position_of l (levels t)

abbrev or_can_manage : Option Name → Name
or_can_manage none = codes "CAN_MANAGE"
or_can_manage (some l) = l

-- The strongest level of a type.
abbrev pub top_level : Name → Name
top_level t = or_can_manage (get_last? (levels t))

abbrev pub doc_id : Name → Name → Name
doc_id t id = t ++ 47 ∷ id

abbrev pub acl_or_empty : Option Acl → Acl
acl_or_empty none = []
acl_or_empty (some acl) = acl

unfoldable pub get_permissions : Store → Name → Name → Acl
get_permissions s t id = acl_or_empty (lookup (doc_id t id) s)

abbrev pub field : Key → Entry → Option Name
field user e = e.user_name
field group e = e.group_name
field service_principal e = e.service_principal_name

abbrev no_name : Entry
no_name = record {
  user_name = none;
  group_name = none;
  service_principal_name = none;
  permission_level = none;
}

-- An entry with one name.
abbrev pub entry_of : Key × Name → Name → Entry
entry_of (user, v) l = record no_name { user_name = some v; permission_level = some l }
entry_of (group, v) l = record no_name { group_name = some v; permission_level = some l }
entry_of (service_principal, v) l = record no_name {
  service_principal_name = some v;
  permission_level = some l;
}

abbrev keyed : Key → Option Name → Option (Key × Name) → Option (Key × Name)
keyed k none rest = rest
keyed k (some v) rest = some (k, v)

-- The first name of an entry, in the order of the keys.
abbrev pub principal_of : Entry → Option (Key × Name)
principal_of e =
    keyed user e.user_name
      (keyed group e.group_name (keyed service_principal e.service_principal_name none))

-- `{:?}` of a list of strings without quotes.
abbrev more_names : List Name → Name
more_names [] = []
more_names (l ∷ ls) = codes ", \"" ++ l ++ codes "\"" ++ more_names ls

abbrev debug_list : List Name → Name
debug_list [] = codes "[]"
debug_list (l ∷ ls) = codes "[\"" ++ l ++ codes "\"" ++ more_names ls ++ codes "]"

abbrev pub with_principal : Name → Option (Key × Name) → ApiResult Entry
with_principal l none =
    refused
      (invalid_parameter (codes "user_name, group_name or service_principal_name is required"))
with_principal l (some k) = fine (entry_of k l)

abbrev pub with_rank : Name → Entry → Name → Option ℕ → ApiResult Entry
with_rank t e l none = refused (
    invalid_parameter (
      codes "Invalid permission_level "
      ++ l
      ++ codes " for "
      ++ t
      ++ codes "; allowed: "
      ++ debug_list (levels t)))
with_rank t e l (some r) = with_principal l (principal_of e)

abbrev pub with_level : Name → Entry → Option Name → ApiResult Entry
with_level t e none = refused (invalid_parameter (codes "permission_level is required"))
with_level t e (some l) = with_rank t e l (level_rank t l)

-- One round of the loop of `set_permissions`.
unfoldable pub check_entry : Name → Entry → ApiResult Entry
unfolding level_rank
check_entry t e = with_level t e e.permission_level

abbrev pub and_entries : ApiResult Entry → ApiResult Acl → ApiResult Acl
and_entries (refused e) rest = refused e
and_entries (fine a) (refused e) = refused e
and_entries (fine a) (fine as_) = fine (a ∷ as_)

unfoldable pub check_entries : Name → Acl → ApiResult Acl
unfolding check_entry
check_entries t [] = fine []
check_entries t (e ∷ es) = and_entries (check_entry t e) (check_entries t es)

abbrev pub stored : Store → Name → ApiResult Acl → Store × ApiResult Acl
stored s id (refused e) = (s, refused e)
stored s id (fine acl) = (insert id acl s, fine acl)

-- The list is none if the value is no array.
unfoldable pub set_permissions : Store → Name → Name → Option Acl → Store × ApiResult Acl
unfolding check_entries
set_permissions s t id none =
    (s, refused (invalid_parameter (codes "access_control_list must be an array")))
set_permissions s t id (some acl) = stored s (doc_id t id) (check_entries t acl)

abbrev pub is_named : Key → Name → Entry → Bool
is_named k v e = elim (field k e) [ none ↦ false | some w ↦ w == v ]

abbrev pub put_for : Acl → Entry → Option (Key × Name) → Acl
put_for cur e none = cur
put_for cur e (some (k, v)) = keep (λ c. not (is_named k v c)) cur ++ e ∷ []

-- The loop of `update_permissions`.
unfoldable pub put_entries : Acl → Acl → Acl
put_entries cur [] = cur
put_entries cur (e ∷ es) = put_entries (put_for cur e (principal_of e)) es

unfoldable pub update_permissions : Store → Name → Name → Option Acl → Store × ApiResult Acl
unfolding get_permissions set_permissions put_entries
update_permissions s t id acl =
    set_permissions s t id (some (put_entries (get_permissions s t id) (acl_or_empty acl)))
