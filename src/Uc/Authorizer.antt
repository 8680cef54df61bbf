-- ===== src/Uc/Authorizer.antt =====
-- The checks of `Authorizer` (crates/lakeforge-api/src/uc/privileges.rs). The document store is a
-- value, whose reads do not fail; an authorizer's calls return its caches beside the answer.
use lakeforge.Prelude.{
  Bool, true, false, not, ◌&&◌, ◌||◌, Option, none, some, List, [], ◌∷◌, ◌++◌, map, any, ◌==◌,
  if◌then◌else◌,
}
use lakeforge.Prelude.Assoc.{Assoc, lookup, insert}
use lakeforge.Uc.Names.{
  Name, codes, name_eq, eq_ignore_ascii_case, normalize_privilege, ascii_lower, replace, split_name,
}
use lakeforge.Uc.Securable.{
  Securable, metastore, catalog, schema, kind, lineage_of, grants_key, grants_doc_id, api_type,
  ApiError, permission_denied, ApiResult, fine, refused,
}

pub record Assignment : Type 0 where
  pub principal : Name
  pub privileges : List Name

pub record Principal : Type 0 where
  pub user_id : Name
  pub user_name : Name
  pub is_admin : Bool
  pub groups : List Name

-- What the checks read: the documents of grants by id, the owner field of the others by id, and the
-- configured admin user.
pub record Catalog : Type 0 where
  pub grant_docs : Assoc Name (List Assignment)
  pub owner_docs : Assoc Name (Option Name)
  pub admin_user : Name

abbrev pub parse_assignments : List Assignment → List Assignment
parse_assignments =
    map (λ (a : Assignment). record a { privileges = map normalize_privilege a.privileges })

-- `principal_matches`: the user, everyone, or one of the user's groups.
unfoldable pub principal_matches : Principal → Name → Bool
principal_matches p name =
    (eq_ignore_ascii_case name p.user_name || name == p.user_id)
    || (eq_ignore_ascii_case name (codes "account users")
        || eq_ignore_ascii_case name (codes "users"))
    || any (λ g. eq_ignore_ascii_case g name) p.groups

abbrev pub doc_or_empty : Option (List Assignment) → List Assignment
doc_or_empty none = []
doc_or_empty (some d) = parse_assignments d

-- `grants_for`.
unfoldable pub grants_for : Catalog → Securable → Name → List Assignment
grants_for c sec n = doc_or_empty (lookup (grants_doc_id sec n) c.grant_docs)

abbrev pub owner_field : Option (Option Name) → Option Name
owner_field none = none
owner_field (some o) = o

abbrev pub kind_or_table : Option Name → Name
kind_or_table none = codes "uc_table"
kind_or_table (some k) = k

-- What `owner` reads when it is not in the cache.
unfoldable pub owner_of : Catalog → Securable → Name → Option Name
owner_of c metastore n = some c.admin_user
owner_of c sec n = owner_field (lookup (kind_or_table (kind sec) ++ 58 ∷ n) c.owner_docs)

-- The caches of one request.
pub record Caches : Type 0 where
  pub grants : Assoc Name (List Assignment)
  pub owners : Assoc Name (Option Name)

abbrev pub new_caches : Caches
new_caches = record { grants = []; owners = [] }

abbrev pub matches_owner : Principal → Option Name → Bool
matches_owner p none = false
matches_owner p (some o) = principal_matches p o

abbrev pub gives : Principal → Name → Assignment → Bool
gives p privilege a =
    principal_matches p a.principal
    && (any (λ x. x == privilege) a.privileges
        || any (λ x. x == codes "ALL_PRIVILEGES") a.privileges)

abbrev pub is_empty {ℓ} : {A : Type ℓ} → List A → Bool
is_empty [] = true
is_empty (x ∷ xs) = false

abbrev pub gives_some : Principal → Assignment → Bool
gives_some p a = principal_matches p a.principal && not (is_empty a.privileges)

module _ (c : Catalog) (p : Principal) where
  unfoldable pub grants : Caches → Securable → Name → Caches × List Assignment
  grants az sec n = elim (lookup (grants_key sec n) az.grants) [
    | some g ↦ (az, g)
    | none ↦
        let g = grants_for c sec n in
        (record az { grants = insert (grants_key sec n) g az.grants }, g)
  ]

  unfoldable pub owner : Caches → Securable → Name → Caches × Option Name
  owner az sec n = elim (lookup (grants_key sec n) az.owners) [
    | some o ↦ (az, o)
    | none ↦
        let o = owner_of c sec n in
        (record az { owners = insert (grants_key sec n) o az.owners }, o)
  ]

  -- The loop of `is_owner`.
  unfoldable pub owns_some : Caches → List (Securable × Name) → Caches × Bool
  owns_some az [] = (az, false)
  owns_some az ((s, n) ∷ l) =
      let (az', o) = owner az s n in
      elim (matches_owner p o) [ true ↦ (az', true) | false ↦ owns_some az' l ]

  -- The loop of `has_privilege` and of `has_any_privilege`, which differ in what they look for.
  unfoldable pub finds : (Assignment → Bool) → Caches → List (Securable × Name) → Caches × Bool
  finds accept az [] = (az, false)
  finds accept az ((s, n) ∷ l) =
      let (az', o) = owner az s n in
      elim (matches_owner p o) [
        | true ↦ (az', true)
        | false ↦
            let (az'', g) = grants az' s n in
            elim (any accept g) [ true ↦ (az'', true) | false ↦ finds accept az'' l ]
      ]

  unfoldable pub is_owner : Caches → Securable → Name → Caches × Bool
  is_owner az sec n = if p.is_admin then (az, true) else owns_some az (lineage_of sec n)

  unfoldable pub has_privilege : Caches → Securable → Name → Name → Caches × Bool
  has_privilege az sec n privilege =
      if p.is_admin
      then (az, true)
      else finds (gives p (normalize_privilege privilege)) az (lineage_of sec n)

  unfoldable pub has_any_privilege : Caches → Securable → Name → Caches × Bool
  has_any_privilege az sec n =
      if p.is_admin then (az, true) else finds (gives_some p) az (lineage_of sec n)

  unfoldable pub can_manage : Caches → Securable → Name → Caches × Bool
  can_manage az sec n =
      let (az', owns) = is_owner az sec n in
      elim owns [ true ↦ (az', true) | false ↦ has_privilege az' sec n (codes "MANAGE") ]

  -- `denied`: the type of the securable, capitalised and with spaces, in the message.
  abbrev denied_type : Securable → Name
  denied_type sec = elim (api_type sec) [ [] ↦ [] | x ∷ r ↦ x ∷ replace 95 32 (map ascii_lower r) ]

  unfoldable pub denied : Name → Securable → Name → ApiError
  denied privilege sec n = permission_denied (
      codes "[INSUFFICIENT_PERMISSIONS] User "
      ++ p.user_name
      ++ codes " does not have "
      ++ replace 95 32 (normalize_privilege privilege)
      ++ codes " on "
      ++ denied_type sec
      ++ codes " '"
      ++ n
      ++ codes "'.")

  unfoldable pub require : Caches → Securable → Name → Name → Caches × ApiResult (Unit {0})
  require az sec n privilege =
      let (az', allowed) = has_privilege az sec n privilege in
      (az', if allowed then fine tt else refused (denied privilege sec n))

  unfoldable pub require_owner : Caches → Securable → Name → Caches × ApiResult (Unit {0})
  require_owner az sec n =
      let (az', allowed) = can_manage az sec n in
      (
        az',
        if allowed
            then fine tt
            else refused (
                permission_denied (
                  codes "User does not own "
                  ++ api_type sec
                  ++ codes " '"
                  ++ n
                  ++ codes "' and does not have MANAGE on it.")),
      )

  -- The schema check of `require_use_path`, for a name of three parts or more.
  abbrev pub require_use_schema : Caches → List Name → Caches × ApiResult (Unit {0})
  require_use_schema az (c' ∷ s ∷ t ∷ r) = require az schema (c' ++ 46 ∷ s) (codes "USE_SCHEMA")
  require_use_schema az _ = (az, fine tt)

  abbrev pub require_parts : Caches → List Name → Caches × ApiResult (Unit {0})
  require_parts az [] = (az, fine tt)
  require_parts az (c' ∷ r) =
      let (az', first) = require az catalog c' (codes "USE_CATALOG") in
      elim first [ refused e ↦ (az', refused e) | fine _ ↦ require_use_schema az' (c' ∷ r) ]

  unfoldable pub require_use_path : Caches → Name → Caches × ApiResult (Unit {0})
  require_use_path az n = require_parts az (split_name 46 n)

  unfoldable pub require_on_object :
      Caches → Securable → Name → Name → Caches × ApiResult (Unit {0})
  require_on_object az sec n privilege =
      let (az', path) = require_use_path az n in
      elim path [ refused e ↦ (az', refused e) | fine _ ↦ require az' sec n privilege ]
