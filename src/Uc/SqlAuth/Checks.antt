-- ===== src/Uc/SqlAuth/Checks.antt =====
-- Checks that read the caches of an authorizer, and what an analysed statement touches
-- (crates/lakeforge-api/src/uc/sqlauth.rs, crates/lakeforge-api/src/uc/sqlguard.rs).
use lakeforge.Prelude.{
  ℕ, ltb, length, Bool, true, false, ◌&&◌, ◌||◌, Option, none, some, List, [], ◌∷◌, ◌++◌, any, ◌==◌,
  if◌then◌else◌,
}
use mathlib.Core.Option
use lakeforge.Prelude.Assoc.{Assoc, lookup}
use lakeforge.Uc.Names.{Name, codes, name_eq, split_name, starts_with, replace, normalize_privilege}
use lakeforge.Uc.Securable.{
  Securable, catalog, schema, external_location, permission_denied, ApiResult, fine, refused, kind,
  metastore, table,
}
use lakeforge.Uc.GrantSql.Parse.{trim_end_matches}
use lakeforge.Uc.Authorizer.{
  Principal, Catalog, Caches, require, require_owner, require_use_path, require_on_object,
  kind_or_table,
}

-- A check answers, and leaves caches.
abbrev pub Checked {ℓ} : Type ℓ → Type ℓ
Checked A = Caches × ApiResult A

abbrev pub Check {ℓ} : Type ℓ → Type ℓ
Check A = Caches → Checked A

module _ {ℓ κ} {A : Type ℓ} {B : Type κ} where
  -- What `?` does.
  unfoldable pub continue : (A → Check B) → Checked A → Checked B
  continue f (az, fine a) = f a az
  continue f (az, refused e) = (az, refused e)

  infixl 1 ◌>>=◌ ◌>>◌
  abbrev pub ◌>>=◌ : Check A → (A → Check B) → Check B
  m >>= f = λ az. continue f (m az)

  abbrev pub ◌>>◌ : Check A → Check B → Check B
  m >> n = m >>= λ _. n

abbrev pub pure {ℓ} : {A : Type ℓ} → A → Check A
pure a = λ az. (az, fine a)

abbrev pub deny {ℓ} : {A : Type ℓ} → Name → Check A
deny msg = λ az. (az, refused (permission_denied msg))

pub data StmtKind : Type 0 where
  select insert update delete merge create_table create_view create_schema drop alter truncate
        describe show use_ set explain other :
      StmtKind

unfoldable pub is_write : StmtKind → Bool
is_write insert = true
is_write update = true
is_write delete = true
is_write merge = true
is_write truncate = true
is_write _ = false

-- The fields of an analysis that the checks read.
pub record Analysis : Type 0 where
  pub kind : StmtKind
  pub reads : List Name
  pub writes : List Name
  pub creates : List (Securable × Name)
  pub owned : List (Securable × Name)
  pub paths : List Name
  pub location : Option Name
  pub replace : Bool

-- What the checks read of the metastore: the stored documents by id, each with its `table_type` if
-- that is a string, the names that `system_tables` has, the enabled system schemas, and the external
-- locations, each with its `url`, if that is a string, and its name.
pub record Metastore : Type 0 where
  pub docs : Assoc Name (Option Name)
  pub system_schemas : List Name
  pub system_table : Name → Name → Bool
  pub virtual_table : Name → Name → Name → Option (Option Name)
  pub enabled_system_schemas : List Name
  pub locations : List (Option Name × Name)

abbrev pub is_some {ℓ} : {A : Type ℓ} → Option A → Bool
is_some none = false
is_some (some x) = true

-- `uc_get`.
unfoldable pub uc_get : Metastore → Securable → Name → Option (Option Name)
uc_get m sec full = lookup (kind_or_table (kind sec) ++ 58 ∷ full) m.docs

abbrev pub virtual_parts : Metastore → Securable → List Name → Bool
virtual_parts m catalog (k ∷ []) = k == codes "system"
virtual_parts m schema (k ∷ s ∷ []) =
    (k == codes "system" && any (λ x. x == s) m.system_schemas) || s == codes "information_schema"
virtual_parts m table (k ∷ s ∷ t ∷ []) = is_some (m.virtual_table k s t)
virtual_parts m _ _ = false

-- Whether `uc_virtual` answers.
unfoldable pub uc_virtual : Metastore → Securable → Name → Bool
uc_virtual m sec full = virtual_parts m sec (split_name 46 full)

unfoldable pub uc_exists : Metastore → Securable → Name → Bool
unfolding uc_get uc_virtual
uc_exists m metastore full = true
uc_exists m sec full = is_some (uc_get m sec full) || uc_virtual m sec full

abbrev pub is_system : Metastore → List Name → Bool
is_system m (k ∷ s ∷ n ∷ []) = k == codes "system" && m.system_table s n
is_system m _ = false

unfoldable pub is_system_table : Metastore → Name → Bool
is_system_table m full = is_system m (split_name 46 full)

abbrev pub type_or_managed : Option Name → Name
type_or_managed none = codes "MANAGED"
type_or_managed (some t) = t

abbrev pub virtual_of : Metastore → List Name → Option (Option Name)
virtual_of m (k ∷ s ∷ n ∷ []) = m.virtual_table k s n
virtual_of m _ = none

-- `governed_table`, with the type that `authorize_sql` takes from the document.
unfoldable pub governed_table : Metastore → Name → Option Name
unfolding uc_get is_system_table
governed_table m full = elim (uc_get m table full) [
  | some t ↦ some (type_or_managed t)
  | none ↦
      if is_system_table m full
      then Option.map type_or_managed (virtual_of m (split_name 46 full))
      else none
]

abbrev pub in_system : Name → Bool
in_system full = starts_with (codes "system.") full

-- The location of the longest URL that covers the path; the first of them, if there are several.
abbrev pub covers : Name → Name → Bool
covers url prefix = url == prefix || starts_with (prefix ++ codes "/") url

abbrev pub is_longer : ℕ → Option (ℕ × Name) → Bool
is_longer n none = true
is_longer n (some (k, name)) = ltb k n

unfoldable pub best_location :
    Name → List (Option Name × Name) → Option (ℕ × Name) → Option (ℕ × Name)
best_location url [] best = best
best_location url ((none, name) ∷ ls) best = best_location url ls best
best_location url ((some u, name) ∷ ls) best =
    let prefix = trim_end_matches 47 u in
    best_location url ls (
      if covers url prefix && is_longer (length prefix) best
      then some (length prefix, name)
      else best)

abbrev pub joined : List Name → Option Name
joined (c ∷ s ∷ t ∷ []) = some (c ++ codes "." ++ s)
joined _ = none

-- Of a name of three parts, the first two.
abbrev pub parent_schema : Name → Option Name
parent_schema full = joined (split_name 46 full)

abbrev pub first_of : List Name → Option Name
first_of [] = none
first_of (c ∷ r) = some c

abbrev pub parent_catalog : Name → Option Name
parent_catalog full = first_of (split_name 46 full)

abbrev pub second_or_empty : List Name → Name
second_or_empty (c ∷ s ∷ r) = s
second_or_empty _ = []

module _ (c : Catalog) (p : Principal) (m : Metastore) where
  abbrev pub required : Securable → Name → Name → Check (Unit {0})
  required sec n privilege = λ az. require c p az sec n privilege

  abbrev pub required_owner : Securable → Name → Check (Unit {0})
  required_owner sec n = λ az. require_owner c p az sec n

  abbrev pub required_path : Name → Check (Unit {0})
  required_path n = λ az. require_use_path c p az n

  abbrev pub required_object : Securable → Name → Name → Check (Unit {0})
  required_object sec n privilege = λ az. require_on_object c p az sec n privilege

  -- `require_system_read`.
  unfoldable pub require_system_read : Name → Check (Unit {0})
  require_system_read full =
      let s = second_or_empty (split_name 46 full) in
      if s == codes "information_schema"
      then pure tt
      else if any (λ x. x == s) m.enabled_system_schemas
      then (if p.is_admin then pure tt else required schema (codes "system." ++ s) (codes "SELECT"))
      else deny (
          codes "System schema '"
          ++ s
          ++ codes
              "' is not enabled; enable it via PUT /api/2.1/unity-catalog/metastores/{id}/systemschemas/"
          ++ s)

  abbrev pub visible_catalog : List Name → Check (Unit {0})
  visible_catalog [] = pure tt
  visible_catalog (k ∷ r) =
      if uc_exists m catalog k then required catalog k (codes "USE_CATALOG") else pure tt

  abbrev pub visible_schema : List Name → Check (Unit {0})
  visible_schema (k ∷ s ∷ t ∷ r) =
      let full = k ++ codes "." ++ s in
      if is_some (uc_get m schema full) then required schema full (codes "USE_SCHEMA") else pure tt
  visible_schema _ = pure tt

  -- `require_visible_parents`.
  unfoldable pub require_visible_parents : Name → Check (Unit {0})
  unfolding uc_exists uc_get
  require_visible_parents full = do
    visible_catalog (split_name 46 full)
    visible_schema (split_name 46 full)

  abbrev pub required_location : Name → Name → Option (ℕ × Name) → Check (Unit {0})
  required_location url privilege (some (n, name)) = required external_location name privilege
  required_location url privilege none = deny (
      codes "[INSUFFICIENT_PERMISSIONS] No external location covers '"
      ++ url
      ++ codes "'; "
      ++ replace 95 32 (normalize_privilege privilege)
      ++ codes " requires an external location grant.")

  -- `require_path_privilege` (crates/lakeforge-api/src/api/catalog.rs).
  unfoldable pub require_path_privilege : Name → Name → Check (Unit {0})
  unfolding best_location
  require_path_privilege url privilege =
      if p.is_admin
      then pure tt
      else required_location url privilege (best_location url m.locations none)
