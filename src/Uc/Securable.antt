-- ===== src/Uc/Securable.antt =====
-- The types of securables, their keys and their ancestors
-- (crates/lakeforge-api/src/uc/privileges.rs).
use lakeforge.Prelude.{
  ◌≡◌, refl, Bool, Option, none, some, List, [], ◌∷◌, ◌++◌, map, ◌==◌, if◌then◌else◌, any, sym, ap,
  ◌∙◌, ◌⊎◌, inl, inr, true, false,
}
use mathlib.Core.Option.{some-injective}
use lakeforge.Uc.Names.{Name, codes, name_eq, ascii_lower, replace, split_name, split_once}

pub data ApiError : Type 0 where
  invalid_parameter not_found already_exists unauthenticated permission_denied : Name → ApiError
  invalid_state internal unavailable : Name → ApiError

pub data ApiResult {ℓ} (A : Type ℓ) : Type ℓ where
  fine : A → ApiResult A
  refused : ApiError → ApiResult A

abbrev pub is_fine {ℓ} : {A : Type ℓ} → ApiResult A → Bool
is_fine (fine a) = true
is_fine (refused e) = false

pub is_fine-if :
    (b : Bool) (e : ApiError) → is_fine {A = Unit {0}} (if b then fine tt else refused e) ≡ b
is_fine-if true e = refl
is_fine-if false e = refl

pub fine-injective {ℓ} : {A : Type ℓ} (a b : A) → fine a ≡ fine b → a ≡ b
fine-injective a b h = cc

pub ApiResult-cases {ℓ} :
    {A : Type ℓ} (r : ApiResult A) → ((a : A) × (r ≡ fine a)) ⊎ ((e : ApiError) × (r ≡ refused e))
ApiResult-cases (fine a) = inl (a, refl)
ApiResult-cases (refused e) = inr (e, refl)

abbrev pub all_privileges : List Name
all_privileges =
    codes "ALL_PRIVILEGES"
    ∷ codes "APPLY_TAG"
    ∷ codes "BROWSE"
    ∷ codes "CREATE_CATALOG"
    ∷ codes "CREATE_CONNECTION"
    ∷ codes "CREATE_EXTERNAL_LOCATION"
    ∷ codes "CREATE_EXTERNAL_TABLE"
    ∷ codes "CREATE_EXTERNAL_VOLUME"
    ∷ codes "CREATE_FOREIGN_CATALOG"
    ∷ codes "CREATE_FOREIGN_SECURABLE"
    ∷ codes "CREATE_FUNCTION"
    ∷ codes "CREATE_MANAGED_STORAGE"
    ∷ codes "CREATE_MATERIALIZED_VIEW"
    ∷ codes "CREATE_MODEL"
    ∷ codes "CREATE_PROVIDER"
    ∷ codes "CREATE_RECIPIENT"
    ∷ codes "CREATE_SCHEMA"
    ∷ codes "CREATE_SERVICE_CREDENTIAL"
    ∷ codes "CREATE_SHARE"
    ∷ codes "CREATE_STORAGE_CREDENTIAL"
    ∷ codes "CREATE_TABLE"
    ∷ codes "CREATE_VIEW"
    ∷ codes "CREATE_VOLUME"
    ∷ codes "EXECUTE"
    ∷ codes "MANAGE"
    ∷ codes "MANAGE_ALLOWLIST"
    ∷ codes "MODIFY"
    ∷ codes "READ_FILES"
    ∷ codes "READ_PRIVATE_FILES"
    ∷ codes "READ_VOLUME"
    ∷ codes "REFRESH"
    ∷ codes "SELECT"
    ∷ codes "SET_SHARE_PERMISSION"
    ∷ codes "USE_CATALOG"
    ∷ codes "USE_CONNECTION"
    ∷ codes "USE_MARKETPLACE_ASSETS"
    ∷ codes "USE_PROVIDER"
    ∷ codes "USE_RECIPIENT"
    ∷ codes "USE_SCHEMA"
    ∷ codes "USE_SHARE"
    ∷ codes "WRITE_FILES"
    ∷ codes "WRITE_PRIVATE_FILES"
    ∷ codes "WRITE_VOLUME"
    ∷ []

unfoldable pub is_known_privilege : Name → Bool
is_known_privilege p = any (λ x. x == p) all_privileges

pub data Securable : Type 0 where
  metastore catalog schema table volume function external_location storage_credential connection
        share recipient provider :
      Securable

unfoldable pub as_str : Securable → Name
as_str metastore = codes "metastore"
as_str catalog = codes "catalog"
as_str schema = codes "schema"
as_str table = codes "table"
as_str volume = codes "volume"
as_str function = codes "function"
as_str external_location = codes "external_location"
as_str storage_credential = codes "storage_credential"
as_str connection = codes "connection"
as_str share = codes "share"
as_str recipient = codes "recipient"
as_str provider = codes "provider"

unfoldable pub api_type : Securable → Name
api_type metastore = codes "METASTORE"
api_type catalog = codes "CATALOG"
api_type schema = codes "SCHEMA"
api_type table = codes "TABLE"
api_type volume = codes "VOLUME"
api_type function = codes "FUNCTION"
api_type external_location = codes "EXTERNAL_LOCATION"
api_type storage_credential = codes "STORAGE_CREDENTIAL"
api_type connection = codes "CONNECTION"
api_type share = codes "SHARE"
api_type recipient = codes "RECIPIENT"
api_type provider = codes "PROVIDER"

-- The kind of the documents that hold a securable.
unfoldable pub kind : Securable → Option Name
kind metastore = none
kind catalog = some (codes "uc_catalog")
kind schema = some (codes "uc_schema")
kind table = some (codes "uc_table")
kind volume = some (codes "uc_volume")
kind function = some (codes "uc_function")
kind external_location = some (codes "uc_external_location")
kind storage_credential = some (codes "uc_storage_credential")
kind connection = some (codes "uc_connection")
kind share = some (codes "uc_share")
kind recipient = some (codes "uc_recipient")
kind provider = some (codes "uc_provider")

-- The spellings that `parse` accepts, after lower-casing and with `_` for `-`.
abbrev spellings : List (Name × Securable)
spellings =
    (codes "metastore", metastore)
    ∷ (codes "catalog", catalog)
    ∷ (codes "schema", schema)
    ∷ (codes "table", table)
    ∷ (codes "view", table)
    ∷ (codes "materialized_view", table)
    ∷ (codes "streaming_table", table)
    ∷ (codes "volume", volume)
    ∷ (codes "function", function)
    ∷ (codes "registered_model", function)
    ∷ (codes "model", function)
    ∷ (codes "external_location", external_location)
    ∷ (codes "storage_credential", storage_credential)
    ∷ (codes "credential", storage_credential)
    ∷ (codes "connection", connection)
    ∷ (codes "share", share)
    ∷ (codes "recipient", recipient)
    ∷ (codes "provider", provider)
    ∷ []

abbrev find_spelling : Name → List (Name × Securable) → ApiResult Securable
find_spelling s [] =
    refused (invalid_parameter (codes "Unknown securable type '" ++ s ++ codes "'"))
find_spelling s ((x, sec) ∷ m) = if x == s then fine sec else find_spelling s m

unfoldable pub parse : Name → ApiResult Securable
parse s = find_spelling (replace 45 95 (map ascii_lower s)) spellings

-- Each type is read back from the name that it is written with.
parse-as_str : (sec : Securable) → parse (as_str sec) ≡ fine sec
unfolding parse as_str
parse-as_str metastore = refl
parse-as_str catalog = refl
parse-as_str schema = refl
parse-as_str table = refl
parse-as_str volume = refl
parse-as_str function = refl
parse-as_str external_location = refl
parse-as_str storage_credential = refl
parse-as_str connection = refl
parse-as_str share = refl
parse-as_str recipient = refl
parse-as_str provider = refl

abbrev pub metastore_id : Name
metastore_id = codes "lakeforge-metastore"

-- The ancestors below the metastore of an object with three-part name: by the parts of the name.
abbrev pub object_parents : List Name → List (Securable × Name)
object_parents (c ∷ s ∷ t ∷ r) = (schema, c ++ 46 ∷ s) ∷ (catalog, c) ∷ []
object_parents (c ∷ s ∷ []) = (catalog, c) ∷ []
object_parents _ = []

abbrev pub schema_parents : Option (Name × Name) → List (Securable × Name)
schema_parents none = []
schema_parents (some (c, s)) = (catalog, c) ∷ []

unfoldable pub parents : Securable → Name → List (Securable × Name)
parents table n = object_parents (split_name 46 n)
parents volume n = object_parents (split_name 46 n)
parents function n = object_parents (split_name 46 n)
parents schema n = schema_parents (split_once 46 n)
parents _ n = []

abbrev pub above : Securable → List (Securable × Name)
above metastore = []
above _ = (metastore, metastore_id) ∷ []

-- `lineage_of`: the securable and its ancestors, nearest first.
unfoldable pub lineage_of : Securable → Name → List (Securable × Name)
lineage_of sec n = (sec, n) ∷ parents sec n ++ above sec

unfoldable pub grants_key : Securable → Name → Name
grants_key sec n = as_str sec ++ 58 ∷ n

abbrev pub grants_doc_id : Securable → Name → Name
grants_doc_id sec n = codes "uc_grants:" ++ grants_key sec n

split_once-grants_key :
    (sec : Securable) (n : Name) → split_once 58 (grants_key sec n) ≡ some (as_str sec, n)
unfolding grants_key as_str
split_once-grants_key metastore n = refl
split_once-grants_key catalog n = refl
split_once-grants_key schema n = refl
split_once-grants_key table n = refl
split_once-grants_key volume n = refl
split_once-grants_key function n = refl
split_once-grants_key external_location n = refl
split_once-grants_key storage_credential n = refl
split_once-grants_key connection n = refl
split_once-grants_key share n = refl
split_once-grants_key recipient n = refl
split_once-grants_key provider n = refl

-- Two securables with one key are one securable with one name.
pub grants_key-injective :
    (a b : Securable) (m n : Name) → grants_key a m ≡ grants_key b n → (a ≡ b) × (m ≡ n)
grants_key-injective a b m n same =
    let halves : some (as_str a, m) ≡ some (as_str b, n) =
      sym (split_once-grants_key a m) ∙ ap (split_once 58) same ∙ split_once-grants_key b n in
    let pair : (as_str a, m) ≡ (as_str b, n) = some-injective (as_str a, m) (as_str b, n) halves in
    let read : fine a ≡ fine b =
      sym (parse-as_str a) ∙ ap (λ (p : Name × Name). parse p.0) pair ∙ parse-as_str b in
    (fine-injective a b read, ap (λ (p : Name × Name). p.1) pair)
