-- ===== src/Uc/Grants.antt =====
-- Changes of grants (crates/lakeforge-api/src/uc/privileges.rs).
use lakeforge.Prelude.{
  take, ℕ, ◌+◌, ◌≡◌, refl, Bool, true, false, not, ◌&&◌, Option, none, some, List, [], ◌∷◌, ◌++◌,
  map, any, keep, ◌==◌, ap, ◌∙◌, inl, inr, if◌then◌else◌,
}
use lakeforge.Prelude
use lakeforge.Prelude.Assoc.{Assoc, insert, remove, keys}
use lakeforge.Uc.Names.{
  Name, codes, name_eq, eq_ignore_ascii_case, normalize_privilege, split_once, starts_with,
}
use lakeforge.Uc.Securable.{
  Securable, catalog, schema, invalid_parameter, ApiResult, fine, refused, parse,
  is_known_privilege, grants_doc_id,
}
use lakeforge.Uc.Authorizer.{Assignment, Catalog, grants_for, is_empty}

-- `assignments_json`: an assignment without privileges is left out.
abbrev pub assignments_json : List Assignment → List Assignment
assignments_json = keep (λ a. not (is_empty a.privileges))

-- The principal's assignment is appended when there is none.
abbrev pub with_principal : Name → List Assignment → List Assignment
with_principal who l =
    if any (λ a. eq_ignore_ascii_case a.principal who) l
    then l
    else l ++ record { principal = who; privileges = [] } ∷ []

-- The loop over `add`, on the privileges of the one assignment that it changes.
unfoldable pub add_privileges : List Name → List Name → ApiResult (List Name)
add_privileges [] have = fine have
add_privileges (a ∷ r) have =
    let p = normalize_privilege a in
    let rest = add_privileges r (if any (λ x. x == p) have then have else have ++ p ∷ []) in
    if is_known_privilege p
    then rest
    else refused (invalid_parameter (codes "Privilege " ++ p ++ codes " is not supported"))

-- The loop over `remove`.
unfoldable pub remove_privileges : List Name → List Name → List Name
remove_privileges [] have = have
remove_privileges (a ∷ r) have =
    let p = normalize_privilege a in
    remove_privileges r (if p == codes "ALL_PRIVILEGES" then [] else keep (λ x. not (x == p)) have)

-- The changes to the first assignment of the principal, by the loops over `add` and `remove`.
unfoldable pub change_first :
    Name → List Name → List Name → List Assignment → ApiResult (List Assignment)
change_first who add drop [] = fine []
change_first who add drop (a ∷ r) =
    let rest = change_first who add drop r in
    if eq_ignore_ascii_case a.principal who
    then elim (add_privileges add a.privileges) [
      | refused e ↦ refused e
      | fine have ↦ fine (record a { privileges = remove_privileges drop have } ∷ r)
    ]
    else elim rest [ refused e ↦ refused e | fine r' ↦ fine (a ∷ r') ]

abbrev pub set_doc : Catalog → Name → List Assignment → Catalog
set_doc c id [] = record c { grant_docs = remove id c.grant_docs }
set_doc c id (a ∷ r) = record c { grant_docs = insert id (a ∷ r) c.grant_docs }

-- `change_grants`: the store with the new document, and the assignments; an error changes nothing.
unfoldable pub change_grants :
    Catalog
    → Securable
    → Name
    → Name
    → List Name
    → List Name
    → Catalog × ApiResult (List Assignment)
change_grants c sec n who add drop =
    elim (change_first who add drop (with_principal who (grants_for c sec n))) [
      | refused e ↦ (c, refused e)
      | fine changed ↦
          let l = assignments_json changed in (set_doc c (grants_doc_id sec n) l, fine l)
    ]

-- `drop_grants`: the documents of the securable and, for a catalog or a schema, of what is below.
abbrev pub is_container : Securable → Bool
is_container catalog = true
is_container schema = true
is_container _ = false

abbrev pub Docs : Type 0
Docs = Assoc Name (List Assignment)

abbrev pub drop_known : Name → Docs → ApiResult Securable → Docs
drop_known name docs (refused e) = docs
drop_known name docs (fine s) = remove (grants_doc_id s name) docs

-- One round of the loop of `drop_grants`, for the key of a document, split at its colon.
abbrev pub drop_key : Name → Docs → Option (Name × Name) → Docs
drop_key n docs none = docs
drop_key n docs (some (t, name)) =
    if starts_with (n ++ 46 ∷ []) name then drop_known name docs (parse t) else docs

unfoldable pub drop_below : Name → List Name → Docs → Docs
drop_below n [] docs = docs
drop_below n (key ∷ ks) docs = drop_below n ks (drop_key n docs (split_once 58 key))

-- The name of a document of grants is its id without the kind.
abbrev pub name_of_doc : Name → Name
name_of_doc id = Prelude.drop 10 id

-- The names that `all_grants` lists: `list` stops at 10,000 documents, the oldest first, which
-- stand in the order of their creation.
abbrev pub list_limit : ℕ
list_limit = 10000

abbrev pub grant_names : Docs → List Name
grant_names docs = map name_of_doc (take list_limit (keys docs))

unfoldable pub drop_grants : Catalog → Securable → Name → Catalog
drop_grants c sec n =
    let docs = remove (grants_doc_id sec n) c.grant_docs in
    record c {
      grant_docs = if is_container sec then drop_below n (grant_names docs) docs else docs;
    }

-- `move_grants`.
unfoldable pub move_grants : Catalog → Securable → Name → Name → Catalog
move_grants c sec from to = elim (grants_for c sec from) [
  | [] ↦ c
  | a ∷ r ↦ record c {
    grant_docs =
        insert (grants_doc_id sec to) (assignments_json (a ∷ r))
          (remove (grants_doc_id sec from) c.grant_docs);
  }
]
