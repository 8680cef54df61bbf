-- ===== src/Permissions/Updates.antt =====
-- What an update of a list leaves (crates/lakeforge-api/src/api/permissions.rs).
use lakeforge.Prelude.{
  ◌≡◌, refl, ℕ, Option, none, some, [], ◌∷◌, All, arith, ◌⊎◌, any, List, ◌==◌, inl, inr, ap, ◌∙◌,
  Bool-cases, Option-cases, true, false,
}
use mathlib.Core.Path.{subst}
use lakeforge.Prelude.Assoc.{lookup, insert, lookup-insert}
use lakeforge.Uc.Names.{Name, name_eq}
use lakeforge.Uc.Securable.{ApiResult, fine, refused, fine-injective}
use lakeforge.Permissions.{
  Entry, Key, Acl, Store, level_rank, doc_id, get_permissions, entry_of, principal_of,
  with_principal, with_rank, with_level, check_entry, and_entries, check_entries, set_permissions,
  put_entries, update_permissions, user, group, service_principal, stored, acl_or_empty, levels,
  position_of,
}

-- An entry with one name.
abbrev pub HasOneName : Entry → Type 0
HasOneName e =
    ((v : Name) × (e.user_name ≡ some v)
      × (e.group_name ≡ none)
      × (e.service_principal_name ≡ none))
    ⊎ ((v : Name) × (e.user_name ≡ none)
        × (e.group_name ≡ some v)
        × (e.service_principal_name ≡ none))
    ⊎ ((v : Name) × (e.user_name ≡ none)
        × (e.group_name ≡ none)
        × (e.service_principal_name ≡ some v))

-- An entry with a level of the type, and one name.
abbrev pub IsClean : Name → Entry → Type 0
IsClean t e =
    ((l : Name) × (e.permission_level ≡ some l) × (any (λ x. x == l) (levels t) ≡ true))
    × HasOneName e

position_of-any :
    (l : Name) (ls : List Name) → position_of l ls ≡ none → any (λ x. x == l) ls ≡ false
unfolding position_of
position_of-any l [] h = refl
position_of-any l (x ∷ xs) h = elim (Bool-cases (x == l)) [
  | inl same ↦ cc (rw same at h)
  | inr other ↦ elim (Option-cases (position_of l xs)) [
    | inl missing ↦ rw other (position_of-any l xs missing)
    | inr (r, found) ↦ cc (rw (other, found) at h)
  ]
]

any-position_of :
    (l : Name) (ls : List Name) (r : ℕ) → position_of l ls ≡ some r → any (λ x. x == l) ls ≡ true
unfolding position_of
any-position_of l [] r h = cc
any-position_of l (x ∷ xs) r h = elim (Bool-cases (x == l)) [
  | inl same ↦ rw same refl
  | inr other ↦ elim (Option-cases (position_of l xs)) [
    | inl missing ↦ cc (rw (other, missing) at h)
    | inr (k, found) ↦ rw other (any-position_of l xs k found)
  ]
]

known_level :
    (t l : Name) → any (λ x. x == l) (levels t) ≡ true → (r : ℕ) × (level_rank t l ≡ some r)
unfolding level_rank
known_level t l h = elim (Option-cases (position_of l (levels t))) [
  | inr known ↦ known
  | inl missing ↦ let never = position_of-any l (levels t) missing in cc
]

one_name : (k : Key × Name) (l : Name) → HasOneName (entry_of k l)
one_name (user, v) l = inl (v, refl, refl, refl)
one_name (group, v) l = inr (inl (v, refl, refl, refl))
one_name (service_principal, v) l = inr (inr (v, refl, refl, refl))

level_of-entry_of : (k : Key × Name) (l : Name) → (entry_of k l).permission_level ≡ some l
level_of-entry_of (user, v) l = refl
level_of-entry_of (group, v) l = refl
level_of-entry_of (service_principal, v) l = refl

-- What the API stores for an entry that it takes is clean.
entry_of-IsClean :
    (t l : Name) (r : ℕ) (k : Key × Name) → level_rank t l ≡ some r → IsClean t (entry_of k l)
unfolding level_rank
entry_of-IsClean t l r k known =
    ((l, level_of-entry_of k l, any-position_of l (levels t) r known), one_name k l)

stored_as :
    (e : Entry) (l : Name)
    → e.permission_level ≡ some l
    → HasOneName e
    → with_principal l (principal_of e) ≡ fine e
stored_as e l level (inl (v, u, g, s)) = rw (u, g, s, level) refl
stored_as e l level (inr (inl (v, u, g, s))) = rw (u, g, s, level) refl
stored_as e l level (inr (inr (v, u, g, s))) = rw (u, g, s, level) refl

-- A clean entry is stored as it is.
pub check_entry-clean : (t : Name) (e : Entry) → IsClean t e → check_entry t e ≡ fine e
unfolding check_entry
check_entry-clean t e ((l, level, listed), named) =
    let (r, known) = known_level t l listed in
    ap (with_level t e) level ∙ ap (with_rank t e l) known ∙ stored_as e l level named

with_principal-IsClean :
    (t l : Name) (r : ℕ) (o : Option (Key × Name)) (a : Entry)
    → level_rank t l ≡ some r
    → with_principal l o ≡ fine a
    → IsClean t a
with_principal-IsClean t l r none a known h = cc
with_principal-IsClean t l r (some k) a known h =
    subst (IsClean t) (fine-injective _ _ h) (entry_of-IsClean t l r k known)

with_rank-IsClean :
    (t l : Name) (e : Entry) (o : Option ℕ) (a : Entry)
    → level_rank t l ≡ o
    → with_rank t e l o ≡ fine a
    → IsClean t a
with_rank-IsClean t l e none a known h = cc
with_rank-IsClean t l e (some r) a known h = with_principal-IsClean t l r (principal_of e) a known h

with_level-IsClean :
    (t : Name) (e : Entry) (o : Option Name) (a : Entry) → with_level t e o ≡ fine a → IsClean t a
with_level-IsClean t e none a h = cc
with_level-IsClean t e (some l) a h = with_rank-IsClean t l e (level_rank t l) a refl h

-- What passes the check is clean.
check_entry-IsClean : (t : Name) (e a : Entry) → check_entry t e ≡ fine a → IsClean t a
unfolding check_entry
check_entry-IsClean t e a h = with_level-IsClean t e e.permission_level a h

and_entries-IsClean :
    (t : Name) (e : Entry) (x : ApiResult Entry) (xs : ApiResult Acl) (out : Acl)
    → check_entry t e ≡ x
    → ((es : Acl) → xs ≡ fine es → All (IsClean t) es)
    → and_entries x xs ≡ fine out
    → All (IsClean t) out
and_entries-IsClean t e (refused b) xs out same rest h = cc
and_entries-IsClean t e (fine a) (refused b) out same rest h = cc
and_entries-IsClean t e (fine a) (fine es) out same rest h =
    subst (All (IsClean t)) (fine-injective _ _ h) (check_entry-IsClean t e a same, rest es refl)

check_entries-IsClean :
    (t : Name) (es out : Acl) → check_entries t es ≡ fine out → All (IsClean t) out
unfolding check_entries
check_entries-IsClean t [] out h = subst (All (IsClean t)) (fine-injective [] out h) tt
check_entries-IsClean t (e ∷ es) out h =
    and_entries-IsClean t e (check_entry t e) (check_entries t es) out refl
      (check_entries-IsClean t es) h

pub doc_same : (s : Store) (id : Name) (acl : Acl) → lookup id (insert id acl s) ≡ some acl
doc_same s id acl = ground (arith, name_eq.same_iff id id, lookup-insert id id acl s)

module _ (s : Store) (t id : Name) where
  stored-IsClean :
      (acl : ApiResult Acl)
      → All (IsClean t) (get_permissions s t id)
      → ((out : Acl) → acl ≡ fine out → All (IsClean t) out)
      → All (IsClean t) (get_permissions (stored s (doc_id t id) acl).0 t id)
  unfolding get_permissions
  stored-IsClean (refused e) h g = h
  stored-IsClean (fine out) h g = rw (doc_same s (doc_id t id) out) (g out refl)

  -- A list whose entries have a level of the type and one name keeps to it, whatever an update or a
  -- replacement asks for.
  pub update_permissions-IsClean :
      (acl : Option Acl)
      → All (IsClean t) (get_permissions s t id)
      → All (IsClean t) (get_permissions (update_permissions s t id acl).0 t id)
  unfolding update_permissions set_permissions
  update_permissions-IsClean acl h =
      stored-IsClean (check_entries t (put_entries (get_permissions s t id) (acl_or_empty acl))) h
        λ out same. check_entries-IsClean t _ out same
