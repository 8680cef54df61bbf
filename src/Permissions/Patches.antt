-- ===== src/Permissions/Patches.antt =====
-- What a patch by one who may manage the object grants (crates/lakeforge-api/src/api/permissions.rs).
use lakeforge.Prelude.{
  ◌≡◌, refl, ◌∙◌, ap, ℕ, leb, Bool, true, false, not, ◌&&◌, ◌||◌, Option, some, [], ◌∷◌, ◌++◌, any,
  keep, All, inl, inr, Bool-cases, arith,
}
use lakeforge.Uc.Names.{Name, name_eq}
use lakeforge.Uc.Securable.{is_fine, ApiResult, fine, refused}
use lakeforge.Uc.Authorizer.{Principal, is_empty}
use lakeforge.Permissions.{
  Entry, Key, Acl, Store, level_rank, top_level, doc_id, get_permissions, entry_of, principal_of,
  with_principal, with_rank, with_level, check_entry, check_entries, set_permissions, is_named,
  put_entries, update_permissions, user, group, service_principal, stored, acl_or_empty, put_for,
}
use lakeforge.Permissions.Levels.{is_name, matches, check_permission, patch_perms, guarded}
use lakeforge.Permissions.Checks.{gives_level, gives_needed, check_permission_lem}
use lakeforge.Permissions.Updates.{IsClean, check_entry-clean, doc_same}

keep-All :
    (t : Name) (f : Entry → Bool) (acl : Acl) → All (IsClean t) acl → All (IsClean t) (keep f acl)
keep-All t f [] h = tt
keep-All t f (e ∷ es) (clean, h) = elim (Bool-cases (f e)) [
  | inl kept ↦ rw kept (clean, keep-All t f es h)
  | inr dropped ↦ rw dropped (keep-All t f es h)
]

check_entries-append :
    (t : Name) (acl : Acl) (e a : Entry)
    → All (IsClean t) acl
    → check_entry t e ≡ fine a
    → check_entries t (acl ++ e ∷ []) ≡ fine (acl ++ a ∷ [])
unfolding check_entries
check_entries-append t [] e a h same = rw same refl
check_entries-append t (b ∷ acl) e a (clean, h) same =
    rw (check_entry-clean t b clean, check_entries-append t acl e a h same) refl

any-append : (f : Entry → Bool) (acl : Acl) (a : Entry) → any f (acl ++ a ∷ []) ≡ (any f acl || f a)
any-append f [] a = ground arith
any-append f (b ∷ acl) a = ground (arith, any-append f acl a)

is_empty-append : (acl : Acl) (a : Entry) → is_empty (acl ++ a ∷ []) ≡ false
is_empty-append [] a = refl
is_empty-append (b ∷ acl) a = refl

guarded_fine :
    (s : Store) (t id : Name) (r : ApiResult (Unit {0})) (u : Store × ApiResult Acl)
    → is_fine r ≡ true
    → (guarded s t id r u).0 ≡ u.0
guarded_fine s t id (refused e) u h = cc
guarded_fine s t id (fine a) (s', refused e) h = refl
guarded_fine s t id (fine a) (s', fine acl) h = refl

module _ (t l : Name) (r : ℕ) (k : Key × Name) (known : level_rank t l ≡ some r) where
  check_entry-known :
      (e : Entry)
      → principal_of e ≡ some k
      → e.permission_level ≡ some l
      → check_entry t e ≡ fine (entry_of k l)
  unfolding check_entry
  check_entry-known e named level =
      ap (with_level t e) level ∙ ap (with_rank t e l) known ∙ ap (with_principal l) named

  gives_level-entry_of :
      (q : Principal) (n : ℕ)
      → gives_level t q n (entry_of k l) ≡ (matches q (entry_of k l) && leb n r)
  gives_level-entry_of q n = at_level k
    where
      at_level :
          (j : Key × Name)
          → gives_level t q n (entry_of j l) ≡ (matches q (entry_of j l) && leb n r)
      at_level (user, v) = rw known refl
      at_level (group, v) = rw known refl
      at_level (service_principal, v) = rw known refl

module _ (s : Store) (p : Principal) (t id l : Name) (owner : Option Name) (e : Entry)
    (k : Key × Name) (r : ℕ) (clean : All (IsClean t) (get_permissions s t id))
    (allowed : is_fine (check_permission s p t id (top_level t) owner) ≡ true)
    (named : principal_of e ≡ some k) (level : e.permission_level ≡ some l)
    (known : level_rank t l ≡ some r) where
  -- The list after a patch with one entry.
  patched :
      get_permissions (patch_perms s p t id owner (some (e ∷ []))).0 t id
      ≡ keep (λ c. not (is_named k.0 k.1 c)) (get_permissions s t id) ++ entry_of k l ∷ []
  unfolding patch_perms update_permissions set_permissions put_entries get_permissions
  patched =
      let others = keep (λ c. not (is_named k.0 k.1 c)) (get_permissions s t id) in
      let written : put_entries (get_permissions s t id) (e ∷ []) ≡ others ++ e ∷ [] =
        ap (put_for (get_permissions s t id) e) named in
      let checked : check_entries t (others ++ e ∷ []) ≡ fine (others ++ entry_of k l ∷ []) =
        check_entries-append t others e (entry_of k l) (keep-All t _ _ clean)
          (check_entry-known t l r k known e named level) in
      ap (λ u. get_permissions u t id) (guarded_fine s t id _ _ allowed)
      ∙ ap (λ acl. get_permissions (stored s (doc_id t id) (check_entries t acl)).0 t id) written
      ∙ ap (λ out. get_permissions (stored s (doc_id t id) out).0 t id) checked
      ∙ ap acl_or_empty (doc_same s (doc_id t id) (others ++ entry_of k l ∷ []))

  -- After one who may manage the object patches its list, whose entries are clean, with one entry
  -- that gives a principal a level of the type, a check of a level of the type passes exactly for
  -- admins, for the owner, for those to whom an entry under another name gives it, and for those
  -- that the new entry matches, if its level ranks as high.
  pub patch_perms_lem :
      (q : Principal) (need : Name) (o : Option Name) (n : ℕ)
      → level_rank t need ≡ some n
      → is_fine (check_permission (patch_perms s p t id owner (some (e ∷ []))).0 q t id need o) ≡ (
          q.is_admin
          || (is_name q.user_name o
              || (any
                    (gives_level t q n)
                    (keep (λ c. not (is_named k.0 k.1 c)) (get_permissions s t id))
                  || (matches q (entry_of k l) && leb n r))))
  patch_perms_lem q need o n needed =
      let others = keep (λ c. not (is_named k.0 k.1 c)) (get_permissions s t id) in
      check_permission_lem _ q t id need o
      ∙ ap
          (λ acl.
            q.is_admin
            || (is_name q.user_name o
                || (is_empty acl || gives_needed t q acl (level_rank t need))))
          patched
      ∙ ap
          (λ b.
            q.is_admin
            || (is_name q.user_name o
                || (b || gives_needed t q (others ++ entry_of k l ∷ []) (level_rank t need))))
          (is_empty-append others (entry_of k l))
      ∙ ap (λ b. q.is_admin || (is_name q.user_name o || b))
          (ap (gives_needed t q (others ++ entry_of k l ∷ [])) needed
            ∙ any-append (gives_level t q n) others (entry_of k l)
            ∙ ap (λ b. any (gives_level t q n) others || b)
                (gives_level-entry_of t l r k known q n))
