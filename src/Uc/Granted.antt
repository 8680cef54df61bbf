-- ===== src/Uc/Granted.antt =====
-- What a principal holds after a change of grants
-- (crates/lakeforge-api/src/uc/privileges.rs, `change_grants`).
use lakeforge.Prelude.{
  ◌≡◌, refl, sym, ◌∙◌, Bool, true, false, not, ◌&&◌, List, [], ◌∷◌, ◌++◌, any, all, keep, ◌==◌, inl,
  inr, Bool-cases, arith,
}
use mathlib.Core.Path.{subst}
use lakeforge.Uc.Names.{
  Name, codes, name_eq, name_beq_iff, eq_ignore_ascii_case, normalize_privilege,
}
use lakeforge.Uc.Securable.{Securable, fine, fine-injective, ApiResult-cases, is_known_privilege}
use lakeforge.Uc.Authorizer.{Assignment, Catalog, grants_for, is_empty}
use lakeforge.Uc.Grants.{
  assignments_json, with_principal, add_privileges, remove_privileges, change_first, change_grants,
}
use lakeforge.Uc.Changes.{eq_ignore_self, change_grants-same}

-- Some assignment to the principal has the privilege.
abbrev pub holds : Name → Name → List Assignment → Bool
holds who p = any (λ a. eq_ignore_ascii_case a.principal who && any (λ x. x == p) a.privileges)

-- The privilege is among those to add, and not among those to drop.
abbrev pub is_added : Name → List Name → Bool
is_added p = any (λ a. normalize_privilege a == p)

abbrev pub is_spared : Name → List Name → Bool
is_spared p =
    all (λ a.
      not (normalize_privilege a == p) && not (normalize_privilege a == codes "ALL_PRIVILEGES"))

name_self : (p : Name) → (p == p) ≡ true
name_self p = (name_beq_iff p p).1 refl

any-last : (p : Name) (xs : List Name) → any (λ x. x == p) (xs ++ p ∷ []) ≡ true
any-last p [] = rw (name_self p) refl
any-last p (x ∷ xs) = ground (arith, any-last p xs)

any-front :
    (p q : Name) (xs : List Name)
    → any (λ x. x == p) xs ≡ true
    → any (λ x. x == p) (xs ++ q ∷ []) ≡ true
any-front p q [] h = cc
any-front p q (x ∷ xs) h = elim (Bool-cases (x == p)) [
  | inl here ↦ rw here refl
  | inr other ↦ rw other (any-front p q xs (rw other at h))
]

-- What is held stays while privileges are added.
add_privileges-keeps :
    (p : Name) (add have out : List Name)
    → any (λ x. x == p) have ≡ true
    → add_privileges add have ≡ fine out
    → any (λ x. x == p) out ≡ true
unfolding add_privileges
add_privileges-keeps p [] have out h done =
    subst (λ o. any (λ x. x == p) o ≡ true) (fine-injective have out done) h
add_privileges-keeps p (a ∷ r) have out h done =
    let q = normalize_privilege a in
    elim (Bool-cases (is_known_privilege q)) [
      | inr strange ↦ cc (rw strange at done)
      | inl known ↦ elim (Bool-cases (any (λ x. x == q) have)) [
        | inl there ↦ add_privileges-keeps p r have out h (rw (known, there) at done)
        | inr new ↦
            add_privileges-keeps p r (have ++ q ∷ []) out (any-front p q have h)
              (rw (known, new) at done)
      ]
    ]

add_privileges-any :
    (p : Name) (add have out : List Name)
    → is_added p add ≡ true
    → add_privileges add have ≡ fine out
    → any (λ x. x == p) out ≡ true
unfolding add_privileges
add_privileges-any p [] have out h done = cc
add_privileges-any p (a ∷ r) have out h done =
    let q = normalize_privilege a in
    elim (Bool-cases (is_known_privilege q)) [
      | inr strange ↦ cc (rw strange at done)
      | inl known ↦ elim (Bool-cases (q == p)) [
        | inr other ↦ elim (Bool-cases (any (λ x. x == q) have)) [
          | inl there ↦ add_privileges-any p r have out (rw other at h) (rw (known, there) at done)
          | inr new ↦
              add_privileges-any p r (have ++ q ∷ []) out (rw other at h) (rw (known, new) at done)
        ]
        | inl same ↦
            let path : q ≡ p = (name_beq_iff q p).0 same in
            elim (Bool-cases (any (λ x. x == q) have)) [
              | inl there ↦
                  add_privileges-keeps p r have out
                    (subst (λ z. any (λ x. x == z) have ≡ true) path there)
                    (rw (known, there) at done)
              | inr new ↦
                  add_privileges-keeps p r (have ++ q ∷ []) out
                    (subst (λ z. any (λ x. x == z) (have ++ q ∷ []) ≡ true) path (any-last q have))
                    (rw (known, new) at done)
            ]
      ]
    ]

any-keep :
    (p q : Name) (xs : List Name)
    → (q == p) ≡ false
    → any (λ x. x == p) xs ≡ true
    → any (λ x. x == p) (keep (λ x. not (x == q)) xs) ≡ true
any-keep p q [] differs h = cc
any-keep p q (x ∷ xs) differs h = elim (Bool-cases (x == q)) [
  | inr other ↦ elim (Bool-cases (x == p)) [
    | inl here ↦ rw (other, here) refl
    | inr there ↦ rw (other, there) (any-keep p q xs differs (rw there at h))
  ]
  | inl same ↦
      let path : x ≡ q = (name_beq_iff x q).0 same in
      let there : (x == p) ≡ false = subst (λ z. (z == p) ≡ false) (sym path) differs in
      rw same (any-keep p q xs differs (rw there at h))
]

remove_privileges-any :
    (p : Name) (drop have : List Name)
    → is_spared p drop ≡ true
    → any (λ x. x == p) have ≡ true
    → any (λ x. x == p) (remove_privileges drop have) ≡ true
unfolding remove_privileges
remove_privileges-any p [] have spared h = h
remove_privileges-any p (a ∷ r) have spared h =
    let q = normalize_privilege a in
    elim (Bool-cases (q == codes "ALL_PRIVILEGES")) [
      | inl every ↦ elim (Bool-cases (q == p)) [
        | inl same ↦ cc (rw (every, same) at spared)
        | inr other ↦ cc (rw (every, other) at spared)
      ]
      | inr one ↦ elim (Bool-cases (q == p)) [
        | inl same ↦ cc (rw (one, same) at spared)
        | inr other ↦ rw one (
            remove_privileges-any p r (keep (λ x. not (x == q)) have) (rw (one, other) at spared)
              (any-keep p q have other h))
      ]
    ]

with_principal-any :
    (who : Name) (l : List Assignment)
    → any (λ a. eq_ignore_ascii_case a.principal who) (with_principal who l) ≡ true
with_principal-any who l = elim (Bool-cases (any (λ a. eq_ignore_ascii_case a.principal who) l)) [
  | inl there ↦ rw there there
  | inr new ↦ rw new (at_end l)
]
  where
    at_end :
        (l : List Assignment)
        → any
            (λ a. eq_ignore_ascii_case a.principal who)
            (l ++ record { principal = who; privileges = [] } ∷ [])
          ≡ true
    at_end [] = rw (eq_ignore_self who) refl
    at_end (a ∷ l) = ground (arith, at_end l)

change_first-holds :
    (who p : Name) (add drop : List Name) (l out : List Assignment)
    → is_added p add ≡ true
    → is_spared p drop ≡ true
    → any (λ a. eq_ignore_ascii_case a.principal who) l ≡ true
    → change_first who add drop l ≡ fine out
    → holds who p out ≡ true
unfolding change_first
change_first-holds who p add drop [] out added spared there done = cc
change_first-holds who p add drop (a ∷ r) out added spared there done =
    elim (Bool-cases (eq_ignore_ascii_case a.principal who)) [
      | inl mine ↦ elim (ApiResult-cases (add_privileges add a.privileges)) [
        | inr (e, failed) ↦ cc (rw (mine, failed) at done)
        | inl (have, given) ↦
            let has =
              remove_privileges-any p drop have spared
                (add_privileges-any p add a.privileges have added given) in
            subst (λ o. holds who p o ≡ true)
              (fine-injective (record a { privileges = remove_privileges drop have } ∷ r) out
                (rw (mine, given) at done))
              (rw (mine, has) refl)
      ]
      | inr other ↦ elim (ApiResult-cases (change_first who add drop r)) [
        | inr (e, failed) ↦ cc (rw (other, failed) at done)
        | inl (rest, changed) ↦
            subst (λ o. holds who p o ≡ true)
              (fine-injective (a ∷ rest) out (rw (other, changed) at done))
              (rw other
                (change_first-holds who p add drop r rest added spared (rw other at there) changed))
      ]
    ]

-- An assignment with a privilege is not left out.
assignments_json-holds :
    (who p : Name) (l : List Assignment)
    → holds who p l ≡ true
    → holds who p (assignments_json l) ≡ true
assignments_json-holds who p [] h = cc
assignments_json-holds who p (a ∷ l) h = elim (Bool-cases (is_empty a.privileges)) [
  | inr full ↦
      elim (Bool-cases (eq_ignore_ascii_case a.principal who && any (λ x. x == p) a.privileges)) [
        | inl has ↦ rw (full, has) refl
        | inr lacks ↦ rw (full, lacks) (assignments_json-holds who p l (rw lacks at h))
      ]
  | inl empty ↦
      let nothing : any (λ x. x == p) a.privileges ≡ false = none_in a.privileges empty in
      elim (Bool-cases (eq_ignore_ascii_case a.principal who)) [
        | inl mine ↦ rw empty (assignments_json-holds who p l (rw (mine, nothing) at h))
        | inr other ↦ rw empty (assignments_json-holds who p l (rw other at h))
      ]
]
  where
    none_in : (ps : List Name) → is_empty ps ≡ true → any (λ x. x == p) ps ≡ false
    none_in [] e = refl
    none_in (x ∷ xs) e = cc

-- After a change of grants that succeeds, the principal holds every privilege that was to be added,
-- unless it or ALL PRIVILEGES was to be dropped as well.
pub change_grants-holds :
    (c : Catalog) (sec : Securable) (n who p : Name) (add drop : List Name) (l : List Assignment)
    → (change_grants c sec n who add drop).1 ≡ fine l
    → is_added p add ≡ true
    → is_spared p drop ≡ true
    → holds who p (grants_for (change_grants c sec n who add drop).0 sec n) ≡ true
unfolding change_grants
change_grants-holds c sec n who p add drop l done added spared =
    let start = with_principal who (grants_for c sec n) in
    elim (ApiResult-cases (change_first who add drop start)) [
      | inr (x, e) ↦ cc (rw (e, change_grants) at done)
      | inl (changed, e) ↦
          let same : assignments_json changed ≡ l =
            fine-injective (assignments_json changed) l (rw (e, change_grants) at done) in
          subst (λ o. holds who p o ≡ true)
            (same ∙ sym (change_grants-same c sec n who add drop l done))
            (assignments_json-holds who p changed (
              change_first-holds who p add drop start changed added spared
                (with_principal-any who (grants_for c sec n)) e))
    ]
