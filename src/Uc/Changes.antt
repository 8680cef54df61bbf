-- ===== src/Uc/Changes.antt =====
-- What a change of grants leaves (crates/lakeforge-api/src/uc/privileges.rs, `change_grants`).
use lakeforge.Prelude.{
  ◌≡◌, refl, ◌∙◌, ap, Bool, true, not, Option, none, some, List, [], ◌∷◌, ◌++◌, map, any, keep, All,
  All-append, ◌==◌, inl, inr, Bool-cases,
}
use mathlib.Core.Path.{ap₂, subst}
use lakeforge.Prelude.Assoc.{lookup, lookup-remove, lookup-insert}
use lakeforge.Uc.Names.{
  Name, name_eq, name_beq_iff, eq_ignore_ascii_case, normalize_privilege, codes, ascii_lower,
}
use lakeforge.Uc.Normal.{normalize_privilege_twice}
use lakeforge.Uc.Securable.{
  Securable, fine, fine-injective, ApiResult-cases, grants_doc_id, is_known_privilege,
}
use lakeforge.Uc.Authorizer.{
  Assignment, Catalog, parse_assignments, doc_or_empty, grants_for, is_empty,
}
use lakeforge.Uc.Grants.{
  assignments_json, with_principal, add_privileges, remove_privileges, change_first, set_doc,
  change_grants,
}

-- All privileges are in normal form.
IsNormal : Name → Type 0
IsNormal x = normalize_privilege x ≡ x

HasNormal : Assignment → Type 0
HasNormal a = All IsNormal a.privileges

map-IsNormal : (xs : List Name) → All IsNormal (map normalize_privilege xs)
unfolding IsNormal
map-IsNormal [] = tt
map-IsNormal (x ∷ xs) = (normalize_privilege_twice x, map-IsNormal xs)

parse_assignments-HasNormal : (l : List Assignment) → All HasNormal (parse_assignments l)
unfolding HasNormal
parse_assignments-HasNormal [] = tt
parse_assignments-HasNormal (a ∷ l) = (map-IsNormal a.privileges, parse_assignments-HasNormal l)

grants_for-HasNormal :
    (c : Catalog) (sec : Securable) (n : Name) → All HasNormal (grants_for c sec n)
unfolding grants_for
grants_for-HasNormal c sec n = stored (lookup (grants_doc_id sec n) c.grant_docs)
  where
    stored : (o : Option (List Assignment)) → All HasNormal (doc_or_empty o)
    stored none = tt
    stored (some d) = parse_assignments-HasNormal d

normal_map : (xs : List Name) → All IsNormal xs → map normalize_privilege xs ≡ xs
unfolding IsNormal
normal_map [] h = refl
normal_map (x ∷ xs) h = ap₂ ◌∷◌ h.0 (normal_map xs h.1)

-- Reading assignments in normal form changes nothing.
parse_assignments-same : (l : List Assignment) → All HasNormal l → parse_assignments l ≡ l
unfolding HasNormal
parse_assignments-same [] h = refl
parse_assignments-same (a ∷ l) h =
    ap₂ ◌∷◌ (ap (λ ps. record a { privileges = ps }) (normal_map a.privileges h.0))
      (parse_assignments-same l h.1)

keep-All {ℓ} :
    {A : Type ℓ} (P : A → Type 0) (f : A → Bool) (xs : List A) → All P xs → All P (keep f xs)
keep-All P f [] h = tt
keep-All P f (x ∷ xs) h = elim (Bool-cases (f x)) [
  | inl kept ↦ rw kept (h.0, keep-All P f xs h.1)
  | inr dropped ↦ rw dropped (keep-All P f xs h.1)
]

with_principal-HasNormal :
    (who : Name) (l : List Assignment) → All HasNormal l → All HasNormal (with_principal who l)
unfolding HasNormal
with_principal-HasNormal who l h =
    elim (Bool-cases (any (λ a. eq_ignore_ascii_case a.principal who) l)) [
      | inl there ↦ rw there h
      | inr new ↦ rw new (All-append HasNormal l _ h (tt, tt))
    ]

add_privileges-IsNormal :
    (add have out : List Name)
    → All IsNormal have
    → add_privileges add have ≡ fine out
    → All IsNormal out
unfolding add_privileges IsNormal
add_privileges-IsNormal [] have out h same = subst (All IsNormal) (fine-injective have out same) h
add_privileges-IsNormal (a ∷ r) have out h same =
    let p = normalize_privilege a in
    elim (Bool-cases (is_known_privilege p)) [
      | inr strange ↦ cc (rw strange at same)
      | inl known ↦ elim (Bool-cases (any (λ x. x == p) have)) [
        | inl there ↦ add_privileges-IsNormal r have out h (rw (known, there) at same)
        | inr new ↦
            add_privileges-IsNormal r (have ++ p ∷ []) out
              (All-append IsNormal have (p ∷ []) h (normalize_privilege_twice a, tt))
              (rw (known, new) at same)
      ]
    ]

remove_privileges-IsNormal :
    (drop have : List Name) → All IsNormal have → All IsNormal (remove_privileges drop have)
unfolding remove_privileges
remove_privileges-IsNormal [] have h = h
remove_privileges-IsNormal (a ∷ r) have h =
    let p = normalize_privilege a in
    elim (Bool-cases (p == codes "ALL_PRIVILEGES")) [
      | inl every ↦ rw every (remove_privileges-IsNormal r [] tt)
      | inr one ↦
          rw one (remove_privileges-IsNormal r _ (keep-All IsNormal (λ x. not (x == p)) have h))
    ]

set_doc-here :
    (c : Catalog) (sec : Securable) (n : Name) (l : List Assignment)
    → grants_for (set_doc c (grants_doc_id sec n) l) sec n ≡ parse_assignments l
unfolding grants_for
set_doc-here c sec n [] =
    rw (lookup-remove (grants_doc_id sec n) (grants_doc_id sec n) c.grant_docs)
      (rw ((name_beq_iff (grants_doc_id sec n) (grants_doc_id sec n)).1 refl) refl)
set_doc-here c sec n (a ∷ r) =
    rw (lookup-insert (grants_doc_id sec n) (grants_doc_id sec n) (a ∷ r) c.grant_docs)
      (rw ((name_beq_iff (grants_doc_id sec n) (grants_doc_id sec n)).1 refl) refl)

-- The assignments to other principals.
abbrev pub others : Name → List Assignment → List Assignment
others who = keep (λ a. not (eq_ignore_ascii_case a.principal who))

record Changed (who : Name) (before after : List Assignment) : Type 0 where
  normal : All HasNormal before → All HasNormal after
  same_others : others who after ≡ others who before

change_first-Changed :
    (who : Name) (add drop : List Name) (l out : List Assignment)
    → change_first who add drop l ≡ fine out
    → Changed who l out
unfolding change_first HasNormal
change_first-Changed who add drop [] out h =
    subst (Changed who []) (fine-injective [] out h)
      (record { normal = λ n. n; same_others = refl })
change_first-Changed who add drop (a ∷ r) out h =
    elim (Bool-cases (eq_ignore_ascii_case a.principal who)) [
      | inl mine ↦ elim (ApiResult-cases (add_privileges add a.privileges)) [
        | inr (e, failed) ↦ cc (rw (mine, failed) at h)
        | inl (have, added) ↦
            subst (Changed who (a ∷ r)) (fine-injective _ out (rw (mine, added) at h)) (record {
              normal = λ n. (
                remove_privileges-IsNormal drop have
                    (add_privileges-IsNormal add a.privileges have n.0 added),
                n.1,
              );
              same_others = rw mine refl;
            })
      ]
      | inr other ↦ elim (ApiResult-cases (change_first who add drop r)) [
        | inr (e, failed) ↦ cc (rw (other, failed) at h)
        | inl (rest, done) ↦
            let step = change_first-Changed who add drop r rest done in
            subst (Changed who (a ∷ r)) (fine-injective (a ∷ rest) out (rw (other, done) at h))
              (record {
                normal = λ n. (n.0, step.normal n.1);
                same_others = rw other (ap (λ x. a ∷ x) step.same_others);
              })
      ]
    ]

pub eq_ignore_self : (who : Name) → eq_ignore_ascii_case who who ≡ true
eq_ignore_self who = (name_beq_iff (map ascii_lower who) (map ascii_lower who)).1 refl

pub change_grants-same :
    (c : Catalog) (sec : Securable) (n who : Name) (add drop : List Name) (l : List Assignment)
    → (change_grants c sec n who add drop).1 ≡ fine l
    → grants_for (change_grants c sec n who add drop).0 sec n ≡ l
unfolding change_grants
change_grants-same c sec n who add drop l done =
    let start = with_principal who (grants_for c sec n) in
    elim (ApiResult-cases (change_first who add drop start)) [
      | inl (changed, e) ↦
          let stored = assignments_json changed in
          let same : stored ≡ l = fine-injective stored l (rw (e, change_grants) at done) in
          let normal : All HasNormal stored =
            keep-All HasNormal (λ a. not (is_empty a.privileges)) changed
              ((change_first-Changed who add drop start changed e).normal (
                with_principal-HasNormal who (grants_for c sec n)
                  (grants_for-HasNormal c sec n))) in
          rw (change_grants, e)
            (set_doc-here c sec n stored ∙ parse_assignments-same stored normal ∙ same)
      | inr (x, e) ↦ cc (rw (e, change_grants) at done)
    ]
