-- ===== src/Permissions/Checks.antt =====
-- The check of a level against the list of an object
-- (crates/lakeforge-api/src/api/permissions.rs).
use lakeforge.Prelude.{
  ◌≡◌, refl, ◌∙◌, ℕ, leb, ltb, Bool, true, false, ◌&&◌, ◌||◌, Option, none, some, [], ◌∷◌, any,
  if◌then◌else◌, inl, inr, Bool-cases, Option-cases, arith,
}
use lakeforge.Uc.Names.{Name, name_eq}
use lakeforge.Uc.Securable.{is_fine, fine, refused, is_fine-if, ApiError}
use lakeforge.Uc.Authorizer.{Principal, is_empty}
use lakeforge.Permissions.{Entry, Acl, Store, level_rank, get_permissions, top_level}
use lakeforge.Permissions.Levels.{
  is_name, matches, ranked, ranked_as, better, best_level, effective_level, reaches,
  check_permission, level_of,
}

abbrev pub at_least : ℕ → Option (ℕ × Name) → Bool
at_least n none = false
at_least n (some b) = leb n b.0

-- An entry gives a principal a level of this rank.
abbrev pub gives_level : Name → Principal → ℕ → Entry → Bool
gives_level t p n e = matches p e && at_least n (ranked t e.permission_level)

-- Some entry gives what is needed, which is a level of the type.
abbrev pub gives_needed : Name → Principal → Acl → Option ℕ → Bool
gives_needed t p acl none = false
gives_needed t p acl (some n) = any (gives_level t p n) acl

abbrev IsRanked : Name → Option (ℕ × Name) → Type 0
IsRanked t none = Unit
IsRanked t (some b) = level_rank t b.1 ≡ some b.0

better_lem :
    (n : ℕ) (b r : Option (ℕ × Name)) → at_least n (better b r) ≡ (at_least n b || at_least n r)
better_lem n none none = refl
better_lem n none (some e) = refl
better_lem n (some b) none = ground arith
better_lem n (some b) (some e) = ground arith

better-IsRanked :
    (t : Name) (b r : Option (ℕ × Name)) → IsRanked t b → IsRanked t r → IsRanked t (better b r)
better-IsRanked t none none hb hr = hr
better-IsRanked t none (some e) hb hr = hr
better-IsRanked t (some b) none hb hr = hb
better-IsRanked t (some b) (some e) hb hr = elim (Bool-cases (ltb b.0 e.0)) [
  | inl less ↦ rw less hr
  | inr more ↦ rw more hb
]

ranked_as-IsRanked : (t l : Name) (o : Option ℕ) → level_rank t l ≡ o → IsRanked t (ranked_as l o)
ranked_as-IsRanked t l none known = tt
ranked_as-IsRanked t l (some r) known = known

ranked-IsRanked : (t : Name) (l : Option Name) → IsRanked t (ranked t l)
ranked-IsRanked t none = tt
ranked-IsRanked t (some l) = ranked_as-IsRanked t l (level_rank t l) refl

module _ (t : Name) (p : Principal) where
  best_level-IsRanked :
      (es : Acl) (best : Option (ℕ × Name)) → IsRanked t best → IsRanked t (best_level t p es best)
  unfolding best_level
  best_level-IsRanked [] best h = h
  best_level-IsRanked (e ∷ es) best h = elim (Bool-cases (matches p e)) [
    | inl mine ↦ rw mine (
        best_level-IsRanked es (better best (ranked t e.permission_level))
          (better-IsRanked t best _ h (ranked-IsRanked t e.permission_level)))
    | inr other ↦ rw other (best_level-IsRanked es best h)
  ]

  best_level_lem :
      (n : ℕ) (es : Acl) (best : Option (ℕ × Name))
      → at_least n (best_level t p es best) ≡ (at_least n best || any (gives_level t p n) es)
  unfolding best_level
  best_level_lem n [] best = ground arith
  best_level_lem n (e ∷ es) best = elim (Bool-cases (matches p e)) [
    | inl mine ↦ rw mine (
        best_level_lem n es (better best (ranked t e.permission_level))
        ∙ ground (arith, better_lem n best (ranked t e.permission_level)))
    | inr other ↦ rw other (best_level_lem n es best)
  ]

  reaches_lem :
      (o : Option (ℕ × Name)) (n : ℕ)
      → IsRanked t o
      → reaches t (level_of o) (some n) ≡ at_least n o
  reaches_lem none n h = refl
  reaches_lem (some b) n h = rw h refl

  gives_needed_lem :
      (acl : Acl) (need : Option ℕ)
      → reaches t (level_of (best_level t p acl none)) need ≡ gives_needed t p acl need
  gives_needed_lem acl none = elim (Option-cases (level_of (best_level t p acl none))) [
    | inl nothing ↦ rw nothing refl
    | inr (l, some_level) ↦ rw some_level refl
  ]
  gives_needed_lem acl (some n) =
      reaches_lem (best_level t p acl none) n (best_level-IsRanked acl none tt)
      ∙ best_level_lem n acl none

-- The tests of the check in a row, the last of which asks first whether the principal is an admin.
any_reason :
    (admin owner empty w : Bool) (v : Bool → Bool) (e : ApiError)
    → v false ≡ w
    → is_fine {A = Unit {0}} (
        if admin || owner
        then fine tt
        else if empty
        then fine tt
        else if v admin
        then fine tt
        else refused e)
      ≡ (admin || (owner || (empty || w)))
any_reason true owner empty w v e same = refl
any_reason false true empty w v e same = refl
any_reason false false true w v e same = refl
any_reason false false false w v e same = is_fine-if (v false) e ∙ same

-- A check passes exactly for an admin, for the owner, on an object without a list, and for a
-- principal to whom some entry that matches gives a level of at least the rank of the one needed.
pub check_permission_lem :
    (s : Store) (p : Principal) (t id need : Name) (owner : Option Name)
    → is_fine (check_permission s p t id need owner) ≡ (
        p.is_admin
        || (is_name p.user_name owner
            || (is_empty (get_permissions s t id)
                || gives_needed t p (get_permissions s t id) (level_rank t need))))
unfolding check_permission effective_level
check_permission_lem s p t id need owner =
    let acl = get_permissions s t id in
    any_reason p.is_admin (is_name p.user_name owner) (is_empty acl) _
      (λ admin.
        reaches t (if admin then some (top_level t) else level_of (best_level t p acl none))
          (level_rank t need))
      _ (gives_needed_lem t p acl (level_rank t need))
