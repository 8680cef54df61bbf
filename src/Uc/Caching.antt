-- ===== src/Uc/Caching.antt =====
-- The caches of an authorizer (crates/lakeforge-api/src/uc/privileges.rs) beside the store, and
-- the checks without them.
use lakeforge.Prelude.{
  ◌≡◌, refl, sym, ◌∙◌, Bool, true, false, ◌||◌, Option, List, [], ◌∷◌, any, All, if◌then◌else◌, inl,
  inr, Bool-cases, Option-cases,
}
use mathlib.Core.Path.{ap₂}
use lakeforge.Prelude.Assoc.{lookup, All-lookup, All-insert}
use lakeforge.Uc.Names.{Name, name_eq, normalize_privilege}
use lakeforge.Uc.Securable.{Securable, lineage_of, grants_key, grants_key-injective}
use lakeforge.Uc.Authorizer.{
  Assignment, Principal, Catalog, Caches, grants_for, owner_of, matches_owner, gives, grants, owner,
  finds, has_privilege,
}

-- An entry holds what the store holds for a securable with its key.
abbrev pub GrantEntry : Catalog → Name × List Assignment → Type 0
GrantEntry c e =
    (sec : Securable) × (n : Name) × (e.0 ≡ grants_key sec n) × (e.1 ≡ grants_for c sec n)

abbrev pub OwnerEntry : Catalog → Name × Option Name → Type 0
OwnerEntry c e =
    (sec : Securable) × (n : Name) × (e.0 ≡ grants_key sec n) × (e.1 ≡ owner_of c sec n)

abbrev pub Coherent : Catalog → Caches → Type 0
Coherent c az = All (GrantEntry c) az.grants × All (OwnerEntry c) az.owners

-- The check without caches: along the lineage, an owner or a grant that is looked for.
abbrev pub allowed_on : Catalog → Principal → (Assignment → Bool) → List (Securable × Name) → Bool
allowed_on c p accept = any (λ (e : Securable × Name).
    matches_owner p (owner_of c e.0 e.1) || any accept (grants_for c e.0 e.1))

unfoldable pub permits : Catalog → Principal → Securable → Name → Name → Bool
permits c p sec n privilege =
    p.is_admin || allowed_on c p (gives p (normalize_privilege privilege)) (lineage_of sec n)

module _ (c : Catalog) where
  grants_for-key :
      (a b : Securable) (m n : Name)
      → grants_key a m ≡ grants_key b n
      → grants_for c a m ≡ grants_for c b n
  grants_for-key a b m n same =
      let (sec, name) = grants_key-injective a b m n same in ap₂ (grants_for c) sec name

  owner_of-key :
      (a b : Securable) (m n : Name)
      → grants_key a m ≡ grants_key b n
      → owner_of c a m ≡ owner_of c b n
  owner_of-key a b m n same =
      let (sec, name) = grants_key-injective a b m n same in ap₂ (owner_of c) sec name

module _ (c : Catalog) (p : Principal) where
  grants_lem :
      (az : Caches) (sec : Securable) (n : Name)
      → Coherent c az
      → ((grants c p az sec n).1 ≡ grants_for c sec n) × Coherent c (grants c p az sec n).0
  unfolding grants
  grants_lem az sec n h = elim (Option-cases (lookup (grants_key sec n) az.grants)) [
    | inl fresh ↦
        rw (grants, fresh)
          (
            refl,
            (
              All-insert (GrantEntry c) (grants_key sec n) (grants_for c sec n) az.grants
                  (sec, n, refl, refl) h.0,
              h.1,
            ),
          )
    | inr (g, cached) ↦
        let (s, m, key, value) =
          All-lookup (GrantEntry c) (grants_key sec n) az.grants cached h.0 in
        rw (grants, cached) (value ∙ sym (grants_for-key c sec s n m key), h)
  ]

  pub owner_lem :
      (az : Caches) (sec : Securable) (n : Name)
      → Coherent c az
      → ((owner c p az sec n).1 ≡ owner_of c sec n) × Coherent c (owner c p az sec n).0
  unfolding owner
  owner_lem az sec n h = elim (Option-cases (lookup (grants_key sec n) az.owners)) [
    | inl fresh ↦
        rw (owner, fresh)
          (
            refl,
            (
              h.0,
              All-insert (OwnerEntry c) (grants_key sec n) (owner_of c sec n) az.owners
                  (sec, n, refl, refl) h.1,
            ),
          )
    | inr (o, cached) ↦
        let (s, m, key, value) =
          All-lookup (OwnerEntry c) (grants_key sec n) az.owners cached h.1 in
        rw (owner, cached) (value ∙ sym (owner_of-key c sec s n m key), h)
  ]

  finds_lem :
      (accept : Assignment → Bool) (az : Caches) (l : List (Securable × Name))
      → Coherent c az
      → ((finds c p accept az l).1 ≡ allowed_on c p accept l) × Coherent c (finds c p accept az l).0
  unfolding finds
  finds_lem accept az [] h = (refl, h)
  finds_lem accept az ((s, n) ∷ l) h =
      let (o_same, o_fine) = owner_lem az s n h in
      let az' = (owner c p az s n).0 in
      let (g_same, g_fine) = grants_lem az' s n o_fine in
      let az'' = (grants c p az' s n).0 in
      elim (Bool-cases (matches_owner p (owner_of c s n))) [
        | inl owns ↦ rw (finds, o_same, owns) (refl, o_fine)
        | inr other ↦ elim (Bool-cases (any accept (grants_for c s n))) [
          | inl found ↦ rw (finds, o_same, other, g_same, found) (refl, g_fine)
          | inr nothing ↦
              rw (finds, o_same, other, g_same, nothing) (finds_lem accept az'' l g_fine)
        ]
      ]

  -- The shortcut for admins.
  pub or_admin :
      (b v : Bool) (az : Caches) (r : Caches × Bool)
      → Coherent c az
      → (r.1 ≡ v) × Coherent c r.0
      → ((if b then (az, true) else r).1 ≡ (b || v)) × Coherent c (if b then (az, true) else r).0
  or_admin true v az r h rest = (refl, h)
  or_admin false v az r h rest = rest

  -- With caches that agree with the store, a check answers what it would without them, and leaves
  -- caches that agree.
  pub has_privilege-permits :
      (az : Caches) (sec : Securable) (n privilege : Name)
      → Coherent c az
      → ((has_privilege c p az sec n privilege).1 ≡ permits c p sec n privilege)
        × Coherent c (has_privilege c p az sec n privilege).0
  unfolding has_privilege permits
  has_privilege-permits az sec n privilege h =
      or_admin p.is_admin _ az _ h
        (finds_lem (gives p (normalize_privilege privilege)) az (lineage_of sec n) h)
