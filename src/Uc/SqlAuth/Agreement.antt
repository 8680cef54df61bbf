-- ===== src/Uc/SqlAuth/Agreement.antt =====
-- A check of an authorizer answers what the rights of Uc/SqlAuth/Spec say, and leaves caches that
-- agree with the store (crates/lakeforge-api/src/uc/sqlauth.rs, privileges.rs).
use lakeforge.Prelude.{
  ◌≡◌, refl, ◌∙◌, ap, Bool, true, false, ◌&&◌, ◌||◌, List, [], ◌∷◌, any, if◌then◌else◌, inl, inr,
  Bool-cases, ◌++◌, not,
}
use mathlib.Core.Path.{subst}
use lakeforge.Uc.Names.{Name, codes, split_name}
use lakeforge.Uc.Securable.{
  Securable, catalog, schema, fine, refused, lineage_of, is_fine, is_fine-if,
}
use lakeforge.Uc.Authorizer.{
  Principal, Catalog, Caches, owner_of, matches_owner, owner, owns_some, is_owner, can_manage,
  require, require_owner, require_use_path, require_on_object, require_parts, require_use_schema,
}
use lakeforge.Uc.Caching.{Coherent, permits, or_admin, owner_lem, has_privilege-permits}
use lakeforge.Uc.SqlAuth.Checks.{Check, Checked, continue, ◌>>=◌, pure}
use lakeforge.Uc.SqlAuth.Spec.{owns, manages, uses_path, uses_parts, uses_schema, may}

-- The check answers as the right says, and its caches agree with the store.
abbrev pub Agrees {ℓ} : {A : Type ℓ} → Catalog → Bool → Checked A → Type 0
Agrees c right r = (is_fine r.1 ≡ right) × Coherent c r.0

-- It does so for all caches that agree with the store.
abbrev pub Follows {ℓ} : {A : Type ℓ} → Catalog → Bool → Check A → Type 0
Follows c right m = (az : Caches) → Coherent c az → Agrees c right (m az)

&&-true : (b : Bool) → (b && true) ≡ b
&&-true true = refl
&&-true false = refl

abbrev or_else : (Caches → Caches × Bool) → Caches × Bool → Caches × Bool
or_else f (az, true) = (az, true)
or_else f (az, false) = f az

module _ (c : Catalog) where
  -- Two checks in a row need both rights.
  Agrees-continue :
      {A B : Type 0} (v w : Bool) (f : A → Check B) (r : Checked A)
      → Agrees c v r
      → ((a : A) → Follows c w (f a))
      → Agrees c (v && w) (continue f r)
  unfolding continue
  Agrees-continue v w f (az, fine a) (same, h) k =
      let (right, after) = k a az h in (right ∙ ap (λ b. b && w) same, after)
  Agrees-continue v w f (az, refused e) (same, h) k = (ap (λ b. b && w) same, h)

  pub Follows-bind :
      {A B : Type 0} (v w : Bool) (m : Check A) (f : A → Check B)
      → Follows c v m
      → ((a : A) → Follows c w (f a))
      → Follows c (v && w) (m >>= f)
  Follows-bind v w m f h k az coherent = Agrees-continue v w f (m az) (h az coherent) k

  -- A last step that needs no right.
  pub Follows-then :
      {A B : Type 0} (v : Bool) (m : Check A) (f : A → Check B)
      → Follows c v m
      → ((a : A) → Follows c true (f a))
      → Follows c v (m >>= f)
  Follows-then v m f h k =
      subst (λ b. Follows c b (m >>= f)) (&&-true v) (Follows-bind v true m f h k)

  pub Follows-pure : {A : Type 0} (a : A) → Follows c true (pure a)
  Follows-pure a az h = (refl, h)

  module _ {A : Type 0} (b v : Bool) (r s : Check A) where
    pub Follows-if :
        (w : Bool)
        → Follows c v r
        → Follows c w s
        → Follows c (if b then v else w) (if b then r else s)
    Follows-if w hr hs = elim b as (λ b. Follows c (if b then v else w) (if b then r else s)) [
      | true ↦ hr
      | false ↦ hs
    ]

    pub Follows-and : Follows c v r → Follows c false s → Follows c (b && v) (if b then r else s)
    Follows-and hr hs = elim b as (λ b. Follows c (b && v) (if b then r else s)) [
      | true ↦ hr
      | false ↦ hs
    ]

    pub Follows-or : Follows c true r → Follows c v s → Follows c (b || v) (if b then r else s)
    Follows-or hr hs = elim b as (λ b. Follows c (b || v) (if b then r else s)) [
      | true ↦ hr
      | false ↦ hs
    ]

    pub Follows-unless :
        Follows c false r → Follows c v s → Follows c (not b && v) (if b then r else s)
    Follows-unless hr hs = elim b as (λ b. Follows c (not b && v) (if b then r else s)) [
      | true ↦ hr
      | false ↦ hs
    ]

  -- A check of what exists, and none of what does not.
  pub Follows-seen :
      (b v : Bool) (r : Check (Unit {0}))
      → Follows c v r
      → Follows c (not b || v) (if b then r else pure tt)
  Follows-seen b v r hr = elim b as (λ b. Follows c (not b || v) (if b then r else pure tt)) [
    | true ↦ hr
    | false ↦ Follows-pure tt
  ]

  -- A second test, if the first fails.
  either :
      (v w : Bool) (f : Caches → Caches × Bool) (r : Caches × Bool)
      → (r.1 ≡ v) × Coherent c r.0
      → ((az : Caches) → Coherent c az → ((f az).1 ≡ w) × Coherent c (f az).0)
      → ((or_else f r).1 ≡ (v || w)) × Coherent c (or_else f r).0
  either v w f (az, true) (same, h) k = (ap (λ b. b || w) same, h)
  either v w f (az, false) (same, h) k =
      let (right, after) = k az h in (right ∙ ap (λ b. b || w) same, after)

module _ (c : Catalog) (p : Principal) where
  require_lem :
      (az : Caches) (sec : Securable) (n privilege : Name)
      → Coherent c az
      → Agrees c (permits c p sec n privilege) (require c p az sec n privilege)
  unfolding require
  require_lem az sec n privilege h =
      let (same, coherent) = has_privilege-permits c p az sec n privilege h in
      (is_fine-if _ _ ∙ same, coherent)

  owns_some_lem :
      (az : Caches) (l : List (Securable × Name))
      → Coherent c az
      → ((owns_some c p az l).1
          ≡ any (λ (e : Securable × Name). matches_owner p (owner_of c e.0 e.1)) l)
        × Coherent c (owns_some c p az l).0
  unfolding owns_some
  owns_some_lem az [] h = (refl, h)
  owns_some_lem az ((s, n) ∷ l) h =
      let (same, coherent) = owner_lem c p az s n h in
      elim (Bool-cases (matches_owner p (owner_of c s n))) [
        | inl mine ↦ rw (owns_some, same, mine) (refl, coherent)
        | inr other ↦ rw (owns_some, same, other) (owns_some_lem (owner c p az s n).0 l coherent)
      ]

  is_owner_lem :
      (az : Caches) (sec : Securable) (n : Name)
      → Coherent c az
      → ((is_owner c p az sec n).1 ≡ owns c p sec n) × Coherent c (is_owner c p az sec n).0
  unfolding is_owner owns
  is_owner_lem az sec n h = or_admin c p p.is_admin _ az _ h (owns_some_lem az (lineage_of sec n) h)

  can_manage_lem :
      (az : Caches) (sec : Securable) (n : Name)
      → Coherent c az
      → ((can_manage c p az sec n).1 ≡ manages c p sec n) × Coherent c (can_manage c p az sec n).0
  unfolding can_manage manages
  can_manage_lem az sec n h =
      either c _ _ _ (is_owner c p az sec n) (is_owner_lem az sec n h)
        λ az' coherent. has_privilege-permits c p az' sec n (codes "MANAGE") coherent

  pub require_owner_lem :
      (sec : Securable) (n : Name)
      → Follows c (manages c p sec n) (λ az. require_owner c p az sec n)
  unfolding require_owner
  require_owner_lem sec n az h =
      let (same, coherent) = can_manage_lem az sec n h in (is_fine-if _ _ ∙ same, coherent)

  pub required_lem :
      (sec : Securable) (n privilege : Name)
      → Follows c (permits c p sec n privilege) (λ az. require c p az sec n privilege)
  required_lem sec n privilege az h = require_lem az sec n privilege h

  require_use_schema_lem :
      (az : Caches) (ns : List Name)
      → Coherent c az
      → Agrees c (uses_schema c p ns) (require_use_schema c p az ns)
  require_use_schema_lem az [] h = (refl, h)
  require_use_schema_lem az (k ∷ []) h = (refl, h)
  require_use_schema_lem az (k ∷ s ∷ []) h = (refl, h)
  require_use_schema_lem az (k ∷ s ∷ t ∷ r) h =
      require_lem az schema (k ++ 46 ∷ s) (codes "USE_SCHEMA") h

  pub require_use_path_lem :
      (full : Name) → Follows c (uses_path c p full) (λ az. require_use_path c p az full)
  unfolding require_use_path require continue
  require_use_path_lem full az h = parts (split_name 46 full)
    where
      parts : (ns : List Name) → Agrees c (uses_parts c p ns) (require_parts c p az ns)
      parts [] = (refl, h)
      parts (k ∷ r) =
          Agrees-continue c _ _ (λ _ az'. require_use_schema c p az' (k ∷ r)) _
            (require_lem az catalog k (codes "USE_CATALOG") h)
            λ _ az' h'. require_use_schema_lem az' (k ∷ r) h'

  pub require_on_object_lem :
      (sec : Securable) (full privilege : Name)
      → Follows c (may c p sec full privilege) (λ az. require_on_object c p az sec full privilege)
  unfolding require_on_object require_use_path continue
  require_on_object_lem sec full privilege =
      Follows-bind c _ _ _ (λ _ az. require c p az sec full privilege) (require_use_path_lem full)
        λ _. required_lem sec full privilege
