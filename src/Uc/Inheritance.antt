-- ===== src/Uc/Inheritance.antt =====
-- Inheritance of privileges along the lineage of crates/lakeforge-api/src/uc/privileges.rs.
use lakeforge.Prelude.{
  ◌≡◌, refl, ◌∙◌, ap, arith, Bool, true, false, some, List, [], ◌∷◌, ◌++◌, ◌==◌, nat_eq, nat_beq,
  if◌then◌else◌, inl, inr, Bool-cases,
}
use lakeforge.Uc.Names.{Name, split_name, split_once}
use lakeforge.Uc.Securable.{Securable, table, volume, function, schema, lineage_of, parents}
use lakeforge.Uc.Authorizer.{Principal, Catalog}
use lakeforge.Uc.Caching.{permits}

-- A part of a dotted name has no dot.
abbrev pub is_part : Name → Bool
is_part [] = true
is_part (c ∷ s) = if c == 46 then false else is_part s

split_name-dot : (c s : Name) → is_part c ≡ true → split_name 46 (c ++ 46 ∷ s) ≡ c ∷ split_name 46 s
split_name-dot [] s h = refl
split_name-dot (x ∷ c) s h = elim (Bool-cases (nat_beq x 46)) [
  | inl dot ↦ let never = rw dot at h in cc
  | inr plain ↦ rw plain (rw (split_name-dot c s (rw plain at h)) refl)
]

split_once-dot : (c s : Name) → is_part c ≡ true → split_once 46 (c ++ 46 ∷ s) ≡ some (c, s)
split_once-dot [] s h = refl
split_once-dot (x ∷ c) s h = elim (Bool-cases (nat_beq x 46)) [
  | inl dot ↦ let never = rw dot at h in cc
  | inr plain ↦ rw plain (rw (split_once-dot c s (rw plain at h)) refl)
]

-- There is always a first part.
split_name_first : (t : Name) → (x : Name) × (xs : List Name) × (split_name 46 t ≡ x ∷ xs)
split_name_first [] = ([], [], refl)
split_name_first (c ∷ t) =
    let (x, xs, e) = split_name_first t in
    elim (Bool-cases (nat_beq c 46)) [
      | inl dot ↦ ([], split_name 46 t, rw dot refl)
      | inr plain ↦ (c ∷ x, xs, rw plain (rw e refl))
    ]

-- The types whose objects stand in schemas.
pub data InSchema : Securable → Type 0 where
  a_table : InSchema table
  a_volume : InSchema volume
  a_function : InSchema function

module _ (c s t : Name) (c_part : is_part c ≡ true) (s_part : is_part s ≡ true) where
  split_full_name :
      (x : Name) × (xs : List Name) × (split_name 46 (c ++ 46 ∷ (s ++ 46 ∷ t)) ≡ c ∷ s ∷ x ∷ xs)
  split_full_name =
      let (x, xs, e) = split_name_first t in
      (
        x,
        xs,
        split_name-dot c (s ++ 46 ∷ t) c_part
            ∙ ap (λ r. c ∷ r) (split_name-dot s t s_part ∙ ap (λ r. s ∷ r) e),
      )

  lineage_of-object :
      (sec : Securable)
      → InSchema sec
      → lineage_of sec (c ++ 46 ∷ (s ++ 46 ∷ t))
        ≡ (sec, c ++ 46 ∷ (s ++ 46 ∷ t)) ∷ lineage_of schema (c ++ 46 ∷ s)
  unfolding lineage_of parents
  lineage_of-object _ a_table =
      let (x, xs, e) = split_full_name in rw (e, split_once-dot c s c_part) refl
  lineage_of-object _ a_volume =
      let (x, xs, e) = split_full_name in rw (e, split_once-dot c s c_part) refl
  lineage_of-object _ a_function =
      let (x, xs, e) = split_full_name in rw (e, split_once-dot c s c_part) refl

-- A privilege that holds on a schema holds on every table, volume and function whose name is that
-- of the schema, a dot and any text, where the names of catalog and schema have no dot.
pub permits_inherited :
    (cat : Catalog) (p : Principal) (sec : Securable) (c s t privilege : Name)
    → InSchema sec
    → is_part c ≡ true
    → is_part s ≡ true
    → permits cat p schema (c ++ 46 ∷ s) privilege ≡ true
    → permits cat p sec (c ++ 46 ∷ (s ++ 46 ∷ t)) privilege ≡ true
unfolding permits
permits_inherited cat p sec c s t privilege inside c_part s_part h =
    rw (lineage_of-object c s t c_part s_part sec inside) (ground (arith, h))
