-- ===== src/Uc/Effective.antt =====
-- `effective` of crates/lakeforge-api/src/uc/privileges.rs: the privileges on a securable, its own
-- and those of its ancestors.
use lakeforge.Prelude.{
  ◌≡◌, refl, arith, Bool, true, false, Option, none, some, List, [], ◌∷◌, ◌++◌, any, All, ◌==◌,
  if◌then◌else◌, inl, inr, Bool-cases,
}
use lakeforge.Prelude.Assoc.{Assoc, keys}
use lakeforge.Uc.Names.{Name, name_eq, name_beq_iff, eq_ignore_ascii_case}
use lakeforge.Uc.Securable.{Securable, lineage_of, api_type}
use lakeforge.Uc.Authorizer.{Assignment, Principal, Catalog, Caches, grants}

-- A privilege, and the type and the name of the ancestor that it comes from.
pub record Effective : Type 0 where
  pub privilege : Name
  pub inherited_from : Option (Name × Name)

abbrev pub wanted : Option Name → Name → Bool
wanted none who = true
wanted (some p) who = eq_ignore_ascii_case who p

-- The loop over the privileges of one assignment: one that is listed is passed over.
unfoldable pub add_effective : Option (Name × Name) → List Name → List Effective → List Effective
add_effective from [] have = have
add_effective from (x ∷ xs) have = add_effective from xs (
    if any (λ (v : Effective). v.privilege == x) have
    then have
    else have ++ record { privilege = x; inherited_from = from } ∷ [])

abbrev pub PerPrincipal : Type 0
PerPrincipal = Assoc Name (List Effective)

-- `find` of the principal's entry, or a new one at the end, and the change of it.
abbrev pub change_entry : Name → (List Effective → List Effective) → PerPrincipal → PerPrincipal
change_entry who f [] = (who, f []) ∷ []
change_entry who f ((x, l) ∷ m) = if x == who then (x, f l) ∷ m else (x, l) ∷ change_entry who f m

-- The loop over the assignments on one securable.
unfoldable pub add_assignments :
    Option Name → Option (Name × Name) → List Assignment → PerPrincipal → PerPrincipal
add_assignments only from [] m = m
add_assignments only from (a ∷ r) m = add_assignments only from r (
    if wanted only a.principal
    then change_entry a.principal (add_effective from a.privileges) m
    else m)

module _ (c : Catalog) (p : Principal) where
  -- The loop over the ancestors.
  unfoldable pub add_inherited :
      Option Name → Caches → List (Securable × Name) → PerPrincipal → Caches × PerPrincipal
  add_inherited only az [] m = (az, m)
  add_inherited only az ((s, n) ∷ l) m =
      let (az', g) = grants c p az s n in
      add_inherited only az' l (add_assignments only (some (api_type s, n)) g m)

  -- The first of the lineage is the securable itself, whose privileges are not inherited.
  abbrev pub effective_on : Option Name → Caches → List (Securable × Name) → Caches × PerPrincipal
  effective_on only az [] = (az, [])
  effective_on only az ((s, n) ∷ l) =
      let (az', g) = grants c p az s n in add_inherited only az' l (add_assignments only none g [])

  unfoldable pub effective : Caches → Securable → Name → Option Name → Caches × PerPrincipal
  effective az sec n only = effective_on only az (lineage_of sec n)

-- No privilege is listed twice.
abbrev pub IsListedOnce : List Effective → Type 0
IsListedOnce [] = Unit
IsListedOnce (v ∷ r) =
    (any (λ (w : Effective). w.privilege == v.privilege) r ≡ false) × IsListedOnce r

any-snoc :
    (x : Name) (l : List Effective) (v : Effective)
    → any (λ (w : Effective). w.privilege == x) l ≡ false
    → (v.privilege == x) ≡ false
    → any (λ (w : Effective). w.privilege == x) (l ++ v ∷ []) ≡ false
any-snoc x [] v h d = ground (arith, d)
any-snoc x (w ∷ l) v h d = ground (arith, any-snoc x l v, h, d)

snoc-IsListedOnce :
    (l : List Effective) (v : Effective)
    → any (λ (w : Effective). w.privilege == v.privilege) l ≡ false
    → IsListedOnce l
    → IsListedOnce (l ++ v ∷ [])
snoc-IsListedOnce [] v h once = (refl, tt)
snoc-IsListedOnce (w ∷ l) v h once = elim (Bool-cases (w.privilege == v.privilege)) [
  | inl same ↦ let never = rw same at h in cc
  | inr differs ↦
      let back : (v.privilege == w.privilege) ≡ false = ground (
        arith,
        differs,
        name_beq_iff w.privilege v.privilege,
        name_beq_iff v.privilege w.privilege,
      ) in
      (any-snoc w.privilege l v once.0 back, snoc-IsListedOnce l v (rw differs at h) once.1)
]

add_effective-IsListedOnce :
    (from : Option (Name × Name)) (xs : List Name) (l : List Effective)
    → IsListedOnce l
    → IsListedOnce (add_effective from xs l)
unfolding add_effective
add_effective-IsListedOnce from [] l h = h
add_effective-IsListedOnce from (x ∷ xs) l h =
    elim (Bool-cases (any (λ (v : Effective). v.privilege == x) l)) [
      | inl listed ↦ rw listed (add_effective-IsListedOnce from xs l h)
      | inr new ↦ rw new (
          add_effective-IsListedOnce from xs _
            (snoc-IsListedOnce l (record { privilege = x; inherited_from = from }) new h))
    ]

abbrev EntryOnce : Name × List Effective → Type 0
EntryOnce e = IsListedOnce e.1

change_entry-once :
    (who : Name) (from : Option (Name × Name)) (xs : List Name) (m : PerPrincipal)
    → All EntryOnce m
    → All EntryOnce (change_entry who (add_effective from xs) m)
change_entry-once who from xs [] h = (add_effective-IsListedOnce from xs [] tt, tt)
change_entry-once who from xs ((y, l) ∷ m) h = elim (Bool-cases (y == who)) [
  | inl here ↦ rw here (add_effective-IsListedOnce from xs l h.0, h.1)
  | inr other ↦ rw other (h.0, change_entry-once who from xs m h.1)
]

add_assignments-once :
    (only : Option Name) (from : Option (Name × Name)) (g : List Assignment) (m : PerPrincipal)
    → All EntryOnce m
    → All EntryOnce (add_assignments only from g m)
unfolding add_assignments
add_assignments-once only from [] m h = h
add_assignments-once only from (a ∷ r) m h = elim (Bool-cases (wanted only a.principal)) [
  | inl yes_ ↦
      rw yes_
        (add_assignments-once only from r _ (change_entry-once a.principal from a.privileges m h))
  | inr no_ ↦ rw no_ (add_assignments-once only from r m h)
]

-- No name stands twice.
abbrev pub AreDistinct : List Name → Type 0
AreDistinct [] = Unit
AreDistinct (x ∷ xs) = (any (λ y. y == x) xs ≡ false) × AreDistinct xs

any-change_entry :
    (x who : Name) (f : List Effective → List Effective) (m : PerPrincipal)
    → (who == x) ≡ false
    → any (λ y. y == x) (keys m) ≡ false
    → any (λ y. y == x) (keys (change_entry who f m)) ≡ false
any-change_entry x who f [] other h = rw other refl
any-change_entry x who f ((y, l) ∷ m) other h = elim (Bool-cases (y == who)) [
  | inl here ↦ rw here h
  | inr there ↦ elim (Bool-cases (y == x)) [
    | inl same ↦ cc (rw same at h)
    | inr differs ↦ rw (there, differs) (any-change_entry x who f m other (rw differs at h))
  ]
]

change_entry-AreDistinct :
    (who : Name) (f : List Effective → List Effective) (m : PerPrincipal)
    → AreDistinct (keys m)
    → AreDistinct (keys (change_entry who f m))
change_entry-AreDistinct who f [] h = (refl, tt)
change_entry-AreDistinct who f ((y, l) ∷ m) h = elim (Bool-cases (y == who)) [
  | inl here ↦ rw here h
  | inr there ↦
      let back : (who == y) ≡ false =
        ground (arith, there, name_beq_iff y who, name_beq_iff who y) in
      rw there (any-change_entry y who f m back h.0, change_entry-AreDistinct who f m h.1)
]

add_assignments-AreDistinct :
    (only : Option Name) (from : Option (Name × Name)) (g : List Assignment) (m : PerPrincipal)
    → AreDistinct (keys m)
    → AreDistinct (keys (add_assignments only from g m))
unfolding add_assignments
add_assignments-AreDistinct only from [] m h = h
add_assignments-AreDistinct only from (a ∷ r) m h = elim (Bool-cases (wanted only a.principal)) [
  | inl yes_ ↦ rw yes_ (
      add_assignments-AreDistinct only from r _
        (change_entry-AreDistinct a.principal (add_effective from a.privileges) m h))
  | inr no_ ↦ rw no_ (add_assignments-AreDistinct only from r m h)
]

module _ (c : Catalog) (p : Principal) where
  add_inherited-once :
      (only : Option Name) (az : Caches) (l : List (Securable × Name)) (m : PerPrincipal)
      → All EntryOnce m
      → All EntryOnce (add_inherited c p only az l m).1
  unfolding add_inherited
  add_inherited-once only az [] m h = h
  add_inherited-once only az ((s, n) ∷ l) m h =
      add_inherited-once only (grants c p az s n).0 l _ (add_assignments-once only _ _ m h)

  add_inherited-AreDistinct :
      (only : Option Name) (az : Caches) (l : List (Securable × Name)) (m : PerPrincipal)
      → AreDistinct (keys m)
      → AreDistinct (keys (add_inherited c p only az l m).1)
  unfolding add_inherited
  add_inherited-AreDistinct only az [] m h = h
  add_inherited-AreDistinct only az ((s, n) ∷ l) m h =
      add_inherited-AreDistinct only (grants c p az s n).0 l _
        (add_assignments-AreDistinct only _ _ m h)

  -- In the effective privileges on a securable, every principal has one entry, and no privilege is
  -- listed twice in it, however often it is granted on the securable and its ancestors.
  pub effective-IsListedOnce :
      (az : Caches) (sec : Securable) (n : Name) (only : Option Name)
      → AreDistinct (keys (effective c p az sec n only).1)
        × All (λ (e : Name × List Effective). IsListedOnce e.1) (effective c p az sec n only).1
  unfolding effective lineage_of
  effective-IsListedOnce az sec n only = (
    add_inherited-AreDistinct only _ _ _ (add_assignments-AreDistinct only none _ [] tt),
    add_inherited-once only _ _ _ (add_assignments-once only none _ [] tt),
  )
