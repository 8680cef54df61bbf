-- ===== src/Prelude/Assoc.antt =====
-- Maps as association lists. A `BTreeMap` keeps its keys in order (`insert_sorted`); the
-- order of a `HashMap` or `DashMap`, which Rust leaves open, is here that of insertion.
use Prim.Native.Nat.{ℕ}
use mathlib.Core.Path.{◌≡◌, refl, sym, subst}
use mathlib.Core.List.{List, [], ◌∷◌}
use mathlib.Core.Option
use mathlib.Core.Option.{Option, none, some, some-injective}
use native.Mathlib.Omega.{arith}
use mathlib.Core.Logic.{inl, inr}
use lakeforge.Prelude.Tests.{Eq, ◌==◌, if◌then◌else◌, Bool-cases, ltb, nat_beq}
use lakeforge.Prelude.Lists.{All}

abbrev pub Assoc {ℓ κ} : Type ℓ → Type κ → Type (ℓ ⊔ κ)
Assoc K V = List (K × V)

module _ {ℓ κ} {K : Type ℓ} {V : Type κ} where
  abbrev pub values : Assoc K V → List V
  values [] = []
  values ((k, v) ∷ m) = v ∷ values m

  abbrev pub keys : Assoc K V → List K
  keys [] = []
  keys ((k, v) ∷ m) = k ∷ keys m

module _ {ℓ κ} {K : Type ℓ} {V : Type κ} ⦃e : Eq K⦄ where
  abbrev pub lookup : K → Assoc K V → Option V
  lookup k [] = none
  lookup k ((j, v) ∷ m) = if j == k then some v else lookup k m

  -- `get_mut` and a write through it.
  abbrev pub modify : K → (V → V) → Assoc K V → Assoc K V
  modify k f [] = []
  modify k f ((j, v) ∷ m) = if j == k then (j, f v) ∷ m else (j, v) ∷ modify k f m

  abbrev pub insert : K → V → Assoc K V → Assoc K V
  insert k v [] = (k, v) ∷ []
  insert k v ((j, w) ∷ m) = if j == k then (k, v) ∷ m else (j, w) ∷ insert k v m

  abbrev pub remove : K → Assoc K V → Assoc K V
  remove k [] = []
  remove k ((j, w) ∷ m) = let rest = remove k m in if j == k then rest else (j, w) ∷ rest

  pub lookup-modify :
      (k j : K) (f : V → V) (m : Assoc K V)
      → lookup j (modify k f m) ≡ (if k == j then Option.map f (lookup k m) else lookup j m)
  lookup-modify k j f [] = ground arith
  lookup-modify k j f ((i, w) ∷ m) =
      ground (arith, e.same_iff k j, e.same_iff i k, e.same_iff i j, lookup-modify k j f m)

  pub lookup-insert :
      (k j : K) (v : V) (m : Assoc K V)
      → lookup j (insert k v m) ≡ (if k == j then some v else lookup j m)
  lookup-insert k j v [] = refl
  lookup-insert k j v ((i, w) ∷ m) =
      ground (arith, e.same_iff k j, e.same_iff i k, e.same_iff i j, lookup-insert k j v m)

  pub lookup-remove :
      (k j : K) (m : Assoc K V) → lookup j (remove k m) ≡ (if k == j then none else lookup j m)
  lookup-remove k j [] = ground arith
  lookup-remove k j ((i, w) ∷ m) =
      ground (arith, e.same_iff k j, e.same_iff i k, e.same_iff i j, lookup-remove k j m)

module _ {κ} {V : Type κ} where
  -- `BTreeMap::insert`: the keys stay in ascending order, an equal key is overwritten.
  abbrev pub insert_sorted : ℕ → V → Assoc ℕ V → Assoc ℕ V
  insert_sorted k v [] = (k, v) ∷ []
  insert_sorted k v ((j, w) ∷ m) =
      if ltb k j
      then (k, v) ∷ (j, w) ∷ m
      else if nat_beq j k
      then (k, v) ∷ m
      else (j, w) ∷ insert_sorted k v m

module _ {ℓ κ μ} {K : Type ℓ} {V : Type κ} ⦃e : Eq K⦄ where
  -- A predicate of all entries survives a write, if the entry that is written keeps it.
  pub All-modify :
      (P : K × V → Type μ) (k : K) (f : V → V) (m : Assoc K V)
      → ((v : V) → lookup k m ≡ some v → P (k, v) → P (k, f v))
      → All P m
      → All P (modify k f m)
  All-modify P k f [] step h = tt
  All-modify P k f ((j, v) ∷ m) step h = elim (Bool-cases (j == k)) [
    | inl same ↦
        let path : j ≡ k = (e.same_iff j k).0 same in
        let here : P (k, v) = subst (λ i. P (i, v)) path h.0 in
        rw same (subst (λ i. P (i, f v)) (sym path) (step v (rw same refl) here), h.1)
    | inr other ↦ rw other (h.0, All-modify P k f m (λ w found. step w (rw other found)) h.1)
  ]

  pub All-lookup :
      (P : K × V → Type μ) (k : K) (m : Assoc K V) {v : V}
      → lookup k m ≡ some v
      → All P m
      → P (k, v)
  All-lookup P k [] found h = cc
  All-lookup P k ((j, w) ∷ m) {v} found h = elim (Bool-cases (j == k)) [
    | inl same ↦
        let path : j ≡ k = (e.same_iff j k).0 same in
        let value : w ≡ v = some-injective w v (rw same at found) in
        subst (λ i. P (i, v)) path (subst (λ x. P (j, x)) value h.0)
    | inr other ↦ All-lookup P k m (rw other at found) h.1
  ]

  pub All-insert :
      (P : K × V → Type μ) (k : K) (v : V) (m : Assoc K V)
      → P (k, v)
      → All P m
      → All P (insert k v m)
  All-insert P k v [] here h = (here, tt)
  All-insert P k v ((j, w) ∷ m) here h = elim (Bool-cases (j == k)) [
    | inl same ↦ rw same (here, h.1)
    | inr other ↦ rw other (h.0, All-insert P k v m here h.1)
  ]

  pub All-remove : (P : K × V → Type μ) (k : K) (m : Assoc K V) → All P m → All P (remove k m)
  All-remove P k [] h = tt
  All-remove P k ((j, w) ∷ m) h = elim (Bool-cases (j == k)) [
    | inl same ↦ rw same (All-remove P k m h.1)
    | inr other ↦ rw other (h.0, All-remove P k m h.1)
  ]

pub All-insert_sorted {κ μ} :
    {V : Type κ} (P : ℕ × V → Type μ) (k : ℕ) (v : V) (m : Assoc ℕ V)
    → P (k, v)
    → All P m
    → All P (insert_sorted k v m)
All-insert_sorted P k v [] here h = (here, tt)
All-insert_sorted P k v ((j, w) ∷ m) here h = elim (Bool-cases (ltb k j)) [
  | inl before ↦ rw before (here, h)
  | inr after ↦ rw after (elim (Bool-cases (nat_beq j k)) [
    | inl same ↦ rw same (here, h.1)
    | inr other ↦ rw other (h.0, All-insert_sorted P k v m here h.1)
  ])
]
