-- ===== src/Forge/Resolve/Groups.antt =====
-- The grouping of shuffle outputs by reduce partition.
use lakeforge.Prelude.{
  ℕ, zero, suc, ◌<◌, ◌≡◌, refl, ◌∙◌, ap, some, List, [], ◌∷◌, ◌++◌, arith, ltb, nat_beq, map,
  count_up, map-count_up, if◌then◌else◌, Bool-cases, inl, inr, modify_at, replicate, get_elem?,
  length, keep, All, any, length-modify_at, length-replicate, leb, sym, String, lt→ltb, true,
  get_elem?-modify_at,
}
use mathlib.Core.List.{append_assoc, append-nil}
use lakeforge.Forge.Proto.{ShufflePartitionLocation, ok, err, ok-injective, data_fusion}
use lakeforge.Forge.Resolve.{group_locations, mismatch_text}

abbrev pub labelled : ℕ → List ShufflePartitionLocation → List ShufflePartitionLocation
labelled i = keep (λ loc. nat_beq loc.output_partition_id i)

abbrev Loc : Type 0
Loc = ShufflePartitionLocation

-- Every location is labelled with a partition that the consumer has.
abbrev pub InRange : ℕ → List ShufflePartitionLocation → Type 0
InRange n = All (λ loc. loc.output_partition_id < n)

-- What stands at `i` before the locations are placed is continued by those labelled `i`.
abbrev Placed : List Loc → List (List Loc) → List (List Loc) → Type 0
Placed locs parts parts' =
    (i : ℕ) (l : List Loc)
    → get_elem? parts i ≡ some l
    → get_elem? parts' i ≡ some (l ++ labelled i locs)

get_elem?-replicate {ℓ} :
    {A : Type ℓ} (n i : ℕ) (a : A) → i < n → get_elem? (replicate n a) i ≡ some a
get_elem?-replicate zero i a h = elim h [ ]
get_elem?-replicate (suc n) zero a h = refl
get_elem?-replicate (suc n) (suc i) a h = get_elem?-replicate n i a (omega arith)

placed_step :
    (i : ℕ) (l : List Loc) (loc : Loc) (locs : List Loc)
    → (if nat_beq loc.output_partition_id i then l ++ loc ∷ [] else l) ++ labelled i locs
      ≡ l ++ labelled i (loc ∷ locs)
placed_step i l loc locs = elim (Bool-cases (nat_beq loc.output_partition_id i)) [
  | inl here ↦ rw here (append_assoc l (loc ∷ []) (labelled i locs))
  | inr other ↦ rw other
]

group-Placed :
    (stage n : ℕ) (locs : List Loc) (parts parts' : List (List Loc))
    → group_locations stage n locs parts ≡ ok parts'
    → Placed locs parts parts' × (length parts' ≡ length parts)
unfolding group_locations
group-Placed stage n [] parts parts' h =
    let same = ok-injective parts parts' h in
    (λ i l e. rw (append-nil l) (rw same at e), ap length (sym same))
group-Placed stage n (loc ∷ locs) parts parts' h =
    elim (Bool-cases (ltb loc.output_partition_id n)) [
      | inl fits ↦
          let idx = loc.output_partition_id in
          let placed = modify_at parts idx (λ l. l ++ loc ∷ []) in
          let (below, len) = group-Placed stage n locs placed parts' (rw fits at h) in
          (
            λ i l e.
                below i _ (get_elem?-modify_at parts idx i (λ l. l ++ loc ∷ []) e)
                ∙ ap some (placed_step i l loc locs),
            len ∙ length-modify_at parts idx (λ l. l ++ loc ∷ []),
          )
      | inr out ↦ let h' = rw out at h in cc
    ]

group_total :
    (stage n : ℕ) (locs : List Loc) (parts : List (List Loc))
    → InRange n locs
    → (parts' : List (List Loc)) × (group_locations stage n locs parts ≡ ok parts')
unfolding group_locations
group_total stage n [] parts h = (parts, refl)
group_total stage n (loc ∷ locs) parts h =
    rw (lt→ltb loc.output_partition_id n h.0) (group_total stage n locs _ h.1)

-- The locations grouped by label: list `i` holds those labelled `i`, in their order.
abbrev pub by_label : ℕ → List ShufflePartitionLocation → List (List ShufflePartitionLocation)
by_label n locs = map (λ i. labelled i locs) (count_up 0 n)

-- Where every label is below `n`, the grouping succeeds with `n` lists, and list `i` holds exactly
-- the locations labelled `i`, in their order.
pub group_locations_sound :
    (stage n : ℕ) (locs : List ShufflePartitionLocation)
    → InRange n locs
    → group_locations stage n locs (replicate n []) ≡ ok (by_label n locs)
group_locations_sound stage n locs h =
    let (parts, e) = group_total stage n locs (replicate n []) h in
    let (placed, len) = group-Placed stage n locs (replicate n []) parts e in
    let same : parts ≡ by_label n locs =
      map-count_up parts 0 n (λ i. labelled i locs) (len ∙ length-replicate n [])
        (λ i m below same_i.
          placed i [] (get_elem?-replicate n i [] below)
          ∙ ap (λ j. some (labelled j locs)) (omega (arith, same_i))) in
    e ∙ ap ok same

-- Where some label is `n` or more, the grouping is refused.
pub group_locations_refused :
    (stage n : ℕ) (locs : List ShufflePartitionLocation) (parts : List (List Loc))
    → any (λ loc. leb n loc.output_partition_id) locs ≡ true
    → (m : String) × (group_locations stage n locs parts ≡ err (data_fusion m))
unfolding group_locations
group_locations_refused stage n [] parts h = cc
group_locations_refused stage n (loc ∷ locs) parts h =
    elim (Bool-cases (ltb loc.output_partition_id n)) [
      | inl fits ↦ rw fits (group_locations_refused stage n locs _ (ground arith))
      | inr out ↦ (mismatch_text stage loc.output_partition_id n, rw out)
    ]
