-- ===== src/Forge/Resolve.antt =====
-- `resolve_stage` of crates/forge-scheduler/src/planner.rs, and the labels under which
-- crates/forge-shuffle/src/writer.rs writes what the readers then look up.
pub mod Groups
pub mod Readers
use lakeforge.Prelude.{
  ℕ, zero, suc, String, ◌+◌, Bool, Option, none, some, List, [], ◌∷◌, ◌++◌, ltb, if◌then◌else◌,
  modify_at, replicate, map, u32, count_up,
}
use lakeforge.Prelude.Text.{concat, decimal}
use lakeforge.Forge.Proto.{ShufflePartitionLocation, Result, ok, err, data_fusion, ◌>>=◌, ok_or}
use lakeforge.Forge.Plan.{
  Partitioning, DataFusion, Plan, Plans, operator, exchange, shuffle_writer, unresolved_shuffle,
  shuffle_reader, nil, cons,
}
use lakeforge.Forge.Planner.{output_partition_count, rebuild_exchange, rebuild_node}

abbrev pub Outputs : Type 0
Outputs = ℕ → Option (List ShufflePartitionLocation)

abbrev pub mismatch_text : ℕ → ℕ → ℕ → String
mismatch_text stage idx n = concat (
    "stage "
    ∷ decimal stage
    ∷ " produced partition "
    ∷ decimal idx
    ∷ " but consumer expects "
    ∷ decimal n
    ∷ [])

-- The loop over `locs`: each location goes to the reduce partition that it is labelled with.
unfoldable pub group_locations :
    ℕ
    → ℕ
    → List ShufflePartitionLocation
    → List (List ShufflePartitionLocation)
    → Result (List (List ShufflePartitionLocation))
group_locations stage n [] parts = ok parts
group_locations stage n (loc ∷ locs) parts =
    let idx = loc.output_partition_id in
    let rest = group_locations stage n locs (modify_at parts idx (λ l. l ++ loc ∷ [])) in
    if ltb idx n then rest else err (data_fusion (mismatch_text stage idx n))

module _ (E : DataFusion) (job_id : String) (outputs : Outputs) where
  unfoldable pub reader_for : ℕ → E.Schema → ℕ → Result (Plan E)
  reader_for stage schema n =
      ok_or (outputs stage) (
        data_fusion
          (concat ("stage " ∷ decimal stage ∷ " not complete; cannot resolve shuffle" ∷ [])))
      >>= λ locs.
          (group_locations stage n locs (replicate n []) >>= λ parts.
          ok (shuffle_reader job_id stage schema parts))

  unfoldable mutual
    pub resolve_stage : Plan E → Result (Plan E)
    resolve_stage (operator o cs) = resolve_children cs >>= λ cs'. rebuild_node E o cs'
    resolve_stage (exchange x c) = resolve_stage c >>= λ c'. rebuild_exchange E x c'
    resolve_stage (shuffle_writer j i c q w) =
        resolve_stage c >>= λ c'. ok (shuffle_writer j i c' q w)
    resolve_stage (unresolved_shuffle i s n) = reader_for i s n
    resolve_stage (shuffle_reader j i s ps) = ok (shuffle_reader j i s ps)

    pub resolve_children : Plans E → Result (Plans E)
    resolve_children nil = ok nil
    resolve_children (cons c cs) =
        resolve_stage c >>= λ c'. (resolve_children cs >>= λ cs'. ok (cons c' cs'))

-- `out_index` of `write_partition`: under identity partitioning the one output carries the number
-- of the map task.
out_index : {X : Type 0} → Option (Partitioning X) → ℕ → ℕ → ℕ
out_index none partition o = u32 partition
out_index (some p) partition o = u32 o

-- The labels that the map task of a partition writes: one for each of its writers, in order.
unfoldable pub written_labels : {X : Type 0} → Option (Partitioning X) → ℕ → List ℕ
unfolding out_index
written_labels q partition = map (out_index q partition) (count_up 0 (output_partition_count q))
