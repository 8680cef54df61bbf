-- ===== src/Forge/Job/Results.antt =====
-- The partitions of a job's result (`finish_ok` of crates/forge-scheduler/src/job.rs).
use lakeforge.Prelude.{
  ℕ, ◌≡◌, refl, sym, ◌∙◌, List, [], ◌∷◌, ◌++◌, modify_at, replicate, lt→ltb, if◌then◌else◌,
}
use lakeforge.Forge.Proto.{ShufflePartitionLocation, ok, ok-injective}
use lakeforge.Forge.Plan.{DataFusion}
use lakeforge.Forge.Planner.{at_least_one}
use lakeforge.Forge.Resolve.{group_locations}
use lakeforge.Forge.Resolve.Groups.{by_label, InRange, group_locations_sound}
use lakeforge.Forge.Job.State.{Codec, StageState, all_outputs}
use lakeforge.Forge.Job.Ops.{place_outputs, is_shuffled}
use lakeforge.Forge.Job.Events.{result_partitions}

-- Where every label is in range, the driver's placing and the consumer's grouping agree.
place_outputs-group_locations :
    (stage n : ℕ) (locs : List ShufflePartitionLocation)
    (parts : List (List ShufflePartitionLocation))
    → InRange n locs
    → group_locations stage n locs parts ≡ ok (place_outputs n locs parts)
unfolding place_outputs group_locations
place_outputs-group_locations stage n [] parts h = refl
place_outputs-group_locations stage n (loc ∷ locs) parts h =
    rw (lt→ltb loc.output_partition_id n h.0) (
      place_outputs-group_locations stage n locs
        (modify_at parts loc.output_partition_id (λ l. l ++ loc ∷ [])) h.1)

module _ {E : DataFusion} {C : Codec E} where
  -- The number of partitions of the result of a final stage.
  abbrev pub result_count : StageState E C → ℕ
  result_count st =
      at_least_one
        (if is_shuffled st.stage.plan then st.stage.output_partitions else st.stage.num_tasks)

  -- Where every output of the final stage is labelled with a partition of the result, the result
  -- has that number of partitions, and each holds exactly the outputs labelled with it, in order.
  pub result_partitions_sound :
      (st : StageState E C)
      → InRange (result_count st) (all_outputs st)
      → result_partitions st ≡ by_label (result_count st) (all_outputs st)
  unfolding result_partitions
  result_partitions_sound st h =
      let n = result_count st in
      let locs = all_outputs st in
      let placed = place_outputs n locs (replicate n []) in
      ok-injective placed (by_label n locs) (
        sym (place_outputs-group_locations 0 n locs (replicate n []) h)
        ∙ group_locations_sound 0 n locs h)
