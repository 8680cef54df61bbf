-- ===== src/Forge/Resolve/Readers.antt =====
-- Resolution of a planned stage, and the labels that map tasks write.
use mathlib.Core.Path.{ap₂}
use lakeforge.Prelude.{
  ℕ, zero, suc, String, ◌+◌, ◌≤◌, ◌<◌, ◌≡◌, refl, ap, Option, none, some, List, [], ◌∷◌, ◌++◌,
  arith, All, All-split, map, u32, count_up, length-map, length-count_up, ◌∙◌,
}
use lakeforge.Forge.Proto.{ShufflePartitionLocation, ok}
use lakeforge.Forge.Plan.{
  Partitioning, hash, round_robin_batch, unknown_partitioning, Exchange, DataFusion, Plan, Plans,
  operator, exchange, shuffle_writer, unresolved_shuffle, shuffle_reader, nil, cons, shape, shapes,
  exchange_partitions,
}
use lakeforge.Forge.Planner.{
  QueryStage, Planner, push_stage, rebuild_exchange, rebuild_node, rebuild_operator,
  unresolved_stages, unresolved_below, output_partition_count,
}
use lakeforge.Forge.Planner.Stages.{StageIsOk, AllPass, checks, checks_below, own_check}
use lakeforge.Forge.Resolve.{Outputs, reader_for, resolve_stage, resolve_children, written_labels}
use lakeforge.Forge.Resolve.Groups.{InRange, labelled, by_label, group_locations_sound}

module _ (E : DataFusion) where
  -- The placeholders of a plan: the stage that each reads, and its number of partitions.
  unfoldable mutual
    pub placeholders : Plan E → List (ℕ × ℕ)
    placeholders (operator o cs) = placeholders_below cs
    placeholders (exchange x c) = placeholders c
    placeholders (shuffle_writer j i c q w) = placeholders c
    placeholders (unresolved_shuffle i s n) = (i, n) ∷ []
    placeholders (shuffle_reader j i s ps) = []

    pub placeholders_below : Plans E → List (ℕ × ℕ)
    placeholders_below nil = []
    placeholders_below (cons c cs) = placeholders c ++ placeholders_below cs

-- The stage of a placeholder is written, with labels that the consumer has.
abbrev pub Served : Outputs → ℕ × ℕ → Type 0
Served outputs p =
    (locs : List ShufflePartitionLocation) × (outputs p.0 ≡ some locs) × InRange p.1 locs

module _ (E : DataFusion) (job_id : String) (outputs : Outputs) where
  abbrev Resolves : Plan E → Type 0
  Resolves plan =
      (plan' : Plan E) × (resolve_stage E job_id outputs plan ≡ ok plan')
      × (unresolved_stages E plan' ≡ [])
      × (shape E plan' ≡ shape E plan)

  abbrev ResolveAll : Plans E → Type 0
  ResolveAll cs =
      (cs' : Plans E) × (resolve_children E job_id outputs cs ≡ ok cs')
      × (unresolved_below E cs' ≡ [])
      × (shapes E cs' ≡ shapes E cs)

  reader_for-Resolves :
      (i : ℕ) (s : E.Schema) (n : ℕ) → Served outputs (i, n) → Resolves (unresolved_shuffle i s n)
  unfolding resolve_stage reader_for unresolved_stages shape
  reader_for-Resolves i s n (locs, e, fits) = (
    shuffle_reader job_id i s (by_label n locs),
    rw e (rw (group_locations_sound i n locs fits) refl),
    refl,
    ap (λ k. (s, k)) (length-map (count_up 0 n) (λ i. labelled i locs) ∙ length-count_up 0 n),
  )

  rebuild_node-ok :
      (o : E.Operator) (cs cs' : Plans E)
      → AllPass (own_check E o cs)
      → shapes E cs' ≡ shapes E cs
      → rebuild_node E o cs' ≡ ok (operator o cs')
  unfolding rebuild_node rebuild_operator shape
  rebuild_node-ok o cs nil pass same = refl
  rebuild_node-ok o nil (cons c' cs') pass same = cc
  rebuild_node-ok o (cons c cs) (cons c' cs') pass same = rw same (rw pass.0 refl)

  rebuild_exchange-ok :
      (x : Exchange E.Expr) (c c' : Plan E)
      → E.exchange_refuses x (shape E c) ≡ none
      → shape E c' ≡ shape E c
      → rebuild_exchange E x c' ≡ ok (exchange x c')
  unfolding rebuild_exchange
  rebuild_exchange-ok x c c' pass same = rw same (rw pass refl)

  mutual
    unfolding resolve_stage unresolved_stages placeholders checks shape

    resolve_stage-Resolves :
        (plan : Plan E)
        → AllPass (checks E plan)
        → All (Served outputs) (placeholders E plan)
        → Resolves plan
    resolve_stage-Resolves (operator o cs) pass served =
        let (pass_o, pass_cs) =
          All-split (λ c. c ≡ none) (own_check E o cs) (checks_below E cs) pass in
        let (cs', e, none_left, same) = resolve_children-ResolveAll cs pass_cs served in
        (
          operator o cs',
          rw e (rebuild_node-ok o cs cs' pass_o same),
          none_left,
          ap (λ (l : List (E.Schema × ℕ)). (E.schema_of o l, E.partitions_of o l)) same,
        )
    resolve_stage-Resolves (exchange x c) pass served =
        let (c', e, none_left, same) = resolve_stage-Resolves c pass.1 served in
        (
          exchange x c',
          rw e (rebuild_exchange-ok x c c' pass.0 same),
          none_left,
          ap (λ (t : E.Schema × ℕ). (t.0, exchange_partitions x)) same,
        )
    resolve_stage-Resolves (shuffle_writer j i c q w) pass served =
        let (c', e, none_left, same) = resolve_stage-Resolves c pass served in
        (
          shuffle_writer j i c' q w,
          rw e refl,
          none_left,
          ap (λ (t : E.Schema × ℕ). (E.stats_schema, t.1)) same,
        )
    resolve_stage-Resolves (unresolved_shuffle i s n) pass served =
        reader_for-Resolves i s n served.0
    resolve_stage-Resolves (shuffle_reader j i s ps) pass served =
        (shuffle_reader j i s ps, refl, refl, refl)

    resolve_children-ResolveAll :
        (cs : Plans E)
        → AllPass (checks_below E cs)
        → All (Served outputs) (placeholders_below E cs)
        → ResolveAll cs
    resolve_children-ResolveAll nil pass served = (nil, refl, refl, refl)
    resolve_children-ResolveAll (cons c cs) pass served =
        let (pass_c, pass_cs) = All-split (λ c. c ≡ none) (checks E c) (checks_below E cs) pass in
        let (served_c, served_cs) =
          All-split (Served outputs) (placeholders E c) (placeholders_below E cs) served in
        let (c', e, none_c, same_c) = resolve_stage-Resolves c pass_c served_c in
        let (cs', e', none_cs, same_cs) = resolve_children-ResolveAll cs pass_cs served_cs in
        (cons c' cs', rw e (rw e' refl), rw (none_c) none_cs, ap₂ ◌∷◌ same_c same_cs)

module _ (E : DataFusion) where
  -- A sound stage resolves once each stage that it reads is written with labels in range: the
  -- resolved plan has no placeholder left, and the schema and partition count of the stage's plan.
  pub resolve_stage-total :
      (job_id : String) (outputs : Outputs) (s : QueryStage E)
      → StageIsOk E s
      → All (Served outputs) (placeholders E s.plan)
      → (plan : Plan E) × (resolve_stage E job_id outputs s.plan ≡ ok plan)
        × (unresolved_stages E plan ≡ [])
        × (shape E plan ≡ shape E s.plan)
  resolve_stage-total job_id outputs s valid served =
      resolve_stage-Resolves E job_id outputs s.plan valid.accepted served

  labels-below :
      (start n m : ℕ) → start + n ≤ m → All (λ l. l < m) (map (λ o. u32 o) (count_up start n))
  labels-below start zero m h = tt
  labels-below start (suc n) m h = (omega arith, labels-below (suc start) n m (omega arith))

  -- Every label that a map task of a pushed stage writes, its number being below the partition
  -- count of the stage's input, is below the partition count of the stage's placeholder.
  pub written_labels-in_range :
      (p : Planner E) (input : Plan E) (q : Option (Partitioning E.Expr)) (deps : List ℕ)
      (partition : ℕ)
      → partition < (shape E input).1
      → All
          (λ l. l < (push_stage E p input q deps).0.output_partition_count)
          (written_labels q partition)
  unfolding push_stage written_labels output_partition_count
  written_labels-in_range p input none deps partition h = (ground arith, tt)
  written_labels-in_range p input (some (hash ks n)) deps partition h =
      labels-below 0 n n (omega arith)
  written_labels-in_range p input (some (round_robin_batch n)) deps partition h =
      labels-below 0 n n (omega arith)
  written_labels-in_range p input (some (unknown_partitioning n)) deps partition h =
      labels-below 0 1 1 (omega arith)
