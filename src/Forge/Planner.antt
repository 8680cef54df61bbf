-- ===== src/Forge/Planner.antt =====
-- crates/forge-scheduler/src/planner.rs: a physical plan is split into stages at its exchanges, and
-- a stage whose inputs are written has its placeholders replaced by readers.
pub mod Stages
pub mod Splitting
use lakeforge.Prelude.{
  ℕ, zero, suc, String, ◌+◌, Option, none, some, List, [], ◌∷◌, ◌++◌, leb, if◌then◌else◌, u32,
}
use lakeforge.Forge.Proto.{Result, ok, err, data_fusion, ◌>>=◌}
use lakeforge.Forge.Plan.{
  Partitioning, hash, round_robin_batch, unknown_partitioning, Exchange, repartition,
  coalesce_partitions, sort_preserving_merge, DataFusion, Plan, Plans, operator, exchange,
  shuffle_writer, unresolved_shuffle, shuffle_reader, nil, cons, shape, shapes,
}

pub record QueryStage (E : DataFusion) : Type 0 where
  pub stage_id : ℕ
  pub plan : Plan E
  pub depends_on : List ℕ
  pub num_tasks : ℕ
  pub output_partitions : ℕ

-- `DistributedPlanner`.
pub record Planner (E : DataFusion) : Type 0 where
  pub job_id : String
  pub work_dir : String
  pub next_stage : ℕ
  pub stages : List (QueryStage E)

-- `UnresolvedShuffleExec`.
pub record UnresolvedShuffle (E : DataFusion) : Type 0 where
  pub stage_id : ℕ
  pub schema : E.Schema
  pub output_partition_count : ℕ

abbrev pub as_plan : (E : DataFusion) → UnresolvedShuffle E → Plan E
as_plan E u = unresolved_shuffle u.stage_id u.schema u.output_partition_count

-- `n.max(1)`.
abbrev pub at_least_one : ℕ → ℕ
at_least_one n = if leb 1 n then n else 1

-- `ShuffleWriterExec::output_partition_count`.
unfoldable pub output_partition_count : {X : Type 0} → Option (Partitioning X) → ℕ
output_partition_count (some (hash _ n)) = n
output_partition_count (some (round_robin_batch n)) = n
output_partition_count (some (unknown_partitioning _)) = 1
output_partition_count none = 1

abbrev pub unless_refused : {E : DataFusion} → Option String → Plan E → Result (Plan E)
unless_refused none plan = ok plan
unless_refused (some m) plan = err (data_fusion m)

-- `with_new_children` of an operator and of an exchange.
unfoldable pub rebuild_operator : (E : DataFusion) → E.Operator → Plans E → Result (Plan E)
rebuild_operator E o cs = unless_refused (E.operator_refuses o (shapes E cs)) (operator o cs)

unfoldable pub rebuild_exchange : (E : DataFusion) → Exchange E.Expr → Plan E → Result (Plan E)
rebuild_exchange E x c = unless_refused (E.exchange_refuses x (shape E c)) (exchange x c)

unfoldable pub new_planner : (E : DataFusion) → String → String → Planner E
new_planner E job_id work_dir = record {
  job_id = job_id;
  work_dir = work_dir;
  next_stage = 1;
  stages = [];
}

module _ (E : DataFusion) where
  unfoldable pub consumer_partitions : Option (Partitioning E.Expr) → ℕ → ℕ
  consumer_partitions (some p) num_tasks = output_partition_count (some p)
  consumer_partitions none num_tasks = at_least_one num_tasks

  unfoldable pub push_stage :
      Planner E → Plan E → Option (Partitioning E.Expr) → List ℕ → UnresolvedShuffle E × Planner E
  unfolding consumer_partitions
  push_stage p input partitioning depends_on =
      let stage_id = p.next_stage in
      let (schema, num_tasks) = shape E input in
      (
        record {
          stage_id = stage_id;
          schema = schema;
          output_partition_count = consumer_partitions partitioning num_tasks;
        },
        record p {
          next_stage = u32 (p.next_stage + 1);
          stages =
              p.stages
              ++ record {
                stage_id = stage_id;
                plan = shuffle_writer p.job_id stage_id input partitioning p.work_dir;
                depends_on = depends_on;
                num_tasks = at_least_one num_tasks;
                output_partitions = output_partition_count partitioning;
              }
                ∷ [];
        },
      )

  -- A rewritten node, the stages that it reads, and the planner after it.
  abbrev pub Split : Type 0
  Split = Plan E × List ℕ × Planner E

  -- The end of `split` at a `CoalescePartitionsExec` or a `SortPreservingMergeExec`: its input
  -- becomes a stage, unless it has one partition.
  pub merge_stage : Exchange E.Expr → Plan E → Plan E → List ℕ → Planner E → Result Split
  merge_stage x input plan deps p =
      let (unresolved, p') = push_stage p input none deps in
      if leb (shape E input).1 1
      then ok (plan, deps, p)
      else (rebuild_exchange E x (as_plan E unresolved) >>= λ rewritten.
          ok (rewritten, unresolved.stage_id ∷ [], p'))

  -- The end of `split` at a `RepartitionExec`.
  unfoldable pub repartition_stage :
      Partitioning E.Expr → Plan E → List ℕ → Planner E → Result Split
  repartition_stage partitioning input deps p =
      let (unresolved, p') = push_stage p input (some partitioning) deps in
      ok (as_plan E unresolved, unresolved.stage_id ∷ [], p')

  unfoldable pub split_exchange :
      Exchange E.Expr → Plan E → Plan E → List ℕ → Planner E → Result Split
  split_exchange (repartition (hash ks n)) input plan deps p =
      repartition_stage (hash ks n) input deps p
  split_exchange (repartition (round_robin_batch n)) input plan deps p =
      repartition_stage (round_robin_batch n) input deps p
  split_exchange (repartition (unknown_partitioning n)) input plan deps p = ok (plan, deps, p)
  split_exchange coalesce_partitions input plan deps p =
      merge_stage coalesce_partitions input plan deps p
  split_exchange (sort_preserving_merge ks) input plan deps p =
      merge_stage (sort_preserving_merge ks) input plan deps p

  -- A node with no child is kept, without a call of `with_new_children`.
  unfoldable pub rebuild_node : E.Operator → Plans E → Result (Plan E)
  rebuild_node o nil = ok (operator o nil)
  rebuild_node o (cons c cs) = rebuild_operator E o (cons c cs)

  unfoldable mutual
    pub split : Plan E → Planner E → Result Split
    split (operator o cs) p =
        split_children cs p >>= λ r. (rebuild_node o r.0 >>= λ plan. ok (plan, r.1, r.2))
    split (exchange x c) p =
        split c p >>= λ r. (rebuild_exchange E x r.0 >>= λ plan. split_exchange x r.0 plan r.1 r.2)
    split (shuffle_writer j i c q w) p =
        split c p >>= λ r. ok (shuffle_writer j i r.0 q w, r.1, r.2)
    split (unresolved_shuffle i s n) p = ok (unresolved_shuffle i s n, [], p)
    split (shuffle_reader j i s ps) p = ok (shuffle_reader j i s ps, [], p)

    pub split_children : Plans E → Planner E → Result (Plans E × List ℕ × Planner E)
    split_children nil p = ok (nil, [], p)
    split_children (cons c cs) p =
        split c p >>= λ r. (split_children cs r.2 >>= λ t. ok (cons r.0 t.0, r.1 ++ t.1, t.2))

  -- `DistributedPlanner::plan`: the root is the last stage, with identity partitioning.
  unfoldable pub plan_stages : Planner E → Plan E → Result (List (QueryStage E))
  plan_stages p plan =
      split plan p >>= λ r. (let (u, p') = push_stage r.2 r.0 none r.1 in ok p'.stages)

  unfoldable mutual
    pub unresolved_stages : Plan E → List ℕ
    unresolved_stages (operator o cs) = unresolved_below cs
    unresolved_stages (exchange x c) = unresolved_stages c
    unresolved_stages (shuffle_writer j i c q w) = unresolved_stages c
    unresolved_stages (unresolved_shuffle i s n) = i ∷ []
    unresolved_stages (shuffle_reader j i s ps) = []

    pub unresolved_below : Plans E → List ℕ
    unresolved_below nil = []
    unresolved_below (cons c cs) = unresolved_stages c ++ unresolved_below cs
