-- ===== src/Forge/Plan.antt =====
-- Physical plans, as crates/forge-scheduler/src/planner.rs walks them, with the operators of
-- crates/forge-shuffle/src: writer.rs, unresolved.rs and reader.rs. DataFusion is a parameter.
use lakeforge.Prelude.{ℕ, String, Option, List, [], ◌∷◌, length}
use lakeforge.Forge.Proto.{ShufflePartitionLocation}

-- `datafusion::physical_plan::Partitioning`.
pub data Partitioning (X : Type 0) : Type 0 where
  hash : List X → ℕ → Partitioning X
  round_robin_batch : ℕ → Partitioning X
  unknown_partitioning : ℕ → Partitioning X

-- `Partitioning::partition_count`.
abbrev pub partition_count : {X : Type 0} → Partitioning X → ℕ
partition_count (hash _ n) = n
partition_count (round_robin_batch n) = n
partition_count (unknown_partitioning n) = n

-- The operators of DataFusion that the planner takes for stage boundaries: `RepartitionExec`,
-- `CoalescePartitionsExec` and `SortPreservingMergeExec`. Each has one input.
pub data Exchange (X : Type 0) : Type 0 where
  repartition : Partitioning X → Exchange X
  coalesce_partitions : Exchange X
  sort_preserving_merge : List X → Exchange X

-- What the planner relies on in DataFusion: of an operator, the schema and the partition count that
-- its inputs give it, and whether `with_new_children` refuses new inputs (with its message).
pub record DataFusion : Type 1 where
  pub Operator : Type 0
  pub Schema : Type 0
  pub Expr : Type 0
  pub schema_of : Operator → List (Schema × ℕ) → Schema
  pub partitions_of : Operator → List (Schema × ℕ) → ℕ
  pub operator_refuses : Operator → List (Schema × ℕ) → Option String
  pub exchange_refuses : Exchange Expr → Schema × ℕ → Option String
  pub stats_schema : Schema

-- `Arc<dyn ExecutionPlan>`.
mutual
  pub data Plan (E : DataFusion) : Type 0 where
    operator : E.Operator → Plans E → Plan E
    exchange : Exchange E.Expr → Plan E → Plan E
    shuffle_writer : String → ℕ → Plan E → Option (Partitioning E.Expr) → String → Plan E
    unresolved_shuffle : ℕ → E.Schema → ℕ → Plan E
    shuffle_reader : String → ℕ → E.Schema → List (List ShufflePartitionLocation) → Plan E

  pub data Plans (E : DataFusion) : Type 0 where
    nil : Plans E
    cons : Plan E → Plans E → Plans E

-- `ExecutionPlan::schema` and `output_partitioning().partition_count()`.
abbrev pub exchange_partitions : {X : Type 0} → Exchange X → ℕ
exchange_partitions (repartition p) = partition_count p
exchange_partitions coalesce_partitions = 1
exchange_partitions (sort_preserving_merge _) = 1

unfoldable mutual
  pub shape : (E : DataFusion) → Plan E → E.Schema × ℕ
  shape E (operator o cs) = (E.schema_of o (shapes E cs), E.partitions_of o (shapes E cs))
  shape E (exchange x c) = let (s, n) = shape E c in (s, exchange_partitions x)
  shape E (shuffle_writer j i c p w) = let (s, n) = shape E c in (E.stats_schema, n)
  shape E (unresolved_shuffle i s n) = (s, n)
  shape E (shuffle_reader j i s ps) = (s, length ps)

  pub shapes : (E : DataFusion) → Plans E → List (E.Schema × ℕ)
  shapes E nil = []
  shapes E (cons c cs) = shape E c ∷ shapes E cs
