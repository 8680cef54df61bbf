-- ===== src/Forge/Proto.antt =====
-- crates/forge-proto/proto and crates/forge-common/src/lib.rs: messages and errors.
use lakeforge.Prelude.{ℕ, String, Option, List, [], ◌∷◌, ◌≡◌, refl, ◌⊎◌, inl, inr}
use lakeforge.Prelude.Text.{concat, decimal}

pub record TaskId : Type 0 where
  pub job_id : String
  pub stage_id : ℕ
  pub partition_id : ℕ
  pub attempt : ℕ

-- `impl Display for TaskId`.
unfoldable pub task_text : TaskId → String
unfolding concat decimal
task_text t = concat (
    t.job_id
    ∷ "/s"
    ∷ decimal t.stage_id
    ∷ "/p"
    ∷ decimal t.partition_id
    ∷ "/a"
    ∷ decimal t.attempt
    ∷ [])

pub record ShufflePartitionLocation : Type 0 where
  pub map_partition_id : ℕ
  pub output_partition_id : ℕ
  pub executor_id : String
  pub executor_addr : String
  pub path : String
  pub num_rows : ℕ
  pub num_bytes : ℕ
  pub num_batches : ℕ

pub record TaskMetrics : Type 0 where
  pub output_rows : ℕ
  pub output_bytes : ℕ
  pub elapsed_compute_ns : ℕ
  pub spilled_bytes : ℕ
  pub start_ms : ℕ
  pub end_ms : ℕ

abbrev pub default_metrics : TaskMetrics
default_metrics = record {
  output_rows = 0;
  output_bytes = 0;
  elapsed_compute_ns = 0;
  spilled_bytes = 0;
  start_ms = 0;
  end_ms = 0;
}

pub record StageInfo : Type 0 where
  pub stage_id : ℕ
  pub state : String
  pub num_partitions : ℕ
  pub completed : ℕ
  pub running : ℕ
  pub failed : ℕ
  pub plan : String
  pub depends_on : List ℕ

pub record StageSummary : Type 0 where
  pub stage_id : ℕ
  pub num_tasks : ℕ
  pub output_rows : ℕ
  pub output_bytes : ℕ
  pub elapsed_ms : ℕ

pub record QueryProgress : Type 0 where
  pub total_stages : ℕ
  pub completed_stages : ℕ
  pub total_tasks : ℕ
  pub completed_tasks : ℕ
  pub running_tasks : ℕ
  pub failed_tasks : ℕ

pub record JobInfo : Type 0 where
  pub job_id : String
  pub sql : String
  pub state : String
  pub submitted_ms : ℕ
  pub finished_ms : ℕ
  pub progress : Option QueryProgress
  pub error : String

-- The status of a task as an executor reports it; a number outside the enumeration reads as
-- `task_failed` (`TaskState::try_from(..).unwrap_or(TaskFailed)`).
pub data ReportedState : Type 0 where
  task_pending task_running task_completed task_failed task_cancelled : ReportedState

pub data ForgeError : Type 0 where
  planning execution shuffle scheduler catalog not_found invalid_argument : String → ForgeError
  cancelled : ForgeError
  io data_fusion arrow transport internal : String → ForgeError

-- The `#[error(..)]` texts.
unfoldable pub error_text : ForgeError → String
unfolding concat
error_text (planning m) = concat ("planning error: " ∷ m ∷ [])
error_text (execution m) = concat ("execution error: " ∷ m ∷ [])
error_text (shuffle m) = concat ("shuffle error: " ∷ m ∷ [])
error_text (scheduler m) = concat ("scheduler error: " ∷ m ∷ [])
error_text (catalog m) = concat ("catalog error: " ∷ m ∷ [])
error_text (not_found m) = concat ("not found: " ∷ m ∷ [])
error_text (invalid_argument m) = concat ("invalid argument: " ∷ m ∷ [])
error_text cancelled = "cancelled"
error_text (io m) = concat ("io error: " ∷ m ∷ [])
error_text (data_fusion m) = concat ("datafusion error: " ∷ m ∷ [])
error_text (arrow m) = concat ("arrow error: " ∷ m ∷ [])
error_text (transport m) = concat ("transport error: " ∷ m ∷ [])
error_text (internal m) = concat ("internal error: " ∷ m ∷ [])

-- `forge_common::Result`.
pub data Result {ℓ} (A : Type ℓ) : Type ℓ where
  err : ForgeError → Result A
  ok : A → Result A

infixl 5 ◌>>=◌
abbrev pub ◌>>=◌ {ℓ κ} : {A : Type ℓ} {B : Type κ} → Result A → (A → Result B) → Result B
err e >>= k = err e
ok x >>= k = k x

-- `Option::ok_or_else`.
abbrev pub ok_or {ℓ} : {A : Type ℓ} → Option A → ForgeError → Result A
ok_or o e = elim o [ Option.none ↦ err e | Option.some a ↦ ok a ]

-- Inversion of a successful bind.
pub >>=-eq-ok {ℓ κ} :
    {X : Type ℓ} {Y : Type κ} (r : Result X) (k : X → Result Y) {y : Y}
    → (r >>= k) ≡ ok y
    → (x : X) × (r ≡ ok x) × (k x ≡ ok y)
>>=-eq-ok (err e) k found = cc
>>=-eq-ok (ok x) k found = (x, refl, found)

pub ok-injective {ℓ} : {A : Type ℓ} (a b : A) → ok a ≡ ok b → a ≡ b
ok-injective a b h = cc

pub Result-cases {ℓ} :
    {A : Type ℓ} (m : Result A) → ((a : A) × (m ≡ ok a)) ⊎ ((e : ForgeError) × (m ≡ err e))
Result-cases (ok a) = inl (a, refl)
Result-cases (err e) = inr (e, refl)
