-- ===== src/Forge/Job/State.antt =====
-- The data of crates/forge-scheduler/src/job.rs: tasks, stages, the job, and their summaries.
use lakeforge.Prelude.{
  ℕ, suc, zero, String, ◌+◌, Bool, true, false, Option, none, List, [], ◌∷◌, all, concat_map, u32,
  u64, saturating_sub,
}
use lakeforge.Prelude.Assoc.{Assoc}
use lakeforge.Forge.Proto.{
  ShufflePartitionLocation, TaskId, TaskMetrics, default_metrics, StageInfo, StageSummary, Result,
}
use lakeforge.Forge.Plan.{DataFusion, Plan}
use lakeforge.Forge.Planner.{QueryStage}

-- What the job relies on besides DataFusion's plans: `ForgeCodec::encode_plan`, which is
-- datafusion-proto's encoder, and the text form of a plan.
pub record Codec (E : DataFusion) : Type 1 where
  pub Bytes : Type 0
  pub encode_plan : Plan E → Result Bytes
  pub display_plan : Plan E → String

pub data TaskState : Type 0 where
  pending : TaskState
  running completed failed : String → TaskState

pub record TaskSlot : Type 0 where
  pub partition : ℕ
  pub attempt : ℕ
  pub state : TaskState
  pub outputs : List ShufflePartitionLocation
  pub metrics : TaskMetrics
  pub started_ms : ℕ
  pub finished_ms : ℕ

-- The tests that the code writes with `matches!` and `==`.
abbrev pub is_completed : TaskState → Bool
is_completed (TaskState.completed _) = true
is_completed _ = false

abbrev pub is_running : TaskState → Bool
is_running (TaskState.running _) = true
is_running _ = false

abbrev pub is_pending : TaskState → Bool
is_pending TaskState.pending = true
is_pending _ = false

pub data StageStatus : Type 0 where
  blocked runnable completed failed : StageStatus

abbrev pub stage_completed : StageStatus → Bool
stage_completed StageStatus.completed = true
stage_completed _ = false

abbrev pub stage_runnable : StageStatus → Bool
stage_runnable StageStatus.runnable = true
stage_runnable _ = false

abbrev pub stage_blocked : StageStatus → Bool
stage_blocked StageStatus.blocked = true
stage_blocked _ = false

-- `{:?}` of a status.
abbrev pub status_text : StageStatus → String
status_text StageStatus.blocked = "Blocked"
status_text StageStatus.runnable = "Runnable"
status_text StageStatus.completed = "Completed"
status_text StageStatus.failed = "Failed"

pub data JobStatus : Type 0 where
  running completed : JobStatus
  failed : String → JobStatus
  cancelled : JobStatus

pub record StageState (E : DataFusion) (C : Codec E) : Type 0 where
  pub stage : QueryStage E
  pub status : StageStatus
  pub encoded_plan : Option C.Bytes
  pub resolved_plan : Option (Plan E)
  pub tasks : List TaskSlot
  pub started_ms : ℕ
  pub finished_ms : ℕ

pub record JobResult (E : DataFusion) : Type 0 where
  pub job_id : String
  pub schema : E.Schema
  pub partitions : List (List ShufflePartitionLocation)
  pub stages : List StageSummary
  pub elapsed_ms : ℕ

-- `result_tx`: the sender is taken when it is used, so it sends at most once.
pub data ResultChannel (E : DataFusion) : Type 0 where
  open_channel : ResultChannel E
  sent : Result (JobResult E) → ResultChannel E

pub record JobState (E : DataFusion) (C : Codec E) : Type 0 where
  pub job_id : String
  pub sql : String
  pub session_config : List (String × String)
  pub max_retries : ℕ
  pub submitted_ms : ℕ
  pub finished_ms : ℕ
  pub status : JobStatus
  pub stages : Assoc ℕ (StageState E C)
  pub final_stage : ℕ
  pub result_schema : E.Schema
  pub result_tx : ResultChannel E

pub record Transition : Type 0 where
  pub stages_completed : List ℕ
  pub job_finished : Bool
  pub cancel : List (String × TaskId)

abbrev pub default_transition : Transition
default_transition = record { stages_completed = []; job_finished = false; cancel = [] }

abbrev pub fresh_task : ℕ → TaskSlot
fresh_task p = record {
  partition = p;
  attempt = 0;
  state = TaskState.pending;
  outputs = [];
  metrics = default_metrics;
  started_ms = 0;
  finished_ms = 0;
}

-- The slots of the partitions from `start` on.
unfoldable pub fresh_tasks : ℕ → ℕ → List TaskSlot
fresh_tasks start zero = []
fresh_tasks start (suc n) = fresh_task start ∷ fresh_tasks (suc start) n

-- `depends_on.is_empty()`.
abbrev pub first_status : List ℕ → StageStatus
first_status [] = StageStatus.runnable
first_status (d ∷ ds) = StageStatus.blocked

abbrev pub count_task : TaskState → ℕ × ℕ × ℕ → ℕ × ℕ × ℕ
count_task (TaskState.completed _) (c, r, f) = (u32 (c + 1), r, f)
count_task (TaskState.running _) (c, r, f) = (c, u32 (r + 1), f)
count_task (TaskState.failed _) (c, r, f) = (c, r, u32 (f + 1))
count_task TaskState.pending n = n

-- The loop of `counts`, from the numbers counted so far.
unfoldable pub count_tasks : List TaskSlot → ℕ × ℕ × ℕ → ℕ × ℕ × ℕ
count_tasks [] n = n
count_tasks (t ∷ ts) n = count_tasks ts (count_task t.state n)

-- The inner and the outer loop of `summary`, from the rows and bytes summed so far.
unfoldable pub sum_outputs : List ShufflePartitionLocation → ℕ × ℕ → ℕ × ℕ
sum_outputs [] s = s
sum_outputs (o ∷ os) (rows, bytes) =
    sum_outputs os (u64 (rows + o.num_rows), u64 (bytes + o.num_bytes))

unfoldable pub sum_tasks : List TaskSlot → ℕ × ℕ → ℕ × ℕ
unfolding sum_outputs
sum_tasks [] s = s
sum_tasks (t ∷ ts) s = sum_tasks ts (sum_outputs t.outputs s)

module _ {E : DataFusion} {C : Codec E} where
  -- `StageState::new`.
  unfoldable pub new_stage : QueryStage E → StageState E C
  unfolding fresh_tasks
  new_stage stage = record {
    stage = stage;
    status = first_status stage.depends_on;
    encoded_plan = none;
    resolved_plan = none;
    tasks = fresh_tasks 0 (u32 stage.num_tasks);
    started_ms = 0;
    finished_ms = 0;
  }

  abbrev pub all_outputs : StageState E C → List ShufflePartitionLocation
  all_outputs st = concat_map (λ t. t.outputs) st.tasks

  abbrev pub is_complete : StageState E C → Bool
  is_complete st = all (λ t. is_completed t.state) st.tasks

  unfoldable pub counts : StageState E C → ℕ × ℕ × ℕ
  unfolding count_tasks
  counts st = count_tasks st.tasks (0, 0, 0)

  unfoldable pub stage_info : StageState E C → StageInfo
  stage_info st =
      let (c, r, f) = counts st in
      record {
        stage_id = st.stage.stage_id;
        state = status_text st.status;
        num_partitions = u32 st.stage.num_tasks;
        completed = c;
        running = r;
        failed = f;
        plan = C.display_plan st.stage.plan;
        depends_on = st.stage.depends_on;
      }

  unfoldable pub stage_summary : StageState E C → StageSummary
  unfolding sum_tasks
  stage_summary st =
      let (rows, bytes) = sum_tasks st.tasks (0, 0) in
      record {
        stage_id = st.stage.stage_id;
        num_tasks = u32 st.stage.num_tasks;
        output_rows = rows;
        output_bytes = bytes;
        elapsed_ms = saturating_sub st.finished_ms st.started_ms;
      }
