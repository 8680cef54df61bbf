-- ===== src/Forge/Job/Events.antt =====
-- The operations of `JobState` that end tasks and jobs (crates/forge-scheduler/src/job.rs, from
-- `task_completed` on).
use lakeforge.Prelude.{
  ℕ, String, ◌+◌, Bool, true, false, ◌&&◌, ◌||◌, not, Option, none, some, List, [], ◌∷◌, all, any,
  keep, map, concat_map, replicate, u32, saturating_sub, if◌then◌else◌, ◌==◌, nat_eq, string_eq,
  ltb,
}
use lakeforge.Prelude.Text.{concat, decimal}
use lakeforge.Prelude.Assoc.{Assoc, values, lookup}
use lakeforge.Forge.Proto.{
  ShufflePartitionLocation, TaskId, task_text, TaskMetrics, execution, cancelled, Result, ok, err,
}
use lakeforge.Forge.Plan.{DataFusion}
use lakeforge.Forge.Planner.{at_least_one}
use lakeforge.Forge.Job.State.{
  Codec, TaskState, TaskSlot, is_completed, StageStatus, stage_completed, stage_blocked, JobStatus,
  StageState, JobState, Transition, default_transition, all_outputs, stage_summary, JobResult,
}
use lakeforge.Forge.Job.Ops.{
  metrics_or_default, completed_on, is_shuffled, place_outputs, requeue_on, retried_slot,
  failed_slot, deliver, is_active, task_at, set_task, set_stage, prepare_all, done_at,
}

abbrev pub completed_slot :
    String → List ShufflePartitionLocation → Option TaskMetrics → ℕ → TaskSlot → TaskSlot
completed_slot executor_id outputs metrics now t = record t {
  state = TaskState.completed executor_id;
  outputs = outputs;
  metrics = metrics_or_default metrics;
  finished_ms = now;
}

-- The running tasks of one stage, with the executor of each.
unfoldable pub stage_running : String → ℕ → List TaskSlot → List (String × TaskId)
stage_running job_id sid [] = []
stage_running job_id sid (t ∷ ts) =
    let rest = stage_running job_id sid ts in
    elim t.state [
      | TaskState.running e ↦
          (
            e,
            record {
              job_id = job_id;
              stage_id = sid;
              partition_id = t.partition;
              attempt = t.attempt;
            },
          )
          ∷ rest
      | _ ↦ rest
    ]

abbrev pub failure_text : TaskId → String → String
failure_text id error = concat (
    "task "
    ∷ task_text id
    ∷ " failed after "
    ∷ decimal (u32 (id.attempt + 1))
    ∷ " attempts: "
    ∷ error
    ∷ [])

abbrev pub lost_text : String → String
lost_text e = concat ("executor " ∷ e ∷ " lost with shuffle output still required" ∷ [])

module _ {E : DataFusion} {C : Codec E} where
  -- `depends_on.iter().all(|d| .. == Completed)`.
  abbrev pub deps_completed : Assoc ℕ (StageState E C) → StageState E C → Bool
  deps_completed stages st =
      all (λ d. elim (lookup d stages) [ none ↦ false | some x ↦ stage_completed x.status ])
        st.stage.depends_on

  -- The stages that a completed stage unblocks.
  unfoldable pub candidates : JobState E C → ℕ → List ℕ
  candidates job completed =
      map (λ st. st.stage.stage_id)
        (keep
          (λ st.
            (stage_blocked st.status && any (λ d. d == completed) st.stage.depends_on)
            && deps_completed job.stages st)
          (values job.stages))

  unfoldable pub unblock_dependents : JobState E C → ℕ → ℕ → JobState E C × Result (Unit {0})
  unblock_dependents job completed now = prepare_all job (candidates job completed) now

  unfoldable pub result_partitions : StageState E C → List (List ShufflePartitionLocation)
  result_partitions st =
      let n =
        at_least_one
          (if is_shuffled st.stage.plan then st.stage.output_partitions else st.stage.num_tasks) in
      place_outputs n (all_outputs st) (replicate n [])

  abbrev pub job_result : JobState E C → StageState E C → ℕ → JobResult E
  job_result job final now = record {
    job_id = job.job_id;
    schema = job.result_schema;
    partitions = result_partitions final;
    stages = map stage_summary (values job.stages);
    elapsed_ms = saturating_sub now job.submitted_ms;
  }

  -- The final stage is in the map; the code's index would panic otherwise.
  unfoldable pub finish_ok : JobState E C → ℕ → JobState E C
  finish_ok job now =
      let ended = record job { status = JobStatus.completed; finished_ms = now } in
      elim (lookup job.final_stage job.stages) [
        | none ↦ ended
        | some st ↦ record ended { result_tx = deliver job.result_tx (ok (job_result job st now)) }
      ]

  unfoldable pub finish_err : JobState E C → String → ℕ → JobState E C
  finish_err job msg now = record job {
    status = JobStatus.failed msg;
    finished_ms = now;
    result_tx = deliver job.result_tx (err (execution msg));
  }

  abbrev pub closed_stage : ℕ → StageState E C → StageState E C
  closed_stage now st = record st { status = StageStatus.completed; finished_ms = now }

  abbrev pub failed_stage : ℕ → StageState E C → StageState E C
  failed_stage now st = record st { status = StageStatus.failed; finished_ms = now }

  -- The part of `task_completed` behind its guards, for a stage that is now complete.
  unfoldable pub stage_done : JobState E C → ℕ → ℕ → JobState E C × Result Transition
  stage_done job sid now =
      let closed = set_stage job sid (closed_stage now) in
      let (opened, r) = unblock_dependents closed sid now in
      elim r [
        | err e ↦ (opened, err e)
        | ok _ ↦
            if sid == job.final_stage
            then (
              finish_ok opened now,
              ok (record { stages_completed = sid ∷ []; job_finished = true; cancel = [] }),
            )
            else (
              opened,
              ok (record { stages_completed = sid ∷ []; job_finished = false; cancel = [] }),
            )
      ]

  -- The task that a report names, unless the job has ended, the report is of another attempt, or
  -- the task is completed already.
  unfoldable pub reported_task : JobState E C → TaskId → Option TaskSlot
  reported_task job id =
      if is_active job
      then elim (task_at job id.stage_id id.partition_id) [
        | none ↦ none
        | some t ↦ if not (t.attempt == id.attempt) || is_completed t.state then none else some t
      ]
      else none

  unfoldable pub task_completed :
      JobState E C
      → TaskId
      → String
      → List ShufflePartitionLocation
      → Option TaskMetrics
      → ℕ
      → JobState E C × Result Transition
  task_completed job id executor_id outputs metrics now = elim (reported_task job id) [
    | none ↦ (job, ok default_transition)
    | some t ↦
        let done =
          set_task job id.stage_id id.partition_id
            (completed_slot executor_id outputs metrics now) in
        if done_at done id.stage_id
        then stage_done done id.stage_id now
        else (done, ok default_transition)
  ]

  unfoldable pub running_tasks : JobState E C → List (String × TaskId)
  running_tasks job =
      concat_map (λ (st : StageState E C). stage_running job.job_id st.stage.stage_id st.tasks)
        (values job.stages)

  unfoldable pub task_failed : JobState E C → TaskId → String → ℕ → JobState E C × Transition
  task_failed job id error now = elim (reported_task job id) [
    | none ↦ (job, default_transition)
    | some t ↦
        if ltb t.attempt job.max_retries
        then (set_task job id.stage_id id.partition_id retried_slot, default_transition)
        else (let stopped =
              set_stage (set_task job id.stage_id id.partition_id (failed_slot error)) id.stage_id
                (failed_stage now) in
            (
              finish_err stopped (failure_text id error) now,
              record { stages_completed = []; job_finished = true; cancel = running_tasks stopped },
            ))
  ]

  abbrev pub requeue_stage : String → StageState E C → StageState E C
  requeue_stage executor_id st = record st { tasks = map (requeue_on executor_id) st.tasks }

  abbrev pub map_stages :
      (StageState E C → StageState E C) → Assoc ℕ (StageState E C) → Assoc ℕ (StageState E C)
  map_stages f [] = []
  map_stages f ((k, st) ∷ m) = (k, f st) ∷ map_stages f m

  -- Whether a task of the job was completed on the executor.
  unfoldable pub lost_outputs : String → JobState E C → Bool
  lost_outputs executor_id job =
      any (λ st. any (λ t. completed_on executor_id t.state) st.tasks) (values job.stages)

  unfoldable pub executor_lost : JobState E C → String → ℕ → JobState E C × Transition
  executor_lost job executor_id now =
      let requeued = record job { stages = map_stages (requeue_stage executor_id) job.stages } in
      if is_active job
      then if lost_outputs executor_id job
        then (
          finish_err requeued (lost_text executor_id) now,
          record { stages_completed = []; job_finished = true; cancel = running_tasks requeued },
        )
        else (requeued, default_transition)
      else (job, default_transition)

  unfoldable pub cancel : JobState E C → ℕ → JobState E C × Transition
  cancel job now =
      if is_active job
      then (
        record job {
          status = JobStatus.cancelled;
          finished_ms = now;
          result_tx = deliver job.result_tx (err cancelled);
        },
        record { stages_completed = []; job_finished = true; cancel = running_tasks job },
      )
      else (job, default_transition)
