-- ===== src/Forge/Job/Ops.antt =====
-- The operations of `JobState` in crates/forge-scheduler/src/job.rs. An operation that mutates the
-- job returns the new job beside its result, also beside an error. The clock is an argument: one
-- reading, `now`, for each call of an operation.
use lakeforge.Prelude.{
  ℕ, String, ◌+◌, Bool, true, false, ◌&&◌, Option, none, some, List, [], ◌∷◌, ◌++◌, keep, map,
  concat_map, get_elem?, get_last?, modify_at, u32, if◌then◌else◌, ◌==◌, nat_eq, string_eq, ltb,
}
use lakeforge.Prelude.Text.{concat, decimal}
use lakeforge.Prelude.Assoc.{Assoc, values, keys, lookup, modify, insert_sorted}
use lakeforge.Forge.Proto.{
  ShufflePartitionLocation, TaskMetrics, default_metrics, scheduler, Result, ok, err, ◌>>=◌, ok_or,
}
use lakeforge.Forge.Plan.{DataFusion, Plan, shuffle_writer}
use lakeforge.Forge.Planner.{QueryStage}
use lakeforge.Forge.Resolve.{Outputs, resolve_stage}
use lakeforge.Forge.Job.State.{
  Codec, TaskState, TaskSlot, is_running, is_pending, StageStatus, stage_completed, stage_runnable,
  JobStatus, StageState, JobResult, ResultChannel, open_channel, sent, JobState, new_stage,
  all_outputs, is_complete,
}

abbrev pub is_running_status : JobStatus → Bool
is_running_status JobStatus.running = true
is_running_status _ = false

-- `Option::unwrap_or_default` of the reported metrics.
abbrev pub metrics_or_default : Option TaskMetrics → TaskMetrics
metrics_or_default none = default_metrics
metrics_or_default (some m) = m

abbrev pub runs_on : String → TaskState → Bool
runs_on e (TaskState.running x) = x == e
runs_on e _ = false

abbrev pub completed_on : String → TaskState → Bool
completed_on e (TaskState.completed x) = x == e
completed_on e _ = false

-- `writer().shuffle_partitioning().is_some()`. The root of a planned stage is its writer.
abbrev pub is_shuffled : {E : DataFusion} → Plan E → Bool
is_shuffled (shuffle_writer j i c (some q) w) = true
is_shuffled _ = false

-- The loop over the outputs of the final stage: an output out of range is dropped.
unfoldable pub place_outputs :
    ℕ
    → List ShufflePartitionLocation
    → List (List ShufflePartitionLocation)
    → List (List ShufflePartitionLocation)
place_outputs n [] parts = parts
place_outputs n (loc ∷ locs) parts =
    let idx = loc.output_partition_id in
    place_outputs n locs (if ltb idx n then modify_at parts idx (λ l. l ++ loc ∷ []) else parts)

-- The writes of the operations to one task.
abbrev pub running_slot : String → ℕ → TaskSlot → TaskSlot
running_slot executor_id now t = record t {
  state = TaskState.running executor_id;
  started_ms = now;
}

abbrev pub pending_slot : TaskSlot → TaskSlot
pending_slot t = record t { state = TaskState.pending }

abbrev pub retried_slot : TaskSlot → TaskSlot
retried_slot t = record t { attempt = u32 (t.attempt + 1); state = TaskState.pending }

abbrev pub failed_slot : String → TaskSlot → TaskSlot
failed_slot error t = record t { state = TaskState.failed error }

-- What `executor_lost` does to one task.
abbrev pub requeue_on : String → TaskSlot → TaskSlot
requeue_on e t = if runs_on e t.state then retried_slot t else t

-- `result_tx.take()` and `send`: what was sent before stays.
abbrev pub deliver : {E : DataFusion} → ResultChannel E → Result (JobResult E) → ResultChannel E
deliver open_channel r = sent r
deliver (sent r') r = sent r'

module _ {E : DataFusion} {C : Codec E} where
  abbrev pub is_active : JobState E C → Bool
  is_active job = is_running_status job.status

  -- The map `outputs` of `prepare_stage`: the outputs of each completed stage.
  unfoldable pub completed_outputs : Assoc ℕ (StageState E C) → Outputs
  completed_outputs [] sid = none
  completed_outputs ((k, st) ∷ m) sid =
      let rest = completed_outputs m sid in
      if stage_completed st.status && st.stage.stage_id == sid then some (all_outputs st) else rest

  -- `task_mut`, read and written.
  abbrev pub slot_of : Option (StageState E C) → ℕ → Option TaskSlot
  slot_of none p = none
  slot_of (some st) p = get_elem? st.tasks p

  abbrev pub task_at : JobState E C → ℕ → ℕ → Option TaskSlot
  task_at job sid p = slot_of (lookup sid job.stages) p

  abbrev pub set_task : JobState E C → ℕ → ℕ → (TaskSlot → TaskSlot) → JobState E C
  set_task job sid p f = record job {
    stages = modify sid (λ st. record st { tasks = modify_at st.tasks p f }) job.stages;
  }

  abbrev pub set_stage : JobState E C → ℕ → (StageState E C → StageState E C) → JobState E C
  set_stage job sid f = record job { stages = modify sid f job.stages }

  -- `self.stages[&sid].is_complete()`.
  abbrev pub done_of : Option (StageState E C) → Bool
  done_of none = false
  done_of (some st) = is_complete st

  abbrev pub done_at : JobState E C → ℕ → Bool
  done_at job sid = done_of (lookup sid job.stages)

  -- The plan of a stage, with its shuffles resolved and encoded.
  unfoldable pub resolve_and_encode : JobState E C → StageState E C → Result (Plan E × C.Bytes)
  resolve_and_encode job st =
      resolve_stage E job.job_id (completed_outputs job.stages) st.stage.plan >>= λ resolved.
      (C.encode_plan resolved >>= λ bytes. ok (resolved, bytes))

  abbrev pub install : ℕ → Plan E × C.Bytes → StageState E C → StageState E C
  install now r st = record st {
    encoded_plan = some r.1;
    resolved_plan = some r.0;
    status = StageStatus.runnable;
    started_ms = now;
  }

  unfoldable pub stage_plan : JobState E C → ℕ → Result (Plan E × C.Bytes)
  stage_plan job sid =
      ok_or (lookup sid job.stages) (scheduler (concat ("unknown stage " ∷ decimal sid ∷ [])))
      >>= λ st. resolve_and_encode job st

  -- `prepare_stage`: on an error the job is as before.
  unfoldable pub prepare_stage : JobState E C → ℕ → ℕ → JobState E C × Result (Unit {0})
  prepare_stage job sid now = elim (stage_plan job sid) [
    | err e ↦ (job, err e)
    | ok r ↦ (set_stage job sid (install now r), ok tt)
  ]

  -- `for sid in .. { self.prepare_stage(sid)?; }`: the first error ends the loop.
  unfoldable pub prepare_all : JobState E C → List ℕ → ℕ → JobState E C × Result (Unit {0})
  prepare_all job [] now = (job, ok tt)
  prepare_all job (sid ∷ sids) now =
      let (job', r) = prepare_stage job sid now in
      elim r [ err e ↦ (job', err e) | ok _ ↦ prepare_all job' sids now ]

  abbrev pub ready_of : Option (StageState E C) → Bool
  ready_of none = false
  ready_of (some st) = stage_runnable st.status

  abbrev pub is_ready : JobState E C → ℕ → Bool
  is_ready job sid = ready_of (lookup sid job.stages)

  unfoldable pub prepare_if_ready : JobState E C → ℕ → ℕ → JobState E C × Result (Unit {0})
  prepare_if_ready job sid now =
      if is_ready job sid then prepare_stage job sid now else (job, ok tt)

  -- The stages that `JobState::new` prepares: those whose status is `Runnable` when reached.
  unfoldable pub prepare_runnable : JobState E C → List ℕ → ℕ → JobState E C × Result (Unit {0})
  prepare_runnable job [] now = (job, ok tt)
  prepare_runnable job (sid ∷ sids) now =
      let (job', r) = prepare_if_ready job sid now in
      elim r [ err e ↦ (job', err e) | ok _ ↦ prepare_runnable job' sids now ]

  unfoldable pub stage_map :
      List (QueryStage E) → Assoc ℕ (StageState E C) → Assoc ℕ (StageState E C)
  stage_map [] m = m
  stage_map (s ∷ ss) m = stage_map ss (insert_sorted s.stage_id (new_stage s) m)

  abbrev pub first_job :
      String
      → String
      → List (String × String)
      → ℕ
      → List (QueryStage E)
      → E.Schema
      → ℕ
      → ℕ
      → JobState E C
  first_job job_id sql session_config max_retries stages schema now final_stage = record {
    job_id = job_id;
    sql = sql;
    session_config = session_config;
    max_retries = max_retries;
    submitted_ms = now;
    finished_ms = 0;
    status = JobStatus.running;
    stages = stage_map stages [];
    final_stage = final_stage;
    result_schema = schema;
    result_tx = open_channel;
  }

  -- `JobState::new`.
  unfoldable pub new_job :
      String
      → String
      → List (String × String)
      → ℕ
      → List (QueryStage E)
      → E.Schema
      → ℕ
      → Result (JobState E C)
  new_job job_id sql session_config max_retries stages schema now =
      ok_or (get_last? stages) (scheduler "plan produced no stages") >>= λ last.
      (let job = first_job job_id sql session_config max_retries stages schema now last.stage_id in
        let (job', r) = prepare_runnable job (keys job.stages) now in r >>= λ _. ok job')

  -- The tasks of one stage that are ready, as (stage, partition, attempt, plan).
  abbrev pub stage_pending : StageState E C → List (ℕ × ℕ × ℕ × C.Bytes)
  stage_pending st = elim st.encoded_plan [
    | none ↦ []
    | some plan ↦
        map (λ t. (st.stage.stage_id, t.partition, t.attempt, plan))
          (keep (λ t. is_pending t.state) st.tasks)
  ]

  unfoldable pub pending_tasks : JobState E C → List (ℕ × ℕ × ℕ × C.Bytes)
  pending_tasks job =
      if is_active job
      then concat_map (λ st. if stage_runnable st.status then stage_pending st else [])
          (values job.stages)
      else []

  unfoldable pub mark_running : JobState E C → ℕ → ℕ → ℕ → String → ℕ → JobState E C
  mark_running job sid p attempt executor_id now = elim (task_at job sid p) [
    | none ↦ job
    | some t ↦
        if t.attempt == attempt && is_pending t.state
        then set_task job sid p (running_slot executor_id now)
        else job
  ]

  unfoldable pub mark_pending : JobState E C → ℕ → ℕ → ℕ → JobState E C
  mark_pending job sid p attempt = elim (task_at job sid p) [
    | none ↦ job
    | some t ↦
        if t.attempt == attempt && is_running t.state then set_task job sid p pending_slot else job
  ]
