-- ===== src/Forge/Scheduler/State.antt =====
-- The scheduler's state and the handlers of crates/forge-scheduler/src/scheduler.rs that run under
-- its locks. Waking the dispatch loop (`wake`) has no effect on the state and is left out.
use lakeforge.Prelude.{
  ℕ, String, ◌-◌, Bool, true, false, not, Option, none, some, List, [], ◌∷◌, ◌++◌, length, keep,
  take, drop, if◌then◌else◌, ◌==◌, string_eq, nat_eq, ltb,
}
use lakeforge.Prelude.Assoc.{Assoc, values, lookup, modify, insert, remove}
use lakeforge.Prelude.Text.{concat}
use lakeforge.Forge.Proto.{
  TaskId, TaskMetrics, ShufflePartitionLocation, ReportedState, QueryProgress, JobInfo, StageInfo,
  Result, ok, err, ◌>>=◌, error_text,
}
use lakeforge.Forge.Plan.{DataFusion, Plan, shape}
use lakeforge.Forge.Planner.{new_planner, plan_stages}
use lakeforge.Forge.Job.State.{Codec, JobState, Transition, default_transition}
use lakeforge.Forge.Job.Ops.{is_active, new_job, mark_pending}
use lakeforge.Forge.Job.Events
use lakeforge.Forge.Job.Events.{task_completed, task_failed}
use lakeforge.Forge.Job.Info.{job_info, stage_infos, progress}
use lakeforge.Forge.Executors.{Registry, task_finished, remove_executor, schedule_purge}
use mathlib.Core.List.{reverse}

pub record SchedulerConfig : Type 0 where
  pub driver_addr : String
  pub work_dir : String
  pub executor_timeout : ℕ
  pub max_jobs_retained : ℕ

pub record TaskStatus : Type 0 where
  pub id : Option TaskId
  pub state : ReportedState
  pub executor_id : String
  pub error : String
  pub outputs : List ShufflePartitionLocation
  pub metrics : Option TaskMetrics

-- `cancel_requests` are the requests that `apply_transition` sends, in the order of their making.
pub record Scheduler (E : DataFusion) (C : Codec E) : Type 0 where
  pub config : SchedulerConfig
  pub executors : Registry
  pub jobs : Assoc String (JobState E C)
  pub job_order : List String
  pub cancel_requests : List (String × TaskId)

-- What a report does to the registry.
unfoldable pub report_to_registry : Registry → TaskId → TaskStatus → Registry
report_to_registry r id st = elim st.state [
  | ReportedState.task_completed ↦ task_finished r st.executor_id id true
  | ReportedState.task_failed ↦ task_finished r st.executor_id id false
  | ReportedState.task_cancelled ↦ task_finished r st.executor_id id false
  | ReportedState.task_running ↦ r
  | ReportedState.task_pending ↦ r
]

module _ {E : DataFusion} {C : Codec E} where
  abbrev pub set_job : Scheduler E C → String → JobState E C → Scheduler E C
  set_job s job_id job = record s { jobs = modify job_id (λ _. job) s.jobs }

  unfoldable pub apply_transition : Scheduler E C → Transition → Scheduler E C
  apply_transition s tr = record s { cancel_requests = s.cancel_requests ++ tr.cancel }

  -- Whether the job is known and has ended.
  abbrev pub has_ended : Option (JobState E C) → Bool
  has_ended none = false
  has_ended (some job) = not (is_active job)

  -- The eviction loop of `submit`.
  unfoldable pub evict : List String → Assoc String (JobState E C) → Assoc String (JobState E C)
  evict [] jobs = jobs
  evict (id ∷ ids) jobs = evict ids (if has_ended (lookup id jobs) then remove id jobs else jobs)

  -- What `submit` does with a job that is made.
  unfoldable pub enqueue : Scheduler E C → String → JobState E C → Scheduler E C
  enqueue s job_id job =
      let jobs = insert job_id job s.jobs in
      let order = s.job_order ++ job_id ∷ [] in
      let excess = length order - s.config.max_jobs_retained in
      if ltb s.config.max_jobs_retained (length order)
      then record s { jobs = evict (take excess order) jobs; job_order = drop excess order }
      else record s { jobs = jobs; job_order = order }

  -- `submit`, with the settings that it reads: the session's map and `task_max_retries`.
  unfoldable pub submit :
      Scheduler E C
      → String
      → String
      → Plan E
      → List (String × String)
      → ℕ
      → ℕ
      → Result (Scheduler E C)
  submit s job_id sql plan config max_retries now =
      let (schema, n) = shape E plan in
      plan_stages E (new_planner E job_id s.config.work_dir) plan >>= λ stages.
      (new_job job_id sql config max_retries stages schema now >>= λ job. ok (enqueue s job_id job))

  unfoldable pub cancel : Scheduler E C → String → ℕ → Scheduler E C × Bool
  cancel s job_id now = elim (lookup job_id s.jobs) [
    | none ↦ (s, false)
    | some job ↦
        let (job', tr) = Events.cancel job now in
        (apply_transition (set_job s job_id job') tr, true)
  ]

  pub release : Scheduler E C → String → Scheduler E C
  release s job_id = record s { executors = schedule_purge s.executors job_id }

  pub find_job_info : Scheduler E C → String → Option (JobInfo × List StageInfo)
  find_job_info s job_id = elim (lookup job_id s.jobs) [
    | none ↦ none
    | some job ↦ some (job_info job, stage_infos job)
  ]

  -- Newest first; the ids of evicted jobs are passed over.
  known_infos : List String → Assoc String (JobState E C) → List JobInfo
  known_infos [] jobs = []
  known_infos (id ∷ ids) jobs =
      let older = known_infos ids jobs in
      elim (lookup id jobs) [ none ↦ older | some job ↦ job_info job ∷ older ]

  pub list_jobs : Scheduler E C → ℕ → List JobInfo
  unfolding known_infos
  list_jobs s limit =
      let all_infos = known_infos (reverse s.job_order) s.jobs in
      if limit == 0 then all_infos else take limit all_infos

  pub running_jobs : Scheduler E C → ℕ
  running_jobs s = length (keep is_active (values s.jobs))

  pub find_progress : Scheduler E C → String → Option QueryProgress
  find_progress s job_id = elim (lookup job_id s.jobs) [
    | none ↦ none
    | some job ↦ some (progress job)
  ]

  -- The answer to the result of `task_completed`: an error fails the task.
  unfoldable pub answer_completed :
      TaskId → ℕ → JobState E C × Result Transition → JobState E C × Transition
  answer_completed id now (job, ok tr) = (job, tr)
  answer_completed id now (job, err e) =
      task_failed job id (concat ("resolve failed: " ∷ error_text e ∷ [])) now

  -- What a report does to its job.
  unfoldable pub report_to_job : JobState E C → TaskId → TaskStatus → ℕ → JobState E C × Transition
  report_to_job job id st now = elim st.state [
    | ReportedState.task_completed ↦
        answer_completed id now (task_completed job id st.executor_id st.outputs st.metrics now)
    | ReportedState.task_failed ↦ task_failed job id st.error now
    | ReportedState.task_cancelled ↦ task_failed job id st.error now
    | ReportedState.task_running ↦ (job, default_transition)
    | ReportedState.task_pending ↦ (job, default_transition)
  ]

  -- One round of the loop of `update_task_status`.
  unfoldable pub update_one : Scheduler E C → TaskStatus → ℕ → Scheduler E C
  update_one s st now = elim st.id [
    | none ↦ s
    | some id ↦ elim (lookup id.job_id s.jobs) [
      | none ↦ record s { executors = task_finished s.executors st.executor_id id true }
      | some job ↦
          let (job', tr) = report_to_job job id st now in
          apply_transition
            (record (set_job s id.job_id job') { executors = report_to_registry s.executors id st })
            tr
    ]
  ]

  unfoldable pub update_task_status : Scheduler E C → List TaskStatus → ℕ → Scheduler E C
  update_task_status s [] now = s
  update_task_status s (st ∷ sts) now = update_task_status (update_one s st now) sts now

  -- The loss of an executor, for each job of the map, and the cancellations that it asks for.
  unfoldable pub lose_in_jobs :
      String
      → ℕ
      → Assoc String (JobState E C)
      → Assoc String (JobState E C) × List (String × TaskId)
  lose_in_jobs executor_id now [] = ([], [])
  lose_in_jobs executor_id now ((k, job) ∷ jobs) =
      let (job', tr) = Events.executor_lost job executor_id now in
      let (jobs', cancels) = lose_in_jobs executor_id now jobs in
      ((k, job') ∷ jobs', tr.cancel ++ cancels)

  unfoldable pub executor_lost : Scheduler E C → String → ℕ → Scheduler E C
  executor_lost s executor_id now =
      let (r, old) = remove_executor s.executors executor_id in
      let (jobs, cancels) = lose_in_jobs executor_id now s.jobs in
      record s { executors = r; jobs = jobs; cancel_requests = s.cancel_requests ++ cancels }

  -- `requeue`.
  unfoldable pub requeue : Scheduler E C → String → List TaskId → Scheduler E C
  requeue s executor_id [] = s
  requeue s executor_id (id ∷ ids) =
      requeue
        (record s {
          executors = task_finished s.executors executor_id id false;
          jobs =
              modify id.job_id (λ job. mark_pending job id.stage_id id.partition_id id.attempt)
                s.jobs;
        })
        executor_id ids
