-- ===== src/Forge/Job/Runs.antt =====
-- Whole lives of a job: any sequence of operations, from `JobState::new` on.
use lakeforge.Prelude.{ℕ, String, ◌≡◌, refl, ◌∙◌, ap, false, Option, none, List, [], ◌∷◌, arith}
use lakeforge.Forge.Proto.{ShufflePartitionLocation, TaskId, TaskMetrics, ok}
use lakeforge.Forge.Plan.{DataFusion}
use lakeforge.Forge.Planner.{QueryStage}
use lakeforge.Forge.Job.State.{Codec, JobState}
use lakeforge.Forge.Job.Ops.{is_active, mark_running, mark_pending, new_job, is_running_status}
use lakeforge.Forge.Job.Events.{task_completed, task_failed, executor_lost, cancel, reported_task}
use lakeforge.Forge.Job.Invariant.{JobIsValid}
use lakeforge.Forge.Job.Invariant.Tasks.{mark_running-IsValid, mark_pending-IsValid}
use lakeforge.Forge.Job.Invariant.Events.{task_completed-IsValid}
use lakeforge.Forge.Job.Invariant.Endings.{
  task_failed-IsValid, executor_lost-IsValid, cancel-IsValid,
}
use lakeforge.Forge.Job.Invariant.New.{new_job-IsValid}
use lakeforge.Forge.Job.Reports.{report_ignored}

-- A call of one of the operations that the scheduler makes, each at its time.
pub data JobEvent : Type 0 where
  launched : (stage partition attempt : ℕ) → String → ℕ → JobEvent
  taken_back : (stage partition attempt : ℕ) → JobEvent
  completed : TaskId → String → List ShufflePartitionLocation → Option TaskMetrics → ℕ → JobEvent
  failed : TaskId → String → ℕ → JobEvent
  lost : String → ℕ → JobEvent
  cancelled : ℕ → JobEvent

module _ {E : DataFusion} {C : Codec E} where
  unfoldable pub apply_event : JobState E C → JobEvent → JobState E C
  apply_event job (launched s p a e now) = mark_running job s p a e now
  apply_event job (taken_back s p a) = mark_pending job s p a
  apply_event job (completed id e outputs metrics now) =
      (task_completed job id e outputs metrics now).0
  apply_event job (failed id error now) = (task_failed job id error now).0
  apply_event job (lost e now) = (executor_lost job e now).0
  apply_event job (cancelled now) = (cancel job now).0

  unfoldable pub run_events : JobState E C → List JobEvent → JobState E C
  run_events job [] = job
  run_events job (ev ∷ evs) = run_events (apply_event job ev) evs

  pub apply_event-IsValid :
      (job : JobState E C) (ev : JobEvent) → JobIsValid job → JobIsValid (apply_event job ev)
  unfolding apply_event
  apply_event-IsValid job (launched s p a e now) v = mark_running-IsValid job s p a e now v
  apply_event-IsValid job (taken_back s p a) v = mark_pending-IsValid job s p a v
  apply_event-IsValid job (completed id e outputs metrics now) v =
      task_completed-IsValid job id e outputs metrics now v
  apply_event-IsValid job (failed id error now) v = task_failed-IsValid job id error now v
  apply_event-IsValid job (lost e now) v = executor_lost-IsValid job e now v
  apply_event-IsValid job (cancelled now) v = cancel-IsValid job now v

  pub run_events-IsValid :
      (job : JobState E C) (evs : List JobEvent) → JobIsValid job → JobIsValid (run_events job evs)
  unfolding run_events
  run_events-IsValid job [] v = v
  run_events-IsValid job (ev ∷ evs) v =
      run_events-IsValid (apply_event job ev) evs (apply_event-IsValid job ev v)

  -- When `JobState::new` makes a job, then after any operations on it, in any order, the job
  -- satisfies its invariant.
  pub new_job-run_events-IsValid :
      (job_id sql : String) (config : List (String × String)) (max_retries : ℕ)
      (stages : List (QueryStage E)) (schema : E.Schema) (now : ℕ) (job : JobState E C)
      (evs : List JobEvent)
      → new_job job_id sql config max_retries stages schema now ≡ ok job
      → JobIsValid (run_events job evs)
  new_job-run_events-IsValid job_id sql config max_retries stages schema now job evs h =
      run_events-IsValid job evs
        (new_job-IsValid job_id sql config max_retries stages schema now h).0

  -- Status and channel after an operation on a job that has ended.
  abbrev SameOutcome : JobState E C → JobState E C → Type 0
  SameOutcome a b = (b.status ≡ a.status) × (b.result_tx ≡ a.result_tx)

  mark_running-SameOutcome :
      (job : JobState E C) (s p a : ℕ) (e : String) (now : ℕ)
      → SameOutcome job (mark_running job s p a e now)
  unfolding mark_running
  mark_running-SameOutcome job s p a e now = ground arith

  mark_pending-SameOutcome :
      (job : JobState E C) (s p a : ℕ) → SameOutcome job (mark_pending job s p a)
  unfolding mark_pending
  mark_pending-SameOutcome job s p a = ground arith

  reported_task-ended :
      (job : JobState E C) (id : TaskId) → is_active job ≡ false → reported_task job id ≡ none
  unfolding reported_task
  reported_task-ended job id ended = rw ended

  ignored_outcome :
      (job : JobState E C) (id : TaskId) (e error : String)
      (outputs : List ShufflePartitionLocation) (metrics : Option TaskMetrics) (now : ℕ)
      → is_active job ≡ false
      → SameOutcome job (task_completed job id e outputs metrics now).0
        × SameOutcome job (task_failed job id error now).0
  ignored_outcome job id e error outputs metrics now ended =
      let (a, b) =
        report_ignored job id (reported_task-ended job id ended) e error outputs metrics now in
      rw (a, b) ((refl, refl), (refl, refl))

  lost_outcome :
      (job : JobState E C) (e : String) (now : ℕ)
      → is_active job ≡ false
      → SameOutcome job (executor_lost job e now).0
  unfolding executor_lost
  lost_outcome job e now ended = rw ended (refl, refl)

  cancel_outcome :
      (job : JobState E C) (now : ℕ) → is_active job ≡ false → SameOutcome job (cancel job now).0
  unfolding cancel
  cancel_outcome job now ended = rw ended (refl, refl)

  apply_event-SameOutcome :
      (job : JobState E C) (ev : JobEvent)
      → is_active job ≡ false
      → SameOutcome job (apply_event job ev)
  unfolding apply_event
  apply_event-SameOutcome job (launched s p a e now) ended =
      mark_running-SameOutcome job s p a e now
  apply_event-SameOutcome job (taken_back s p a) ended = mark_pending-SameOutcome job s p a
  apply_event-SameOutcome job (completed id e outputs metrics now) ended =
      (ignored_outcome job id e "" outputs metrics now ended).0
  apply_event-SameOutcome job (failed id error now) ended =
      (ignored_outcome job id "" error [] none now ended).1
  apply_event-SameOutcome job (lost e now) ended = lost_outcome job e now ended
  apply_event-SameOutcome job (cancelled now) ended = cancel_outcome job now ended

  -- Once a job has ended, no operation changes its status or the result that was sent.
  pub run_events_ended :
      (job : JobState E C) (evs : List JobEvent)
      → is_active job ≡ false
      → ((run_events job evs).status ≡ job.status)
        × ((run_events job evs).result_tx ≡ job.result_tx)
  unfolding run_events
  run_events_ended job [] ended = (refl, refl)
  run_events_ended job (ev ∷ evs) ended =
      let (status, tx) = apply_event-SameOutcome job ev ended in
      let (status', tx') =
        run_events_ended (apply_event job ev) evs (ap is_running_status status ∙ ended) in
      (status' ∙ status, tx' ∙ tx)
