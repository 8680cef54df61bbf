-- ===== src/Forge/Job/Invariant/Endings.antt =====
-- The invariant and the endings of a job: failure of a task, loss of an executor, cancellation
-- (crates/forge-scheduler/src/job.rs).
use lakeforge.Prelude.{
  ℕ, String, ◌≡◌, refl, ◌∙◌, true, List, [], ◌∷◌, arith, All, inl, inr, nat_eq, Bool-cases,
  Option-cases, ltb, length-map, map, all,
}
use lakeforge.Prelude.Assoc.{Assoc}
use lakeforge.Forge.Proto.{TaskId}
use lakeforge.Forge.Plan.{DataFusion}
use lakeforge.Forge.Job.State.{Codec, TaskSlot, is_completed, StageState, JobState}
use lakeforge.Forge.Job.Ops.{is_active, set_task, set_stage, requeue_on, retried_slot, failed_slot}
use lakeforge.Forge.Job.Events.{
  reported_task, task_failed, failed_stage, requeue_stage, map_stages, lost_outputs, executor_lost,
  cancel,
}
use lakeforge.Forge.Job.Invariant.{StageIsValid, JobIsValid, NumberedFrom, StageIsValid-set_stage}
use lakeforge.Forge.Job.Invariant.Tasks.{set_task-IsValid}
use lakeforge.Forge.Job.Invariant.Events.{
  running_tx, running-IsValid, finish_err-IsValid, reported_task-Reported, is_running_status-eq,
}

requeue_on-completed :
    (e : String) (t : TaskSlot)
    → is_completed t.state ≡ true
    → is_completed (requeue_on e t).state ≡ true
requeue_on-completed e t h = ground arith

all-requeue :
    (e : String) (ts : List TaskSlot)
    → all (λ t. is_completed t.state) ts ≡ true
    → all (λ t. is_completed t.state) (map (requeue_on e) ts) ≡ true
all-requeue e [] h = refl
all-requeue e (t ∷ ts) h = ground (arith, requeue_on-completed e t, all-requeue e ts)

NumberedFrom-requeue :
    (e : String) (k : ℕ) (ts : List TaskSlot)
    → NumberedFrom k ts
    → NumberedFrom k (map (requeue_on e) ts)
NumberedFrom-requeue e k [] h = tt
NumberedFrom-requeue e k (t ∷ ts) h = (ground arith, NumberedFrom-requeue e _ ts h.1)

module _ {E : DataFusion} {C : Codec E} where
  failed_stage-valid :
      (job : JobState E C) (sid now : ℕ)
      → All StageIsValid job.stages
      → All StageIsValid (set_stage job sid (failed_stage now)).stages
  failed_stage-valid job sid now = StageIsValid-set_stage job sid (failed_stage now) λ st found v.
      record { keyed = v.keyed; sized = v.sized; numbered = v.numbered; completed_done = λ c. cc }

  pub task_failed-IsValid :
      (job : JobState E C) (id : TaskId) (error : String) (now : ℕ)
      → JobIsValid job
      → JobIsValid (task_failed job id error now).0
  unfolding task_failed
  task_failed-IsValid job id error now v = elim (Option-cases (reported_task job id)) [
    | inl ignored ↦ rw (ignored, task_failed) v
    | inr (t, reported) ↦
        let guards = reported_task-Reported job id reported in
        rw (reported, task_failed)
          (elim (Bool-cases (ltb t.attempt job.max_retries)) [
            | inl again ↦ rw again (
                set_task-IsValid job id.stage_id id.partition_id retried_slot guards.found
                  (λ c. cc (guards.unfinished)) (λ x. refl) v)
            | inr over ↦
                let f = failed_slot error in
                let marked = set_task job id.stage_id id.partition_id f in
                let valid =
                  set_task-IsValid job id.stage_id id.partition_id f guards.found
                    (λ c. cc (guards.unfinished)) (λ x. refl) v in
                rw over (
                  finish_err-IsValid (set_stage marked id.stage_id (failed_stage now)) _ now
                    (running_tx job v guards.active)
                    (failed_stage-valid marked id.stage_id now valid.stages_valid))
          ])
  ]

  requeued-valid :
      (e : String) (m : Assoc ℕ (StageState E C))
      → All StageIsValid m
      → All StageIsValid (map_stages (requeue_stage e) m)
  requeued-valid e [] v = tt
  requeued-valid e ((k, st) ∷ m) v = (
    record {
      keyed = v.0.keyed;
      sized = length-map st.tasks (requeue_on e) ∙ v.0.sized;
      numbered = NumberedFrom-requeue e 0 st.tasks v.0.numbered;
      completed_done = λ c. all-requeue e st.tasks (v.0.completed_done c);
    },
    requeued-valid e m v.1,
  )

  pub executor_lost-IsValid :
      (job : JobState E C) (executor_id : String) (now : ℕ)
      → JobIsValid job
      → JobIsValid (executor_lost job executor_id now).0
  unfolding executor_lost
  executor_lost-IsValid job e now v = elim (Bool-cases (is_active job)) [
    | inr ended ↦ rw ended v
    | inl active ↦
        let running = is_running_status-eq job.status active in
        let tx = running_tx job v running in
        let stages = requeued-valid e job.stages v.stages_valid in
        rw active (elim (Bool-cases (lost_outputs e job)) [
          | inl lost ↦ rw lost (finish_err-IsValid _ _ now tx stages)
          | inr kept ↦ rw kept (running-IsValid _ running tx stages)
        ])
  ]

  pub cancel-IsValid :
      (job : JobState E C) (now : ℕ) → JobIsValid job → JobIsValid (cancel job now).0
  unfolding cancel
  cancel-IsValid job now v = elim (Bool-cases (is_active job)) [
    | inr ended ↦ rw ended v
    | inl active ↦
        let tx = running_tx job v (is_running_status-eq job.status active) in
        rw active
          (record { stages_valid = v.stages_valid; answered = rw tx refl; final_done = λ c. cc })
  ]
