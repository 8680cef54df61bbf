-- ===== src/Forge/Job/Invariant/Events.antt =====
-- The invariant and the completion of a task (crates/forge-scheduler/src/job.rs).
use mathlib.Core.Path.{subst}
use lakeforge.Prelude.{
  ℕ, String, ◌≡◌, refl, sym, ◌∙◌, true, false, Option, some, List, arith, All, inl, inr, ◌==◌,
  nat_eq, nat_beq_iff, Bool-cases, Option-cases,
}
use lakeforge.Prelude.Assoc.{lookup}
use lakeforge.Forge.Proto.{ShufflePartitionLocation, TaskId, TaskMetrics, Result-cases}
use lakeforge.Forge.Plan.{DataFusion}
use lakeforge.Forge.Job.State.{Codec, TaskSlot, is_completed, JobStatus, open_channel, JobState}
use lakeforge.Forge.Job.Ops.{done_at, is_running_status, task_at, set_task, set_stage, prepare_all}
use lakeforge.Forge.Job.Events.{
  candidates, unblock_dependents, finish_ok, finish_err, stage_done, reported_task, completed_slot,
  task_completed, closed_stage, job_result,
}
use lakeforge.Forge.Job.Invariant.{
  StageIsValid, Answered, JobIsValid, StageIsValid-set_stage, done_at-set_stage, task_at-set_stage,
}
use lakeforge.Forge.Job.Invariant.Tasks.{set_task-IsValid}
use lakeforge.Forge.Job.Invariant.Prepare.{Prepared, Prepared-trans, prepare_all-Prepared}

pub is_running_status-eq : (s : JobStatus) → is_running_status s ≡ true → s ≡ JobStatus.running
is_running_status-eq s h = ground arith

module _ {E : DataFusion} {C : Codec E} where
  pub running_tx :
      (job : JobState E C)
      → JobIsValid job
      → job.status ≡ JobStatus.running
      → job.result_tx ≡ open_channel
  running_tx job v e = subst (λ s. Answered s job.result_tx) e v.answered

  pub running-IsValid :
      (job : JobState E C)
      → job.status ≡ JobStatus.running
      → job.result_tx ≡ open_channel
      → All StageIsValid job.stages
      → JobIsValid job
  running-IsValid job e tx stages = record {
    stages_valid = stages;
    answered = subst (λ s. Answered s job.result_tx) (sym e) tx;
    final_done = λ c. cc;
  }

  pub finish_err-IsValid :
      (job : JobState E C) (msg : String) (now : ℕ)
      → job.result_tx ≡ open_channel
      → All StageIsValid job.stages
      → JobIsValid (finish_err job msg now)
  unfolding finish_err
  finish_err-IsValid job msg now tx stages = record {
    stages_valid = stages;
    answered = rw tx refl;
    final_done = λ c. cc;
  }

  finish_ok-IsValid :
      (job : JobState E C) (now : ℕ)
      → job.result_tx ≡ open_channel
      → All StageIsValid job.stages
      → done_at job job.final_stage ≡ true
      → JobIsValid (finish_ok job now)
  unfolding finish_ok
  finish_ok-IsValid job now tx stages done =
      elim (Option-cases (lookup job.final_stage job.stages)) [
        | inl missing ↦ let never = rw missing at done in cc
        | inr (st, found) ↦
            rw (found, finish_ok)
              (record {
                stages_valid = stages;
                answered = (job_result job st now, rw tx refl);
                final_done = λ c. done;
              })
      ]

  pub close-Prepared :
      (job : JobState E C) (sid now : ℕ)
      → done_at job sid ≡ true
      → Prepared job (set_stage job sid (closed_stage now))
  close-Prepared job sid now done = record {
    status_same = refl;
    tx_same = refl;
    final_same = refl;
    stages_valid = StageIsValid-set_stage job sid (closed_stage now) λ st found v. record {
      keyed = v.keyed;
      sized = v.sized;
      numbered = v.numbered;
      completed_done = λ c. rw found at done;
    };
    tasks_same = λ s p. task_at-set_stage job sid s p (closed_stage now) (λ st. refl);
    done_stays = λ j. done_at-set_stage job sid j (closed_stage now) (λ st found h. h);
  }

  stage_done-IsValid :
      (job : JobState E C) (sid now : ℕ)
      → job.status ≡ JobStatus.running
      → JobIsValid job
      → done_at job sid ≡ true
      → JobIsValid (stage_done job sid now).0
  unfolding stage_done unblock_dependents
  stage_done-IsValid job sid now e v done =
      let closed = set_stage job sid (closed_stage now) in
      let closing = close-Prepared job sid now done in
      let sids : List ℕ = candidates closed sid in
      let opened = (prepare_all closed sids now).0 in
      let both = Prepared-trans closing (prepare_all-Prepared sids closed now) in
      let tx = both.tx_same ∙ running_tx job v e in
      let stages = both.stages_valid v.stages_valid in
      elim (Result-cases (prepare_all closed sids now).1) [
        | inr (m, failed) ↦
            rw (failed, stage_done) (running-IsValid opened (both.status_same ∙ e) tx stages)
        | inl (u, good) ↦
            rw (good, stage_done)
              (elim (Bool-cases (sid == job.final_stage)) [
                | inl last ↦
                    let final : sid ≡ opened.final_stage =
                      (nat_beq_iff sid job.final_stage).0 last ∙ sym both.final_same in
                    rw last (
                      finish_ok-IsValid opened now tx stages
                        (subst (λ k. done_at opened k ≡ true) final (both.done_stays sid done)))
                | inr other ↦ rw other (running-IsValid opened (both.status_same ∙ e) tx stages)
              ])
      ]

  -- What the guards of a report let through.
  pub record Reported (job : JobState E C) (id : TaskId) (t : TaskSlot) : Type 0 where
    pub active : job.status ≡ JobStatus.running
    pub found : task_at job id.stage_id id.partition_id ≡ some t
    pub same_attempt : t.attempt ≡ id.attempt
    pub unfinished : is_completed t.state ≡ false

  pub reported_task-Reported :
      (job : JobState E C) (id : TaskId) {t : TaskSlot}
      → reported_task job id ≡ some t
      → Reported job id t
  unfolding reported_task
  reported_task-Reported job id h = ground arith

  pub task_completed-IsValid :
      (job : JobState E C) (id : TaskId) (executor_id : String)
      (outputs : List ShufflePartitionLocation) (metrics : Option TaskMetrics) (now : ℕ)
      → JobIsValid job
      → JobIsValid (task_completed job id executor_id outputs metrics now).0
  unfolding task_completed
  task_completed-IsValid job id executor_id outputs metrics now v =
      elim (Option-cases (reported_task job id)) [
        | inl ignored ↦ rw (ignored, task_completed) v
        | inr (t, reported) ↦
            let guards = reported_task-Reported job id reported in
            let f = completed_slot executor_id outputs metrics now in
            let done = set_task job id.stage_id id.partition_id f in
            let valid : JobIsValid done =
              set_task-IsValid job id.stage_id id.partition_id f guards.found (λ c. refl)
                (λ x. refl) v in
            rw (reported, task_completed)
              (elim (Bool-cases (done_at done id.stage_id)) [
                | inl full ↦
                    rw full (stage_done-IsValid done id.stage_id now guards.active valid full)
                | inr more ↦ rw more valid
              ])
      ]
