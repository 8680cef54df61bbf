-- ===== src/Forge/Job/ErrorPath.antt =====
-- What becomes of an error in `task_completed`: scheduler.rs hands it to `task_failed`.
use lakeforge.Prelude.{
  ℕ, String, ◌≡◌, refl, ◌∙◌, true, Option, List, inl, inr, Bool-cases, Option-cases, ◌==◌, nat_eq,
}
use lakeforge.Forge.Proto.{
  ShufflePartitionLocation, TaskId, TaskMetrics, ForgeError, err, Result-cases,
}
use lakeforge.Forge.Plan.{DataFusion}
use lakeforge.Forge.Job.State.{Codec, JobStatus, JobState, default_transition}
use lakeforge.Forge.Job.Ops.{set_task, set_stage, done_at, prepare_all}
use lakeforge.Forge.Job.Events.{
  task_completed, task_failed, reported_task, stage_done, unblock_dependents, candidates,
  closed_stage, completed_slot,
}
use lakeforge.Forge.Job.Invariant.Prepare.{Prepared, Prepared-trans, prepare_all-Prepared}
use lakeforge.Forge.Job.Invariant.Events.{close-Prepared, reported_task-Reported}
use lakeforge.Forge.Job.Reports.{report_ignored, reported_task-IsStale, task_at-set_task}

module _ {E : DataFusion} {C : Codec E} where
  stage_done-Prepared :
      (job : JobState E C) (sid now : ℕ) {m : ForgeError}
      → done_at job sid ≡ true
      → (stage_done job sid now).1 ≡ err m
      → Prepared job (stage_done job sid now).0
  unfolding stage_done unblock_dependents
  stage_done-Prepared job sid now done failed =
      let closed = set_stage job sid (closed_stage now) in
      let sids : List ℕ = candidates closed sid in
      let both =
        Prepared-trans (close-Prepared job sid now done) (prepare_all-Prepared sids closed now) in
      elim (Result-cases (prepare_all closed sids now).1) [
        | inr (m, e) ↦ rw (e, stage_done) both
        | inl (u, e) ↦ elim (Bool-cases (sid == job.final_stage)) [
          | inl last ↦
              let never = rw (e, stage_done) at failed in let never' = rw last at never in cc
          | inr other ↦
              let never = rw (e, stage_done) at failed in let never' = rw other at never in cc
        ]
      ]

  -- When `task_completed` returns an error, the job that it leaves is running, and a call of
  -- `task_failed` for the same task, whatever its message, changes nothing and asks for
  -- nothing.
  pub resolve_error_lost :
      (job : JobState E C) (id : TaskId) (executor_id error : String)
      (outputs : List ShufflePartitionLocation) (metrics : Option TaskMetrics) (now later : ℕ)
      {m : ForgeError}
      → (task_completed job id executor_id outputs metrics now).1 ≡ err m
      → let job' = (task_completed job id executor_id outputs metrics now).0 in
        (task_failed job' id error later ≡ (job', default_transition))
        × (job'.status ≡ JobStatus.running)
  unfolding task_completed
  resolve_error_lost job id executor_id error outputs metrics now later h =
      elim (Option-cases (reported_task job id)) [
        | inl ignored ↦ let never = rw (ignored, task_completed) at h in cc
        | inr (t, reported) ↦
            let guards = reported_task-Reported job id reported in
            let f = completed_slot executor_id outputs metrics now in
            let done = set_task job id.stage_id id.partition_id f in
            elim (Bool-cases (done_at done id.stage_id)) [
              | inr more ↦
                  let never = rw (reported, task_completed) at h in
                  let never' = rw more at never in cc
              | inl full ↦
                  let h' = rw (reported, task_completed) at h in
                  let h'' = rw full at h' in
                  let kept = stage_done-Prepared done id.stage_id now full h'' in
                  let there =
                    kept.tasks_same id.stage_id id.partition_id
                    ∙ task_at-set_task job id.stage_id id.partition_id f guards.found in
                  rw (reported, task_completed)
                    (rw full (
                      (report_ignored (stage_done done id.stage_id now).0 id
                          (reported_task-IsStale (stage_done done id.stage_id now).0 id
                            (inr (inr (f t, there, inr refl))))
                          executor_id error outputs metrics later).1,
                      kept.status_same ∙ guards.active,
                    ))
            ]
      ]
