-- ===== src/Forge/Job/Info.antt =====
-- What a job reports of itself: `progress`, `info` and `stage_infos` of
-- crates/forge-scheduler/src/job.rs.
use lakeforge.Prelude.{
  String, ◌+◌, some, List, [], ◌∷◌, length, map, u32, if◌then◌else◌, nat_eq, string_eq,
}
use lakeforge.Prelude.Assoc.{values}
use lakeforge.Forge.Proto.{QueryProgress, JobInfo, StageInfo}
use lakeforge.Forge.Plan.{DataFusion}
use lakeforge.Forge.Job.State.{
  Codec, stage_completed, JobStatus, StageState, JobState, counts, stage_info,
}

-- The state and the error that `info` reports.
abbrev pub job_status_text : JobStatus → String × String
job_status_text JobStatus.running = ("RUNNING", "")
job_status_text JobStatus.completed = ("COMPLETED", "")
job_status_text (JobStatus.failed e) = ("FAILED", e)
job_status_text JobStatus.cancelled = ("CANCELLED", "")

module _ {E : DataFusion} {C : Codec E} where
  -- The loop of `progress`, from the numbers so far.
  unfoldable pub progress_loop : List (StageState E C) → QueryProgress → QueryProgress
  progress_loop [] p = p
  progress_loop (st ∷ sts) p =
      let (c, r, f) = counts st in
      progress_loop sts (record p {
        completed_stages =
            if stage_completed st.status then u32 (p.completed_stages + 1) else p.completed_stages;
        total_tasks = u32 (p.total_tasks + u32 st.stage.num_tasks);
        completed_tasks = u32 (p.completed_tasks + c);
        running_tasks = u32 (p.running_tasks + r);
        failed_tasks = u32 (p.failed_tasks + f);
      })

  unfoldable pub progress : JobState E C → QueryProgress
  unfolding progress_loop
  progress job = progress_loop (values job.stages) (record {
    total_stages = u32 (length job.stages);
    completed_stages = 0;
    total_tasks = 0;
    completed_tasks = 0;
    running_tasks = 0;
    failed_tasks = 0;
  })

  unfoldable pub job_info : JobState E C → JobInfo
  job_info job =
      let (s, e) = job_status_text job.status in
      record {
        job_id = job.job_id;
        sql = job.sql;
        state = s;
        submitted_ms = job.submitted_ms;
        finished_ms = job.finished_ms;
        progress = some (progress job);
        error = e;
      }

  unfoldable pub stage_infos : JobState E C → List StageInfo
  stage_infos job = map stage_info (values job.stages)
