-- ===== src/Forge/Job/Launches.antt =====
-- A launch that an executor rejects (crates/forge-scheduler/src/job.rs: `mark_running` and
-- `mark_pending`).
use lakeforge.Prelude.{ℕ, String, ◌≡◌, refl, true, some, nat_eq, nat_beq_iff, ap, sym, ◌∙◌}
use lakeforge.Forge.Plan.{DataFusion}
use lakeforge.Forge.Job.State.{Codec, TaskState, TaskSlot, JobState, is_pending, is_running}
use lakeforge.Forge.Job.Ops.{
  task_at, set_task, mark_running, mark_pending, running_slot, pending_slot,
}
use lakeforge.Forge.Job.Reports.{task_at-set_task}

module _ {E : DataFusion} {C : Codec E} where
  mark_running-set_task :
      (job : JobState E C) (sid p attempt : ℕ) (e : String) (now : ℕ) (t : TaskSlot)
      → task_at job sid p ≡ some t
      → t.attempt ≡ attempt
      → is_pending t.state ≡ true
      → mark_running job sid p attempt e now ≡ set_task job sid p (running_slot e now)
  unfolding mark_running
  mark_running-set_task job sid p attempt e now t found same waiting =
      rw (mark_running, found) (rw ((nat_beq_iff t.attempt attempt).1 same) (rw waiting refl))

  mark_pending-set_task :
      (job : JobState E C) (sid p attempt : ℕ) (t : TaskSlot)
      → task_at job sid p ≡ some t
      → t.attempt ≡ attempt
      → is_running t.state ≡ true
      → mark_pending job sid p attempt ≡ set_task job sid p pending_slot
  unfolding mark_pending
  mark_pending-set_task job sid p attempt t found same runs =
      rw (mark_pending, found) (rw ((nat_beq_iff t.attempt attempt).1 same) (rw runs refl))

  -- A pending task that is launched, and whose launch is taken back, is pending again, as the same
  -- attempt: only its start time has changed.
  pub mark_pending-mark_running :
      (job : JobState E C) (sid p attempt : ℕ) (e : String) (now : ℕ) (t : TaskSlot)
      → task_at job sid p ≡ some t
      → t.attempt ≡ attempt
      → t.state ≡ TaskState.pending
      → task_at (mark_pending (mark_running job sid p attempt e now) sid p attempt) sid p
        ≡ some (record t { started_ms = now })
  mark_pending-mark_running job sid p attempt e now t found same waiting =
      let launched = running_slot e now t in
      let first =
        mark_running-set_task job sid p attempt e now t found same (ap is_pending waiting) in
      let during : task_at (set_task job sid p (running_slot e now)) sid p ≡ some launched =
        task_at-set_task job sid p (running_slot e now) found in
      let after = set_task job sid p (running_slot e now) in
      rw first (
        rw (mark_pending-set_task after sid p attempt launched during same refl) (
          task_at-set_task after sid p pending_slot during
          ∙ ap (λ s. some (record t { state = s; started_ms = now })) (sym waiting)))
