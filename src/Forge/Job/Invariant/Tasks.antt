-- ===== src/Forge/Job/Invariant/Tasks.antt =====
-- The invariant and the launch of a task (crates/forge-scheduler/src/job.rs).
use lakeforge.Prelude.{
  ℕ, String, ◌≡◌, refl, true, ◌&&◌, some, arith, ◌==◌, nat_eq, Option-cases, inl, inr, if_ind,
}
use lakeforge.Forge.Plan.{DataFusion}
use lakeforge.Forge.Job.State.{Codec, TaskSlot, is_completed, is_pending, is_running, JobState}
use lakeforge.Forge.Job.Ops.{
  task_at, set_task, mark_running, mark_pending, running_slot, pending_slot,
}
use lakeforge.Forge.Job.Invariant.{JobIsValid, done_at-set_task, stages_valid-set_task}

module _ {E : DataFusion} {C : Codec E} where
  -- A write to a task that is not completed.
  pub set_task-IsValid :
      (job : JobState E C) (sid p : ℕ) (f : TaskSlot → TaskSlot) {t : TaskSlot}
      → task_at job sid p ≡ some t
      → (is_completed t.state ≡ true → is_completed (f t).state ≡ true)
      → ((x : TaskSlot) → (f x).partition ≡ x.partition)
      → JobIsValid job
      → JobIsValid (set_task job sid p f)
  set_task-IsValid job sid p f found stays same v = record {
    stages_valid = stages_valid-set_task job sid p f found stays same v.stages_valid;
    answered = v.answered;
    final_done = λ c. done_at-set_task job sid p f found stays job.final_stage (v.final_done c);
  }

  pub mark_running-IsValid :
      (job : JobState E C) (sid p attempt : ℕ) (executor_id : String) (now : ℕ)
      → JobIsValid job
      → JobIsValid (mark_running job sid p attempt executor_id now)
  unfolding mark_running
  mark_running-IsValid job sid p attempt executor_id now v =
      elim (Option-cases (task_at job sid p)) [
        | inl missing ↦ rw (missing, mark_running) v
        | inr (t, found) ↦
            rw (found, mark_running)
              (if_ind JobIsValid (t.attempt == attempt && is_pending t.state)
                (set_task job sid p (running_slot executor_id now)) job
                (λ test.
                  set_task-IsValid job sid p (running_slot executor_id now) found
                    (λ c. ground arith) (λ x. refl) v)
                (λ _. v))
      ]

  pub mark_pending-IsValid :
      (job : JobState E C) (sid p attempt : ℕ)
      → JobIsValid job
      → JobIsValid (mark_pending job sid p attempt)
  unfolding mark_pending
  mark_pending-IsValid job sid p attempt v = elim (Option-cases (task_at job sid p)) [
    | inl missing ↦ rw (missing, mark_pending) v
    | inr (t, found) ↦
        rw (found, mark_pending)
          (if_ind JobIsValid (t.attempt == attempt && is_running t.state)
            (set_task job sid p pending_slot) job
            (λ test.
              set_task-IsValid job sid p pending_slot found (λ c. ground arith) (λ x. refl) v)
            (λ _. v))
  ]
