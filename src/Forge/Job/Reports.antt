-- ===== src/Forge/Job/Reports.antt =====
-- Reports on one task: repeated ones, and failures with their retries (crates/forge-
-- scheduler/src/job.rs).
use lakeforge.Prelude.{
  ℕ, zero, suc, String, ◌+◌, ◌≤◌, ◌<◌, ◌^◌, ◌≡◌, ◌≢◌, ◌⊎◌, refl, sym, ◌∙◌, ap, true, false, Option,
  none, some, List, arith, inl, inr, Option-cases, nat_eq, ltb, lt→ltb, get_elem?, modify_at,
  get_elem?-modify_at, nat_beq_self, u32, Bool-cases,
}
use lakeforge.Prelude.Assoc.{lookup, lookup-modify}
use lakeforge.Forge.Proto.{ShufflePartitionLocation, TaskId, TaskMetrics, ok}
use lakeforge.Forge.Plan.{DataFusion}
use lakeforge.Forge.Job.State.{
  Codec, TaskSlot, is_completed, JobStatus, StageState, JobState, default_transition, Transition,
}
use lakeforge.Forge.Job.Ops.{is_active, task_at, set_task, retried_slot}
use lakeforge.Forge.Job.Events.{
  task_completed, task_failed, reported_task, finish_err, failure_text,
}
use mathlib.Core.Path.{subst}

-- The report of one attempt of a task.
abbrev pub attempt_of : TaskId → ℕ → TaskId
attempt_of id a = record id { attempt = a }

next_attempt : (a b : ℕ) → a ≡ b → u32 (a + 1) ≢ b
next_attempt a b same again = absurd (omega arith)

module _ {E : DataFusion} {C : Codec E} where
  pub report_ignored :
      (job : JobState E C) (id : TaskId)
      → reported_task job id ≡ none
      → (e error : String) (outputs : List ShufflePartitionLocation) (metrics : Option TaskMetrics)
        (now : ℕ)
      → (task_completed job id e outputs metrics now ≡ (job, ok default_transition))
        × (task_failed job id error now ≡ (job, default_transition))
  unfolding task_completed task_failed
  report_ignored job id h e error outputs metrics now =
      (rw (h, task_completed), rw (h, task_failed))

  -- A report that comes too late: the job has ended, the task is unknown, the report is of another
  -- attempt, or the task is completed.
  abbrev pub IsStale : JobState E C → TaskId → Type 0
  IsStale job id =
      (is_active job ≡ false)
      ⊎ (task_at job id.stage_id id.partition_id ≡ none)
      ⊎ ((t : TaskSlot) × (task_at job id.stage_id id.partition_id ≡ some t)
          × ((t.attempt ≢ id.attempt) ⊎ (is_completed t.state ≡ true)))

  pub reported_task-IsStale :
      (job : JobState E C) (id : TaskId) → IsStale job id → reported_task job id ≡ none
  unfolding reported_task
  reported_task-IsStale job id h = ground arith

  pub task_at-set_task :
      (job : JobState E C) (sid p : ℕ) (f : TaskSlot → TaskSlot) {t : TaskSlot}
      → task_at job sid p ≡ some t
      → task_at (set_task job sid p f) sid p ≡ some (f t)
  task_at-set_task job sid p f {t} found = elim (Option-cases (lookup sid job.stages)) [
    | inl missing ↦ let never = rw missing at found in cc
    | inr (st, at_sid) ↦
        let here : get_elem? st.tasks p ≡ some t = rw at_sid at found in
        let self = nat_beq_self sid in
        let written =
          lookup-modify sid sid (λ (x : StageState E C). record x { tasks = modify_at x.tasks p f })
            job.stages in
        rw written
          (rw (self, at_sid) (rw (get_elem?-modify_at st.tasks p p f here) (rw (nat_beq_self p))))
  ]

  reported_task-found :
      (job : JobState E C) (id : TaskId) (t : TaskSlot)
      → reported_task job id ≡ some t
      → (task_at job id.stage_id id.partition_id ≡ some t) × (t.attempt ≡ id.attempt)
  unfolding reported_task
  reported_task-found job id t h = ground arith

  retried :
      (job : JobState E C) (id : TaskId) (error : String) (now : ℕ) (t : TaskSlot)
      → reported_task job id ≡ some t
      → ltb t.attempt job.max_retries ≡ true
      → (task_failed job id error now).0 ≡ set_task job id.stage_id id.partition_id retried_slot
  unfolding task_failed
  retried job id error now t current left = rw (current, task_failed) (rw left refl)

  given_up :
      (job : JobState E C) (id : TaskId) (error : String) (now : ℕ) (t : TaskSlot)
      → reported_task job id ≡ some t
      → ltb t.attempt job.max_retries ≡ false
      → (task_failed job id error now).0.status ≡ JobStatus.failed (failure_text id error)
  unfolding task_failed finish_err
  given_up job id error now t current over = rw (current, task_failed) (rw over refl)

  once_reported :
      (job : JobState E C) (id : TaskId) (error : String) (now : ℕ) (t : TaskSlot)
      → reported_task job id ≡ some t
      → reported_task (task_failed job id error now).0 id ≡ none
  once_reported job id error now t current =
      let (found, same) = reported_task-found job id t current in
      let ended = (task_failed job id error now).0 in
      reported_task-IsStale ended id (elim (Bool-cases (ltb t.attempt job.max_retries)) [
        | inl left ↦ inr (
            inr (
              retried_slot t,
              ap (λ (j : JobState E C). task_at j id.stage_id id.partition_id)
                    (retried job id error now t current left)
                  ∙ task_at-set_task job id.stage_id id.partition_id retried_slot found,
              inl (next_attempt t.attempt id.attempt same),
            ))
        | inr over ↦ inl (rw (given_up job id error now t current over) refl)
      ])

  -- A failure that is reported counts once: after it, another report of the same attempt, of failure
  -- or of completion, changes nothing and asks for nothing.
  pub failure_counts_once :
      (job : JobState E C) (id : TaskId) (error e error' : String)
      (outputs : List ShufflePartitionLocation) (metrics : Option TaskMetrics) (now later : ℕ)
      → (task_failed (task_failed job id error now).0 id error' later
          ≡ ((task_failed job id error now).0, default_transition))
        × (task_completed (task_failed job id error now).0 id e outputs metrics later
            ≡ ((task_failed job id error now).0, ok default_transition))
  failure_counts_once job id error e error' outputs metrics now later =
      let (c, f) =
        report_ignored (task_failed job id error now).0 id
          (elim (Option-cases (reported_task job id)) [
            | inl late ↦
                ap (λ (r : JobState E C × Transition). reported_task r.0 id)
                  (report_ignored job id late e error outputs metrics now).1
                ∙ late
            | inr (t, current) ↦ once_reported job id error now t current
          ])
          e error' outputs metrics later in
      (f, c)

  -- The reports of `count` attempts from `start` on.
  unfoldable pub fail_attempts : JobState E C → TaskId → String → ℕ → ℕ → ℕ → JobState E C
  fail_attempts job id error now start zero = job
  fail_attempts job id error now start (suc count) =
      fail_attempts (task_failed job (attempt_of id start) error now).0 id error now (suc start)
        count

  reported_task-current :
      (job : JobState E C) (id : TaskId) {t : TaskSlot}
      → is_active job ≡ true
      → task_at job id.stage_id id.partition_id ≡ some t
      → t.attempt ≡ id.attempt
      → is_completed t.state ≡ false
      → reported_task job id ≡ some t
  unfolding reported_task
  reported_task-current job id active found same open_task = ground arith

  module _ (job : JobState E C) (id : TaskId) (error : String) (now : ℕ) {t : TaskSlot}
      (active : is_active job ≡ true) (found : task_at job id.stage_id id.partition_id ≡ some t)
      (same : t.attempt ≡ id.attempt) (unfinished : is_completed t.state ≡ false) where
    task_failed_retried :
        t.attempt < job.max_retries
        → (task_failed job id error now).0 ≡ set_task job id.stage_id id.partition_id retried_slot
    unfolding task_failed
    task_failed_retried left =
        rw (reported_task-current job id active found same unfinished, task_failed)
          (rw (lt→ltb t.attempt job.max_retries left))

    task_failed_exhausted :
        job.max_retries ≤ t.attempt
        → (task_failed job id error now).0.status ≡ JobStatus.failed (failure_text id error)
    unfolding task_failed finish_err
    task_failed_exhausted over =
        let never : ltb t.attempt job.max_retries ≡ false = ground arith in
        rw (reported_task-current job id active found same unfinished, task_failed) (rw never)

  -- In a running job with `max_retries` below 2 ^ 32, take a task that is not completed, at an
  -- attempt `a` of at most `max_retries`. After failures of the attempts from `a` up to the one
  -- before `max_retries` the job runs, and the next failure fails it, with the number of that
  -- attempt in the message.
  pub retries_exhausted :
      (k : ℕ) (job : JobState E C) (id : TaskId) (error : String) (now a : ℕ) {t : TaskSlot}
      → job.status ≡ JobStatus.running
      → task_at job id.stage_id id.partition_id ≡ some t
      → t.attempt ≡ a
      → is_completed t.state ≡ false
      → a + k ≡ job.max_retries
      → job.max_retries < 2 ^ 32
      → ((fail_attempts job id error now a k).status ≡ JobStatus.running)
        × ((fail_attempts job id error now a (suc k)).status
            ≡ JobStatus.failed (failure_text (attempt_of id job.max_retries) error))
  unfolding fail_attempts
  retries_exhausted zero job id error now a running found same open_task total small =
      let active : is_active job ≡ true = rw running refl in
      let last : a ≡ job.max_retries = omega arith in
      (
        running,
        task_failed_exhausted job (attempt_of id a) error now active found same open_task
              (omega arith)
            ∙ ap (λ m. JobStatus.failed (failure_text (attempt_of id m) error)) last,
      )
  retries_exhausted (suc k) job id error now a {t} running found same open_task total small =
      let active : is_active job ≡ true = rw running refl in
      let next =
        task_failed_retried job (attempt_of id a) error now active found same open_task
          (omega arith) in
      let after = set_task job id.stage_id id.partition_id retried_slot in
      subst
        (λ (j : JobState E C).
          ((fail_attempts j id error now (suc a) k).status ≡ JobStatus.running)
          × ((fail_attempts j id error now (suc a) (suc k)).status
              ≡ JobStatus.failed (failure_text (attempt_of id job.max_retries) error)))
        (sym next)
        (retries_exhausted k after id error now (suc a) {t = retried_slot t} running
          (task_at-set_task job id.stage_id id.partition_id retried_slot found) (omega arith) refl
          (omega arith) small)
