-- ===== src/Forge/Job/Counts.antt =====
-- The numbers that `StageState::counts` reports (crates/forge-scheduler/src/job.rs), beside
-- `is_complete`.
use lakeforge.Prelude.{
  ℕ, suc, ◌+◌, ◌≤◌, ◌<◌, ◌^◌, ◌≡◌, refl, ◌↔◌, true, List, [], ◌∷◌, arith, all, length, u32,
  if◌then◌else◌,
}
use lakeforge.Forge.Plan.{DataFusion}
use lakeforge.Forge.Job.State.{
  Codec, TaskState, TaskSlot, is_completed, StageState, is_complete, counts, count_task,
  count_tasks,
}

-- The tasks that are completed, counted without a machine word.
abbrev pub completed_count : List TaskSlot → ℕ
completed_count [] = 0
completed_count (t ∷ ts) =
    if is_completed t.state then suc (completed_count ts) else completed_count ts

completed_count-le : (ts : List TaskSlot) → completed_count ts ≤ length ts
completed_count-le [] = omega arith
completed_count-le (t ∷ ts) = ground (arith, completed_count-le ts)

completed_count-all :
    (ts : List TaskSlot)
    → (all (λ t. is_completed t.state) ts ≡ true) ↔ (completed_count ts ≡ length ts)
completed_count-all [] = (λ _. refl, λ _. refl)
completed_count-all (t ∷ ts) = ground (arith, completed_count-all ts, completed_count-le ts)

count_tasks_lem :
    (ts : List TaskSlot) (c r f : ℕ)
    → c + r + f + length ts < 2 ^ 32
    → ((count_tasks ts (c, r, f)).0 ≡ c + completed_count ts)
      × ((count_tasks ts (c, r, f)).0 + (count_tasks ts (c, r, f)).1 + (count_tasks ts (c, r, f)).2
          ≤ c + r + f + length ts)
unfolding count_tasks
count_tasks_lem [] c r f h = (omega arith, omega arith)
count_tasks_lem (t ∷ ts) c r f h =
    elim t.state
      as (λ s.
        ((count_tasks ts (count_task s (c, r, f))).0
          ≡ c + (if is_completed s then suc (completed_count ts) else completed_count ts))
        × ((count_tasks ts (count_task s (c, r, f))).0
              + (count_tasks ts (count_task s (c, r, f))).1
              + (count_tasks ts (count_task s (c, r, f))).2
            ≤ c + r + f + suc (length ts))) [
              | TaskState.pending ↦ omega (arith, count_tasks_lem ts c r f (omega (arith, h)))
              | TaskState.running e ↦
                  omega (arith, count_tasks_lem ts c (u32 (r + 1)) f (omega (arith, h)))
              | TaskState.completed e ↦
                  omega (arith, count_tasks_lem ts (u32 (c + 1)) r f (omega (arith, h)))
              | TaskState.failed e ↦
                  omega (arith, count_tasks_lem ts c r (u32 (f + 1)) (omega (arith, h)))
            ]

-- For a stage of fewer than 2 ^ 32 tasks, the counts of its tasks do not exceed their number, and
-- the completed ones are all of them exactly when the stage is complete.
pub counts_lem :
    {E : DataFusion} {C : Codec E} (st : StageState E C)
    → length st.tasks < 2 ^ 32
    → ((counts st).0 + (counts st).1 + (counts st).2 ≤ length st.tasks)
      × ((is_complete st ≡ true) ↔ ((counts st).0 ≡ length st.tasks))
unfolding counts
counts_lem st small =
    let (done, sum) = count_tasks_lem st.tasks 0 0 0 (omega (arith, small)) in
    let same : (counts st).0 ≡ completed_count st.tasks = omega (arith, done) in
    (omega (arith, sum), rw same (completed_count-all st.tasks))
