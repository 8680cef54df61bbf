-- ===== src/Jobs/Endings.antt =====
-- How the execution of a run ends (crates/lakeforge-api/src/api/jobs.rs, `execute_run_inner` and
-- `spawn_run`).
use lakeforge.Prelude.{
  ℕ, zero, suc, ◌≤◌, ◌<◌, ◌≡◌, refl, String, string_eq, Bool, true, false, ◌⊎◌, List, [], ◌∷◌, any,
  All, length, Bool-cases, inl, inr, arith,
}
use lakeforge.Jobs.Runs.{is_terminal, TaskRun, Run, has_result}
use lakeforge.Jobs.Batch.{Services, Loop}
use lakeforge.Jobs.Execute.{
  Round, Turn, again, stop, fault, turn, Execution, finished, failed_internally, unfinished, loop,
  execute_run, begin, result_of, has_failed, follow,
}
use lakeforge.Jobs.Ended.{open_tasks}
use lakeforge.Jobs.Progress.{tasks_of}
use lakeforge.Jobs.Termination.{IsJoining, turn-progress, turn-stop}

Turn-cases :
    (t : Turn)
    → ((l : Loop) × (t ≡ again l))
      ⊎ (((b : Bool) × (r : Run) × (t ≡ stop b r)) ⊎ ((e : String) × (l : Loop) × (t ≡ fault e l)))
Turn-cases (again l) = inl (l, refl)
Turn-cases (stop b r) = inr (inl (b, r, refl))
Turn-cases (fault e l) = inr (inr (e, l, refl))

result_of-terminal : (b : Bool) (ts : List TaskRun) → is_terminal (result_of b ts) ≡ true
unfolding result_of is_terminal
result_of-terminal true ts = refl
result_of-terminal false ts =
    elim (Bool-cases (any (λ (t : TaskRun). has_result "CANCELED" t.state) ts)) [
      | inl c ↦ rw c refl
      | inr c ↦ elim (Bool-cases (any has_failed ts)) [
        | inl f ↦ rw (c, f) refl
        | inr f ↦ rw (c, f) refl
      ]
    ]

-- A run that is finished is terminal, and so are its tasks; an execution that is unfinished has not
-- ended.
abbrev pub Ends : Execution → Type 0
Ends (finished run) =
    (is_terminal run.state ≡ true) × All (λ (t : TaskRun). is_terminal t.state ≡ true) run.tasks
Ends (failed_internally e run) = Unit
Ends unfinished = ⊥

module _ (sv : Services) (env : ℕ → Round) (joining : (k : ℕ) → IsJoining (env k)) where
  loop_ends : (fuel k : ℕ) (l : Loop) → open_tasks (tasks_of l) < fuel → Ends (loop sv env fuel k l)
  unfolding loop follow
  loop_ends zero k l h = absurd (omega arith)
  loop_ends (suc fuel) k l h = elim (Turn-cases (turn sv (env k) l)) [
    | inl (next, e) ↦
        let less = turn-progress sv (env k) l next (joining k) e in
        rw e (loop_ends fuel (suc k) next (omega arith))
    | inr (inl (b, run, e)) ↦ rw e (result_of-terminal b run.tasks, turn-stop sv (env k) l b run e)
    | inr (inr (m, next, e)) ↦ rw e tt
  ]

open_tasks-bound : (ts : List TaskRun) → open_tasks ts ≤ length ts
open_tasks-bound [] = omega arith
open_tasks-bound (t ∷ ts) = let rest = open_tasks-bound ts in ground arith

-- With a round more than the run has tasks, and batches whose tasks all join, the execution of a run
-- ends: by an error of the cluster API, or with the run and all its tasks terminal.
pub execute_run_ends :
    (sv : Services) (env : ℕ → Round) (fuel now : ℕ) (run : Run)
    → ((k : ℕ) → IsJoining (env k))
    → length run.tasks < fuel
    → Ends (execute_run sv env fuel now run)
unfolding execute_run
execute_run_ends sv env fuel now run joining h =
    let bound = open_tasks-bound run.tasks in
    loop_ends sv env joining fuel 0 (begin now run) (omega arith)
