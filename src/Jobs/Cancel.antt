-- ===== src/Jobs/Cancel.antt =====
-- Cancellation of a run (crates/lakeforge-api/src/api/jobs.rs, `cancel_run`).
use lakeforge.Prelude.{
  ℕ, zero, suc, ◌≡◌, refl, ap, ◌∙◌, true, false, Option, none, some, List, [], ◌∷◌, map, All,
  get_elem?, if◌then◌else◌, Bool-cases, inl, inr,
}
use lakeforge.Jobs.Runs.{is_terminal, TaskRun, Run, RunState}
use lakeforge.Jobs.Repair.{cancel_task, cancel_run}

-- TERMINATED and CANCELED, by the user.
abbrev pub cancelled_state : RunState
cancelled_state = record {
  life_cycle_state = "TERMINATED";
  result_state = some "CANCELED";
  state_message = "Cancelled by user";
  user_cancelled_or_timedout = true;
}

cancel-ends : (now : ℕ) (t : TaskRun) → is_terminal (cancel_task now t).state ≡ true
cancel-ends now t = elim (Bool-cases (is_terminal t.state)) [
  | inl over ↦ rw over over
  | inr going ↦ rw going (unfold is_terminal in refl)
]

cancel_task-ended :
    (now : ℕ) (t : TaskRun)
    → cancel_task now t
      ≡ (if is_terminal t.state then t else record t { state = cancelled_state; end_time = now })
cancel_task-ended now t = elim (Bool-cases (is_terminal t.state)) [
  | inl over ↦ rw over refl
  | inr going ↦ rw going refl
]

cancel-All :
    (now : ℕ) (ts : List TaskRun)
    → All (λ (t : TaskRun). is_terminal t.state ≡ true) (map (cancel_task now) ts)
cancel-All now [] = tt
cancel-All now (t ∷ ts) = (cancel-ends now t, cancel-All now ts)

get_elem?-cancel :
    (now : ℕ) (ts : List TaskRun) (j : ℕ) (t : TaskRun)
    → get_elem? ts j ≡ some t
    → get_elem? (map (cancel_task now) ts) j ≡ some (cancel_task now t)
get_elem?-cancel now [] j t h = cc
get_elem?-cancel now (u ∷ ts) zero t h =
    ap
      (λ (o : Option TaskRun). elim o as (λ _. Option TaskRun) [
        | none ↦ none
        | some x ↦ some (cancel_task now x)
      ])
      h
get_elem?-cancel now (u ∷ ts) (suc j) t h = get_elem?-cancel now ts j t h

-- Cancelling a run that is active ends it as CANCELED and ends all its tasks: those that had ended
-- are as they were, the others are CANCELED from now on. A second cancellation changes nothing.
pub cancel_run_lem :
    (now later : ℕ) (run : Run)
    → is_terminal run.state ≡ false
    → ((cancel_run now run).state ≡ cancelled_state)
      × All (λ (t : TaskRun). is_terminal t.state ≡ true) (cancel_run now run).tasks
      × ((j : ℕ) (t : TaskRun)
          → get_elem? run.tasks j ≡ some t
          → get_elem? (cancel_run now run).tasks j
            ≡ some (
                if is_terminal t.state
                then t
                else record t { state = cancelled_state; end_time = now }))
      × (cancel_run later (cancel_run now run) ≡ cancel_run now run)
unfolding cancel_run
cancel_run_lem now later run active = rw active (
  refl,
  cancel-All now run.tasks,
  (λ j t h. get_elem?-cancel now run.tasks j t h ∙ ap some (cancel_task-ended now t)),
  (unfold is_terminal in refl),
)
