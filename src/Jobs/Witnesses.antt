-- ===== src/Jobs/Witnesses.antt =====
-- The theorems about runs and job settings at concrete inputs
-- (crates/lakeforge-api/src/api/jobs.rs).
use lakeforge.Prelude.{
  ℕ, zero, suc, ◌≡◌, ◌≢◌, refl, String, string_eq, true, false, some, List, [], ◌∷◌, map, All,
  get_elem?, if◌then◌else◌, ◌≤◌, ◌<◌, arith, Option, none,
}
use lakeforge.Prelude.Assoc.{lookup}
use lakeforge.Uc.Names.{Name, codes, trim}
use lakeforge.Jobs.Runs.{RunState, TaskRun, TaskEnd, succeeded, failed, end_state, is_terminal}
use lakeforge.Jobs.Batch.{given, retries_after, attempts}
use lakeforge.Jobs.Execute.{execute_run}
use lakeforge.Jobs.Repair.{
  RepairBody, TaskSettings, cancel_run, close_dependents, validate_settings, collect_keys,
  check_tasks, check_dependencies,
}
use lakeforge.Jobs.Endings.{Ends, execute_run_ends}
use lakeforge.Jobs.Rounds.{Reached, at_start, next_round, started_in_order}
use lakeforge.Jobs.Dependents.{IsClosure, close_dependents_lem}
use lakeforge.Jobs.Attempts.{attempts_lem}
use lakeforge.Jobs.Cancel.{cancel_run_lem, cancelled_state}
use lakeforge.Jobs.Validation.{IsDistinct, HasKnown, validate_settings_sound, IsScheduled}
use lakeforge.Jobs.Samples.{
  services, sql_def, needs, two_tasks, good_round, good-joins, good-batch, start, both_done,
  first_turn, second_turn, loaded, both_done-load,
}

execute_run_ends_example : Ends (execute_run services (λ _. good_round) 3 10 two_tasks)
execute_run_ends_example =
    execute_run_ends services (λ _. good_round) 3 10 two_tasks (λ _. good-joins) (omega arith)

two_rounds : Reached services start both_done
two_rounds =
    next_round (next_round at_start good_round good-batch first_turn) good_round good-batch
      second_turn

loaded_started : loaded.state.life_cycle_state ≢ "PENDING"
unfolding end_state
loaded_started h = cc ((string_eq.same_iff "TERMINATED" "PENDING").1 h)

started_in_order_example :
    (s : RunState) × (lookup "extract" both_done.done ≡ some s) × (is_terminal s ≡ true)
started_in_order_example =
    started_in_order services 10 two_tasks both_done 1 loaded "extract" (refl, (refl, tt))
      two_rounds both_done-load loaded_started refl

close_dependents_lem_example :
    (out : List String) × (close_dependents 3 two_tasks.tasks ("extract" ∷ []) ≡ some out)
    × IsClosure two_tasks.tasks ("extract" ∷ []) out
close_dependents_lem_example = close_dependents_lem 3 two_tasks.tasks ("extract" ∷ []) (omega arith)

abbrev rerun_failed : RepairBody
rerun_failed = record {
  rerun_tasks = [];
  rerun_all_failed_tasks = true;
  rerun_dependent_tasks = false;
}

abbrev flaky : ℕ → TaskEnd
flaky i = elim i [ zero ↦ failed "boom" | suc k ↦ succeeded ]

attempts_lem_example :
    (last : ℕ) × (attempts 3 sql_def flaky 0 ≡ some (suc last, flaky last))
    × (last ≤ 2)
    × (retries_after sql_def last (flaky last) ≡ false)
    × ((i : ℕ) → i < last → retries_after sql_def i (flaky i) ≡ true)
attempts_lem_example = attempts_lem sql_def flaky 2 refl (omega arith)

cancel_run_lem_example :
    ((cancel_run 30 two_tasks).state ≡ cancelled_state)
    × All (λ (t : TaskRun). is_terminal t.state ≡ true) (cancel_run 30 two_tasks).tasks
    × ((j : ℕ) (t : TaskRun)
        → get_elem? two_tasks.tasks j ≡ some t
        → get_elem? (cancel_run 30 two_tasks).tasks j
          ≡ some (
              if is_terminal t.state
              then t
              else record t { state = cancelled_state; end_time = 30 }))
    × (cancel_run 40 (cancel_run 30 two_tasks) ≡ cancel_run 30 two_tasks)
cancel_run_lem_example = cancel_run_lem 30 40 two_tasks (unfold is_terminal in refl)

-- A parser that takes expressions of some length.
abbrev some_cron : Name → Option String
some_cron [] = some "empty"
some_cron (c ∷ s) = none

abbrev good_schedule : Option (Option Name)
good_schedule = some (some (codes " 0 0 12 * * ? "))

abbrev two_settings : List TaskSettings
two_settings =
    record { task_key = some "extract"; depends_on = [] }
    ∷ record { task_key = some "load"; depends_on = needs "extract" ∷ [] }
    ∷ []

two_settings-valid : validate_settings some_cron (some two_settings) good_schedule ≡ given tt
unfolding validate_settings collect_keys check_tasks check_dependencies trim
two_settings-valid = refl

validate_settings_sound_example :
    (ts : List TaskSettings) × (some two_settings ≡ some ts)
    × (ks : List String) × (map (λ (t : TaskSettings). t.task_key) ts
        ≡ map (λ (k : String). some k) ks)
    × IsDistinct ks
    × All (HasKnown ks) ts
    × IsScheduled some_cron good_schedule
validate_settings_sound_example =
    validate_settings_sound some_cron (some two_settings) good_schedule two_settings-valid
