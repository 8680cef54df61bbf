-- ===== src/Jobs/Repair.antt =====
-- Repair, cancellation and deletion of runs, and the validation of job settings
-- (crates/lakeforge-api/src/api/jobs.rs).
use lakeforge.Prelude.{
  ℕ, zero, suc, String, string_eq, Bool, true, false, not, ◌&&◌, Option, none, some, List, [], ◌∷◌,
  ◌++◌, ◌==◌, if◌then◌else◌, any, map, keep,
}
use lakeforge.Prelude.Text.{concat}
use lakeforge.Uc.Names.{Name, trim}
use lakeforge.Jobs.Runs.{pending, terminated, is_terminal, has_result, Dependency, TaskRun, Run}
use lakeforge.Jobs.Gate.{is_empty_list}
use lakeforge.Jobs.Batch.{Answer, given, error, ◌>>=◌, ◌>>◌}

abbrev pub contains : String → List String → Bool
contains k ks = any (λ j. j == k) ks

pub record RepairBody : Type 0 where
  pub rerun_tasks : List String
  pub rerun_all_failed_tasks : Bool
  pub rerun_dependent_tasks : Bool

abbrev pub key_among : List String → Option String → Bool
key_among rerun none = false
key_among rerun (some k) = contains k rerun

-- Some dependency of the task is among the keys.
abbrev pub follows : List String → TaskRun → Bool
follows rerun t = any (λ (d : Dependency). key_among rerun d.task_key) t.depends_on

-- The task is not among the keys yet, and follows one.
unfoldable pub adds : List String → TaskRun → Bool
adds rerun t = not (contains t.task_key rerun) && follows rerun t

-- One pass over the tasks: the keys, and whether one was added.
unfoldable pub add_dependents : List TaskRun → List String → Bool → List String × Bool
add_dependents [] rerun changed = (rerun, changed)
add_dependents (t ∷ ts) rerun changed =
    add_dependents ts (if adds rerun t then t.task_key ∷ rerun else rerun)
      (if adds rerun t then true else changed)

-- `while changed`, a unit of fuel for each pass.
unfoldable pub close_dependents : ℕ → List TaskRun → List String → Option (List String)
close_dependents zero ts rerun = none
close_dependents (suc fuel) ts rerun =
    let (next, changed) = add_dependents ts rerun false in
    let more = close_dependents fuel ts next in if changed then more else some next

abbrev pub task_keys : List TaskRun → List String
task_keys ts = map (λ (t : TaskRun). t.task_key) ts

-- The tasks to run again, by key; `none` is a lack of fuel.
unfoldable pub rerun_set : ℕ → RepairBody → List TaskRun → Option (List String)
rerun_set fuel b ts =
    let named =
      if b.rerun_all_failed_tasks
      then b.rerun_tasks
        ++ task_keys (keep (λ (t : TaskRun). not (has_result "SUCCESS" t.state)) ts)
      else b.rerun_tasks in
    let closed = close_dependents fuel ts named in
    if b.rerun_dependent_tasks then closed else some named

abbrev pub reset_task : List String → TaskRun → TaskRun
reset_task rerun t =
    if contains t.task_key rerun then record t { state = pending; end_time = 0 } else t

unfoldable pub reset_run : List String → Run → Run
reset_run rerun run = record run {
  tasks = map (reset_task rerun) run.tasks;
  state = pending;
  end_time = 0;
}

abbrev pub repaired : Run → List String → Answer Run
repaired run rerun =
    if is_empty_list rerun
    then error "Nothing to repair: specify rerun_tasks or rerun_all_failed_tasks"
    else given (reset_run rerun run)

abbrev pub or_unfinished {ℓ} : {A : Type ℓ} → Option A → Answer A
or_unfinished none = error "out of fuel"
or_unfinished (some a) = given a

-- The run that `repair` saves and executes. The parameters of notebooks and jobs are left out.
unfoldable pub repair : ℕ → Run → RepairBody → Answer Run
unfolding rerun_set
repair fuel run b =
    let checked = do rerun ← or_unfinished (rerun_set fuel b run.tasks); repaired run rerun
    in if is_terminal run.state then checked else error "Run is still active"

abbrev pub cancel_task : ℕ → TaskRun → TaskRun
cancel_task now t =
    if is_terminal t.state
    then t
    else record t { state = terminated "CANCELED" "Cancelled by user"; end_time = now }

-- `cancel_run`: the run as it is saved. The executing task, if any, is aborted before.
unfoldable pub cancel_run : ℕ → Run → Run
cancel_run now run = if is_terminal run.state then run else record run {
  tasks = map (cancel_task now) run.tasks;
  state = terminated "CANCELED" "Cancelled by user";
  end_time = now;
}

-- A task of job settings: its key, if it is a string, and its dependencies.
pub record TaskSettings : Type 0 where
  pub task_key : Option String
  pub depends_on : List Dependency

abbrev pub collect_key : Option String → List String → Answer (List String)
collect_key none keys = error "task_key is required"
collect_key (some k) keys =
    if contains k keys then error (concat ("Duplicate task_key " ∷ k ∷ [])) else given (k ∷ keys)

unfoldable pub collect_keys : List TaskSettings → List String → Answer (List String)
collect_keys [] keys = given keys
collect_keys (t ∷ ts) keys = do next ← collect_key t.task_key keys; collect_keys ts next

abbrev pub check_key : List String → Option String → Answer (Unit {0})
check_key keys none = given tt
check_key keys (some k) =
    if contains k keys
    then given tt
    else error (concat ("depends_on references unknown task_key " ∷ k ∷ []))

unfoldable pub check_dependencies : List String → List Dependency → Answer (Unit {0})
check_dependencies keys [] = given tt
check_dependencies keys (d ∷ ds) = do check_key keys d.task_key; check_dependencies keys ds

unfoldable pub check_tasks : List String → List TaskSettings → Answer (Unit {0})
unfolding check_dependencies
check_tasks keys [] = given tt
check_tasks keys (t ∷ ts) = do check_dependencies keys t.depends_on; check_tasks keys ts

abbrev pub cron_answer : Option String → Answer (Unit {0})
cron_answer none = given tt
cron_answer (some e) = error (concat ("Invalid quartz_cron_expression: " ∷ e ∷ []))

-- The schedule's `quartz_cron_expression`, if it is a string. `cron` is `cron::Schedule::from_str`:
-- the text of its error, if there is one.
abbrev pub check_schedule : (Name → Option String) → Option (Option Name) → Answer (Unit {0})
check_schedule cron none = given tt
check_schedule cron (some none) = error "schedule.quartz_cron_expression is required"
check_schedule cron (some (some expr)) = cron_answer (cron (trim expr))

-- `validate_settings`, of the settings `tasks` and `schedule`, which may be missing.
unfoldable pub validate_settings :
    (Name → Option String) → Option (List TaskSettings) → Option (Option Name) → Answer (Unit {0})
unfolding collect_keys check_tasks trim
validate_settings cron none schedule = error "tasks is required"
validate_settings cron (some ts) schedule = do
  keys ← collect_keys ts []
  check_tasks keys ts
  check_schedule cron schedule
