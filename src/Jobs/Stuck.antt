-- ===== src/Jobs/Stuck.antt =====
-- A repaired run starts with nothing done
-- (crates/lakeforge-api/src/api/jobs.rs, `repair` and `execute_run_inner`).
use lakeforge.Prelude.{String, string_eq, Bool, not, ◌&&◌, ◌||◌, List, any}
use lakeforge.Jobs.Runs.{is_terminal, Dependency, TaskRun}
use lakeforge.Jobs.Gate.{is_some}
use lakeforge.Jobs.Repair.{contains}

-- The task depends on some task.
abbrev pub has_dependency : TaskRun → Bool
has_dependency t = any (λ (d : Dependency). is_some d.task_key) t.depends_on

-- The task has ended, or it depends on some task.
abbrev pub is_blocked : TaskRun → Bool
is_blocked t = is_terminal t.state || has_dependency t

-- The tasks of the repaired run: those that run again wait, and the others are as they were.
abbrev pub has_dependency_if_rerun : List String → TaskRun → Bool
has_dependency_if_rerun rerun t =
    is_terminal t.state && (not (contains t.task_key rerun) || has_dependency t)
