-- ===== src/Jobs/Gate.antt =====
-- Which tasks of a run are ready, and the gate `run_if`
-- (crates/lakeforge-api/src/api/jobs.rs, `execute_run_inner`).
use lakeforge.Prelude.{
  ℕ, suc, String, string_eq, Bool, true, false, not, ◌&&◌, ◌||◌, Option, none, some, List, [], ◌∷◌,
  ◌==◌, if◌then◌else◌, all, any,
}
use lakeforge.Prelude.Assoc.{Assoc, lookup}
use lakeforge.Jobs.Runs.{RunState, is_terminal, has_result, option_is, Dependency, TaskRun, Run}
use lakeforge.Prelude.Text.{concat}

abbrev pub Done : Type 0
Done = Assoc String RunState

abbrev pub is_some {ℓ} : {A : Type ℓ} → Option A → Bool
is_some none = false
is_some (some a) = true

-- The tasks that are not terminal, by index.
unfoldable pub remaining_from : ℕ → List TaskRun → List ℕ
remaining_from i [] = []
remaining_from i (t ∷ ts) =
    let rest = remaining_from (suc i) ts in if is_terminal t.state then rest else i ∷ rest

abbrev pub remaining : Run → List ℕ
remaining run = remaining_from 0 run.tasks

-- A dependency without a key is met.
abbrev pub is_met : Done → Option String → Bool
is_met done none = true
is_met done (some k) = is_some (lookup k done)

unfoldable pub is_ready : Done → TaskRun → Bool
is_ready done t = all (λ (d : Dependency). is_met done d.task_key) t.depends_on

-- `dep_states`: the keys of the dependencies that are done, with their states.
unfoldable pub dep_states : Done → List Dependency → List (String × RunState)
dep_states done [] = []
dep_states done (d ∷ ds) =
    let rest = dep_states done ds in
    elim d.task_key [
      | none ↦ rest
      | some k ↦ elim (lookup k done) [ none ↦ rest | some s ↦ (k, s) ∷ rest ]
    ]

-- The outcome that the first dependency on the key asks for.
abbrev pub wanted_outcome : String → List Dependency → Option String
wanted_outcome k [] = none
wanted_outcome k (d ∷ ds) =
    let rest = wanted_outcome k ds in if option_is k d.task_key then d.outcome else rest

-- `strip_prefix("outcome=") == Some(o)`: how the message of a condition task gives its outcome.
abbrev pub message_is_outcome : String → String → Bool
message_is_outcome m o = m == concat ("outcome=" ∷ o ∷ [])

unfoldable pub outcome_ok : List Dependency → String × RunState → Bool
outcome_ok ds (k, s) = elim (wanted_outcome k ds) [
  | none ↦ true
  | some o ↦ has_result o s || message_is_outcome s.state_message o
]

abbrev pub succeeded_dep : List Dependency → String × RunState → Bool
succeeded_dep ds (k, s) = has_result "SUCCESS" s && outcome_ok ds (k, s)

abbrev pub is_empty_list {ℓ} : {A : Type ℓ} → List A → Bool
is_empty_list [] = true
is_empty_list (x ∷ xs) = false

abbrev pub run_if_or_default : Option String → String
run_if_or_default none = "ALL_SUCCESS"
run_if_or_default (some r) = r

-- `run_it`.
unfoldable pub passes : Done → TaskRun → Bool
passes done t =
    let deps = dep_states done t.depends_on in
    let all_success = all (succeeded_dep t.depends_on) deps in
    let any_failed = any (λ d. not (succeeded_dep t.depends_on d)) deps in
    let mode = run_if_or_default t.run_if in
    if mode == "ALL_DONE"
    then all (λ (k, s). is_terminal s) deps
    else if mode == "NONE_FAILED"
    then not any_failed
    else if mode == "AT_LEAST_ONE_SUCCESS"
    then any (λ (k, s). has_result "SUCCESS" s) deps
    else if mode == "ALL_FAILED"
    then not (is_empty_list deps) && all (λ (k, s). has_result "FAILED" s) deps
    else if mode == "AT_LEAST_ONE_FAILED"
    then any_failed
    else all_success
