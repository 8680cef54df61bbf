-- ===== src/Jobs/Runs.antt =====
-- Runs and their tasks (crates/lakeforge-api/src/api/jobs.rs): RunState, TaskRun, Run, and the
-- states in which an attempt of a task ends.
use lakeforge.Prelude.{
  ℕ, ◌≡◌, refl, String, string_eq, Bool, true, false, ◌||◌, Option, none, some, List, ◌==◌,
}

pub record RunState : Type 0 where
  pub life_cycle_state : String
  pub result_state : Option String
  pub state_message : String
  pub user_cancelled_or_timedout : Bool

abbrev pub pending : RunState
pending = record {
  life_cycle_state = "PENDING";
  result_state = none;
  state_message = "";
  user_cancelled_or_timedout = false;
}

abbrev pub running : RunState
running = record pending { life_cycle_state = "RUNNING" }

abbrev pub terminated : String → String → RunState
terminated result msg = record {
  life_cycle_state = "TERMINATED";
  result_state = some result;
  state_message = msg;
  user_cancelled_or_timedout = result == "CANCELED" || result == "TIMEDOUT";
}

abbrev pub excluded : RunState
excluded = record {
  life_cycle_state = "SKIPPED";
  result_state = some "EXCLUDED";
  state_message = "Skipped by run_if / upstream outcome";
  user_cancelled_or_timedout = false;
}

abbrev pub internal_error : String → RunState
internal_error msg = record {
  life_cycle_state = "INTERNAL_ERROR";
  result_state = some "FAILED";
  state_message = msg;
  user_cancelled_or_timedout = false;
}

unfoldable pub is_terminal : RunState → Bool
is_terminal s =
    s.life_cycle_state == "TERMINATED"
    || s.life_cycle_state == "SKIPPED"
    || s.life_cycle_state == "INTERNAL_ERROR"

-- `result_state.as_deref() == Some(r)`.
abbrev pub option_is : String → Option String → Bool
option_is r none = false
option_is r (some s) = s == r

abbrev pub has_result : String → RunState → Bool
has_result r s = option_is r s.result_state

-- An entry of `depends_on`; a field that is missing, or is no string, is `none`.
pub record Dependency : Type 0 where
  pub task_key : Option String
  pub outcome : Option String

-- `max_retries`, where every negative number stands for no limit.
pub data Retries : Type 0 where
  unlimited : Retries
  at_most : ℕ → Retries

-- The fields of a task's definition that the execution of a run reads.
pub record TaskDef : Type 0 where
  pub existing_cluster_id : Option String
  pub job_cluster_key : Option String
  pub new_cluster : Bool
  pub needs_cluster : Bool
  pub max_retries : Retries
  pub retry_on_timeout : Bool

pub record TaskRun : Type 0 where
  pub run_id : ℕ
  pub task_key : String
  pub depends_on : List Dependency
  pub run_if : Option String
  pub state : RunState
  pub start_time : ℕ
  pub end_time : ℕ
  pub attempt_number : ℕ
  pub cluster_instance : Option String
  pub def : TaskDef

pub record Run : Type 0 where
  pub run_id : ℕ
  pub job_id : Option ℕ
  pub state : RunState
  pub start_time : ℕ
  pub end_time : ℕ
  pub tasks : List TaskRun
  -- the keys of `job_clusters` that have a `new_cluster` object
  pub job_clusters : List String
  pub created_clusters : List String

-- How `execute_task` ends. An error of a task is a failure with the error's text.
pub data TaskEnd : Type 0 where
  succeeded : TaskEnd
  failed timed_out canceled : (message : String) → TaskEnd
  condition : (outcome : Bool) → TaskEnd

unfoldable pub end_state : TaskEnd → RunState
end_state succeeded = terminated "SUCCESS" ""
end_state (failed m) = terminated "FAILED" m
end_state (timed_out m) = terminated "TIMEDOUT" m
end_state (canceled m) = terminated "CANCELED" m
end_state (condition true) = terminated "SUCCESS" "outcome=true"
end_state (condition false) = terminated "SUCCESS" "outcome=false"

pub end_state-terminal : (e : TaskEnd) → is_terminal (end_state e) ≡ true
unfolding end_state is_terminal
end_state-terminal succeeded = refl
end_state-terminal (failed m) = refl
end_state-terminal (timed_out m) = refl
end_state-terminal (canceled m) = refl
end_state-terminal (condition true) = refl
end_state-terminal (condition false) = refl
