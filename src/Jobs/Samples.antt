-- ===== src/Jobs/Samples.antt =====
-- A run of two tasks, and rounds in which every task succeeds
-- (crates/lakeforge-api/src/api/jobs.rs).
use lakeforge.Prelude.{
  ℕ, ◌≡◌, refl, String, string_eq, true, false, none, some, List, [], ◌∷◌, map, any, All, All-map,
  get_elem?, nat_beq_self, arith,
}
use lakeforge.Jobs.Runs.{
  RunState, pending, terminated, Dependency, TaskDef, at_most, TaskRun, Run, succeeded, failed,
  end_state, is_terminal,
}
use lakeforge.Jobs.Gate.{is_ready, remaining_from, dep_states, outcome_ok, passes}
use lakeforge.Jobs.Batch.{
  given, Services, Loop, ready, gate, gate_task, prepare, prepare_task, named_cluster,
  choose_cluster, or_default, join, join_all, Join, joined,
}
use lakeforge.Jobs.Execute.{
  Round, Turn, again, stop, fault, turn, turn_on, run_ready, run_batch, after_prepare, begin,
}
use lakeforge.Jobs.Ended.{has}
use lakeforge.Jobs.Starts.{joins_task}
use lakeforge.Jobs.Dependencies.{Joins, later_in}

abbrev pub services : Services
services = record { create_cluster = λ name. given name; default_job_cluster = given "shared" }

abbrev pub sql_def : TaskDef
sql_def = record {
  existing_cluster_id = none;
  job_cluster_key = none;
  new_cluster = false;
  needs_cluster = false;
  max_retries = at_most 2;
  retry_on_timeout = false;
}

abbrev pub needs : String → Dependency
needs k = record { task_key = some k; outcome = none }

abbrev pub task : ℕ → String → List Dependency → RunState → TaskRun
task n k ds s = record {
  run_id = n;
  task_key = k;
  depends_on = ds;
  run_if = none;
  state = s;
  start_time = 0;
  end_time = 0;
  attempt_number = 0;
  cluster_instance = none;
  def = sql_def;
}

abbrev pub run_of : RunState → List TaskRun → Run
run_of s ts = record {
  run_id = 7;
  job_id = some 3;
  state = s;
  start_time = 0;
  end_time = 0;
  tasks = ts;
  job_clusters = [];
  created_clusters = [];
}

-- `load` depends on `extract`.
abbrev pub two_tasks : Run
two_tasks =
    run_of pending (task 8 "extract" [] pending ∷ task 9 "load" (needs "extract" ∷ []) pending ∷ [])

abbrev pub good_round : Round
good_round = record { now = 20; expired = false; joins = map (λ i. joined i 1 succeeded) }

pub good-joins :
    (batch : List ℕ) (i : ℕ)
    → has i batch ≡ true
    → any (joins_task i) (good_round.joins batch) ≡ true
good-joins [] i h = h
good-joins (j ∷ batch) i h = let rest = good-joins batch i in ground arith

widen : (k : ℕ) (batch : List ℕ) (j : Join) → Joins batch j → Joins (k ∷ batch) j
widen k batch (joined i n e) h = later_in k i batch h
widen k batch Join.join_error h = tt

pub good-batch : (batch : List ℕ) → All (Joins batch) (good_round.joins batch)
good-batch [] = tt
good-batch (j ∷ batch) = (
  rw (nat_beq_self j) refl,
  All-map (Joins batch) (Joins (j ∷ batch)) _ (widen j batch) (good-batch batch),
)

abbrev loop_or : Loop → Turn → Loop
loop_or l (again next) = next
loop_or l (stop b run) = l
loop_or l (fault e next) = l

-- The loop after one round, and after two.
unfoldable pub after : Loop → Loop
unfolding turn
after l = loop_or l (turn services good_round l)

abbrev pub start : Loop
start = begin 10 two_tasks

abbrev pub first_done : Loop
first_done = after start

abbrev pub both_done : Loop
both_done = after first_done

pub first_turn : turn services good_round start ≡ again first_done
unfolding turn turn_on run_ready run_batch after_prepare ready gate gate_task prepare prepare_task
    named_cluster choose_cluster or_default join join_all is_ready remaining_from dep_states
    outcome_ok passes after end_state is_terminal
first_turn = refl

pub second_turn : turn services good_round first_done ≡ again both_done
unfolding turn turn_on run_ready run_batch after_prepare ready gate gate_task prepare prepare_task
    named_cluster choose_cluster or_default join join_all is_ready remaining_from dep_states
    outcome_ok passes after end_state is_terminal
second_turn = refl

-- `load` as it is after the second round.
abbrev pub loaded : TaskRun
loaded = record (task 9 "load" (needs "extract" ∷ []) (end_state succeeded)) {
  start_time = 20;
  end_time = 20;
  attempt_number = 1;
}

pub both_done-load : get_elem? both_done.run.tasks 1 ≡ some loaded
unfolding turn turn_on run_ready run_batch after_prepare ready gate gate_task prepare prepare_task
    named_cluster choose_cluster or_default join join_all is_ready remaining_from dep_states
    outcome_ok passes after end_state is_terminal
both_done-load = refl

-- A run that has ended: `extract` has succeeded, `load` has failed.
abbrev pub half_failed : Run
half_failed = run_of (terminated "FAILED" "load: boom") (
    task 8 "extract" [] (end_state succeeded)
    ∷ task 9 "load" (needs "extract" ∷ []) (end_state (failed "boom"))
    ∷ [])
