-- ===== src/Jobs/Execute.antt =====
-- The execution of a run (crates/lakeforge-api/src/api/jobs.rs, `spawn_run` and
-- `execute_run_inner`): rounds until every task is terminal, and the result of the run.
use lakeforge.Prelude.{
  ℕ, zero, suc, String, string_eq, Bool, true, false, not, ◌&&◌, ◌||◌, Option, none, some, List, [],
  ◌∷◌, ◌==◌, if◌then◌else◌, any, map, keep, modify_at,
}
use lakeforge.Prelude.Text.{concat}
use lakeforge.Jobs.Runs.{RunState, running, terminated, internal_error, has_result, TaskRun, Run}
use lakeforge.Jobs.Gate.{remaining}
use lakeforge.Jobs.Batch.{
  Answer, given, error, Services, Loop, save_run, ready, gate, prepare, Join, join_all,
}

-- What one round of the loop meets: the time, whether the deadline has passed, and how the tasks of
-- a batch join, in the order in which they end.
pub record Round : Type 0 where
  pub now : ℕ
  pub expired : Bool
  pub joins : List ℕ → List Join

-- Ends the tasks at the given indices.
abbrev pub end_tasks : (TaskRun → TaskRun) → List ℕ → Run → Run
end_tasks f [] run = run
end_tasks f (i ∷ is) run = end_tasks f is (record run { tasks = modify_at run.tasks i f })

abbrev pub time_out : ℕ → TaskRun → TaskRun
time_out now t = record t {
  state = terminated "TIMEDOUT" "Run exceeded timeout_seconds";
  end_time = now;
}

abbrev pub fail_stuck : TaskRun → TaskRun
fail_stuck t = record t {
  state = terminated "FAILED" "Dependency cycle or missing task_key in depends_on";
}

pub data Turn : Type 0 where
  again : Loop → Turn
  stop : (timed_out : Bool) → Run → Turn
  fault : String → Loop → Turn

unfoldable pub after_prepare : Round → List ℕ → Loop → Answer Loop → Turn
after_prepare r to_run l (error e) = fault e l
after_prepare r to_run l (given next) = again (join_all r.now (r.joins to_run) (save_run next))

unfoldable pub run_batch : Services → Round → List ℕ → Loop → Turn
unfolding after_prepare
run_batch sv r [] l = again (save_run l)
run_batch sv r (i ∷ is) l = after_prepare r (i ∷ is) l (prepare sv r.now (i ∷ is) l)

unfoldable pub run_ready : Services → Round → List ℕ → List ℕ → Loop → Turn
unfolding run_batch
run_ready sv r left [] l = stop false (end_tasks fail_stuck left l.run)
run_ready sv r left (i ∷ is) l =
    let (to_run, next) = gate r.now (i ∷ is) l in run_batch sv r to_run next

-- One round of the loop, on the tasks that are left.
unfoldable pub turn_on : Services → Round → List ℕ → Loop → Turn
unfolding run_ready
turn_on sv r [] l = stop false l.run
turn_on sv r (i ∷ is) l =
    if r.expired
    then stop true (end_tasks (time_out r.now) (i ∷ is) l.run)
    else run_ready sv r (i ∷ is) (ready l (i ∷ is)) l

unfoldable pub turn : Services → Round → Loop → Turn
unfolding turn_on
turn sv r l = turn_on sv r (remaining l.run) l

abbrev pub has_failed : TaskRun → Bool
has_failed t =
    has_result "FAILED" t.state || has_result "TIMEDOUT" t.state || has_result "CANCELED" t.state

abbrev pub join_texts : List String → List String
join_texts [] = []
join_texts (s ∷ []) = s ∷ []
join_texts (s ∷ t ∷ ss) = s ∷ "; " ∷ join_texts (t ∷ ss)

-- `task_key: message` of every task that neither succeeded nor was skipped.
abbrev pub failure_message : List TaskRun → String
failure_message ts = concat (
    join_texts (
      map (λ (t : TaskRun). concat (t.task_key ∷ ": " ∷ t.state.state_message ∷ []))
        (keep
          (λ (t : TaskRun).
            not (has_result "SUCCESS" t.state) && not (t.state.life_cycle_state == "SKIPPED"))
          ts)))

unfoldable pub result_of : Bool → List TaskRun → RunState
result_of timed_out ts =
    if timed_out
    then terminated "TIMEDOUT" "Run timed out"
    else if any (λ (t : TaskRun). has_result "CANCELED" t.state) ts
    then terminated "CANCELED" "Run cancelled"
    else if any has_failed ts
    then terminated "FAILED" (failure_message ts)
    else terminated "SUCCESS" ""

abbrev pub finalise : ℕ → Bool → Run → Run
finalise now timed_out run = record run { state = result_of timed_out run.tasks; end_time = now }

pub data Execution : Type 0 where
  finished : Run → Execution
  failed_internally : String → Run → Execution
  unfinished : Execution

-- What follows a round: the next ones, or the end.
unfoldable pub follow : (Loop → Execution) → ℕ → Turn → Execution
follow rest now (again next) = rest next
follow rest now (stop timed_out run) = finished (finalise now timed_out run)
follow rest now (fault e next) = failed_internally e next.saved

abbrev pub begin : ℕ → Run → Loop
begin now run =
    let started = record run { state = running; start_time = now } in
    record { run = started; done = []; clusters = []; saved = started }

module _ (sv : Services) (env : ℕ → Round) where
  -- One unit of fuel for each round; `k` numbers the rounds.
  unfoldable pub loop : ℕ → ℕ → Loop → Execution
  loop zero k l = unfinished
  loop (suc fuel) k l = follow (loop fuel (suc k)) (env k).now (turn sv (env k) l)

  unfoldable pub execute_run : ℕ → ℕ → Run → Execution
  unfolding loop
  execute_run fuel now run = loop fuel 0 (begin now run)

-- What the store holds of the run when the task that `spawn_run` starts has ended.
unfoldable pub stored : ℕ → Execution → Option Run
stored now (finished run) = some run
stored now (failed_internally e saved) =
    some (record saved { state = internal_error e; end_time = now })
stored now unfinished = none
