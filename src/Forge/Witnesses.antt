-- ===== src/Forge/Witnesses.antt =====
-- The theorems at concrete inputs: the samples' plan, job, registry and scheduler.
use lakeforge.Prelude.{
  ℕ, String, ◌≡◌, refl, none, some, List, [], ◌∷◌, arith, ◌+◌, length, string_eq, All, ◌≤◌, ◌<◌,
  true, false, replicate, ◌↔◌, ◌⊎◌,
}
use mathlib.Core.Option
use lakeforge.Prelude.Assoc.{lookup}
use lakeforge.Forge.Proto.{task_text, ok, err, data_fusion}
use lakeforge.Forge.Plan.{Plan, shape, hash}
use lakeforge.Forge.Planner.{
  rebuild_node, rebuild_operator, new_planner, unresolved_stages, push_stage,
}
use lakeforge.Forge.Planner.Stages
use lakeforge.Forge.Planner.Stages.{StageIsOk, exchanges}
use lakeforge.Forge.Planner.Splitting.{plan_stages-IsOk}
use lakeforge.Forge.Resolve.{reader_for, resolve_stage, group_locations, written_labels}
use lakeforge.Forge.Resolve.Groups.{by_label, group_locations_sound, group_locations_refused}
use lakeforge.Forge.Resolve.Readers.{placeholders, resolve_stage-total, written_labels-in_range}
use lakeforge.Forge.Job.State.{
  StageState, StageStatus, fresh_task, JobStatus, default_transition, counts, is_complete,
}
use lakeforge.Forge.Job.Ops.{
  prepare_all, prepare_stage, stage_plan, resolve_and_encode, completed_outputs, task_at,
  mark_running, mark_pending,
}
use lakeforge.Forge.Job.Events.{
  reported_task, stage_done, unblock_dependents, candidates, executor_lost, task_completed,
  task_failed, failure_text, result_partitions, lost_text,
}
use lakeforge.Forge.Job.Invariant.{JobIsValid}
use lakeforge.Forge.Job.Runs.{
  JobEvent, launched, lost, failed, run_events, new_job-run_events-IsValid, run_events_ended,
}
use lakeforge.Forge.Job.Launches.{mark_pending-mark_running}
use lakeforge.Forge.Job.Counts.{counts_lem}
use lakeforge.Forge.Job.Lost.{pending_if_on, executor_lost_lem, uses, WasCompletedOn}
use lakeforge.Forge.Job.Reports.{failure_counts_once, retries_exhausted, fail_attempts}
use lakeforge.Forge.Job.ErrorPath.{resolve_error_lost}
use lakeforge.Forge.Job.Results.{result_partitions_sound}
use lakeforge.Forge.Executors.{
  task_started, task_finished, free_slots, finished, ExecutorEntry, heartbeat,
}
use lakeforge.Forge.Executors.Tracking.{view, expected, handed, calls, calls-view}
use lakeforge.Forge.Executors.Slots.{
  RegistryCall, starting, finishing, purging, task_started-task_finished,
}
use lakeforge.Forge.Scheduler.State.{enqueue}
use lakeforge.Forge.Scheduler.Dispatch.{assign}
use lakeforge.Forge.Scheduler.Slots
use lakeforge.Forge.Scheduler.Slots.{assign-free_slots}
use lakeforge.Forge.Scheduler.Eviction.{enqueue_lem, enqueue-assign_starved}
use lakeforge.Forge.Samples.{
  numbers, sample_codec, sample_plan, sample_stages, second_stage, sample_plan-planned, sample_job,
  sample_job-new, launched_job, ended_job, sample_locations, sample_outputs, task_id, refused_job,
  sample_entry, sample_registry, sample_registry-IsValid, sample_scheduler,
}

abbrev sample_events : List JobEvent
sample_events =
    launched 1 0 0 "e1" 20
    ∷ lost "e1" 30
    ∷ launched 1 0 1 "e2" 40
    ∷ failed (task_id 1 0 1) "disk" 50
    ∷ []

new_job-run_events-IsValid_example : JobIsValid (run_events sample_job sample_events)
new_job-run_events-IsValid_example =
    new_job-run_events-IsValid "j" "select" [] 1 sample_stages 5 10 sample_job sample_events
      sample_job-new

run_events_ended_example :
    ((run_events ended_job sample_events).status ≡ ended_job.status)
    × ((run_events ended_job sample_events).result_tx ≡ ended_job.result_tx)
run_events_ended_example = run_events_ended ended_job sample_events refl

plan_stages-IsOk_example :
    Stages.NumberedFrom 1 sample_stages
    × All (StageIsOk numbers) sample_stages
    × (1 ≤ length sample_stages)
unfolding unresolved_stages exchanges
plan_stages-IsOk_example =
    plan_stages-IsOk numbers "j" "/w" sample_plan refl (omega arith) sample_plan-planned

group_locations_sound_example :
    group_locations 1 3 sample_locations (replicate 3 []) ≡ ok (by_label 3 sample_locations)
group_locations_sound_example =
    group_locations_sound 1 3 sample_locations (omega arith, (omega arith, (omega arith, tt)))

group_locations_refused_example :
    (m : String) × (group_locations 1 2 sample_locations (replicate 2 []) ≡ err (data_fusion m))
group_locations_refused_example = group_locations_refused 1 2 sample_locations (replicate 2 []) refl

second_stage-IsOk : StageIsOk numbers second_stage
unfolding unresolved_stages Stages.checks
second_stage-IsOk = record {
  reads = refl;
  earlier = ((omega arith, omega arith), tt);
  has_task = omega arith;
  writes = refl;
  accepted = (refl, tt);
}

resolve_stage-total_example :
    (plan : Plan numbers) × (resolve_stage numbers "j" sample_outputs second_stage.plan ≡ ok plan)
    × (unresolved_stages numbers plan ≡ [])
    × (shape numbers plan ≡ shape numbers second_stage.plan)
unfolding placeholders
resolve_stage-total_example =
    resolve_stage-total numbers "j" sample_outputs second_stage second_stage-IsOk
      ((sample_locations, refl, (omega arith, (omega arith, (omega arith, tt)))), tt)

executor_lost_lem_example :
    (task_at (executor_lost launched_job "e1" 30).0 1 0
      ≡ Option.map (pending_if_on "e1") (task_at launched_job 1 0))
    × (uses "e1" (executor_lost launched_job "e1" 30).0.stages ≡ false)
    × ((WasCompletedOn "e1" launched_job
          × ((executor_lost launched_job "e1" 30).0.status ≡ JobStatus.failed (lost_text "e1"))
          × ((executor_lost launched_job "e1" 30).1.job_finished ≡ true))
        ⊎ ((¬ (WasCompletedOn "e1" launched_job))
            × ((executor_lost launched_job "e1" 30).0.status ≡ JobStatus.running)
            × ((executor_lost launched_job "e1" 30).1.job_finished ≡ false)))
executor_lost_lem_example = executor_lost_lem launched_job "e1" 30 1 0 refl

retries_exhausted_example :
    ((fail_attempts launched_job (task_id 1 0 0) "disk" 30 0 1).status ≡ JobStatus.running)
    × ((fail_attempts launched_job (task_id 1 0 0) "disk" 30 0 2).status
        ≡ JobStatus.failed (failure_text (task_id 1 0 1) "disk"))
retries_exhausted_example =
    retries_exhausted 1 launched_job (task_id 1 0 0) "disk" 30 0 refl refl refl refl (omega arith)
      (omega arith)

failure_counts_once_example :
    (task_failed (task_failed launched_job (task_id 1 0 0) "disk" 30).0 (task_id 1 0 0) "disk" 40
      ≡ ((task_failed launched_job (task_id 1 0 0) "disk" 30).0, default_transition))
    × (task_completed
          (task_failed launched_job (task_id 1 0 0) "disk" 30).0
          (task_id 1 0 0)
          "e1"
          []
          none
          40
        ≡ ((task_failed launched_job (task_id 1 0 0) "disk" 30).0, ok default_transition))
failure_counts_once_example =
    failure_counts_once launched_job (task_id 1 0 0) "disk" "e1" "disk" [] none 30 40

sample_calls : List RegistryCall
sample_calls =
    starting "e1" (task_id 1 0 0)
    ∷ purging "j"
    ∷ finishing "e1" (task_id 1 0 0) true
    ∷ starting "e1" (task_id 1 1 0)
    ∷ []

calls-view_example :
    (view (calls sample_registry sample_calls) "e1" "x"
      ≡ expected "e1" "x" (view sample_registry "e1" "x") sample_calls)
    × ((heartbeat (calls sample_registry sample_calls) "e1" none 30).1
        ≡ handed (expected "e1" "x" (view sample_registry "e1" "x") sample_calls))
calls-view_example = calls-view sample_registry sample_calls "e1" "x" none 30

assign-free_slots_example :
    Slots.launched "e1" (assign sample_scheduler 20).1 ≤ free_slots sample_entry
assign-free_slots_example =
    assign-free_slots sample_scheduler 20 "e1" sample_entry sample_registry-IsValid refl

enqueue_lem_example :
    (length (enqueue sample_scheduler "k" ended_job).job_order ≤ 1)
    × (lookup "j" (enqueue sample_scheduler "k" ended_job).jobs ≡ some sample_job)
enqueue_lem_example = enqueue_lem sample_scheduler "k" ended_job "j" sample_job refl refl refl

enqueue-assign_starved_example :
    ((enqueue sample_scheduler "k" ended_job).job_order ≡ "k" ∷ [])
    × (lookup "j" (enqueue sample_scheduler "k" ended_job).jobs ≡ some sample_job)
    × (lookup "j" (assign (enqueue sample_scheduler "k" ended_job) 20).0.jobs ≡ some sample_job)
enqueue-assign_starved_example =
    enqueue-assign_starved sample_scheduler "k" "j" [] ended_job sample_job 20 refl refl refl refl
      refl refl

written_labels-in_range_example :
    All
      (λ l.
        l
        < (push_stage numbers
            (new_planner numbers "j" "/w")
            sample_plan
            (some (hash (1 ∷ []) 3))
            []).0.output_partition_count)
      (written_labels {X = ℕ} (some (hash (1 ∷ []) 3)) 1)
unfolding shape
written_labels-in_range_example =
    written_labels-in_range numbers (new_planner numbers "j" "/w") sample_plan
      (some (hash (1 ∷ []) 3)) [] 1 (omega arith)

abbrev final_state : StageState numbers sample_codec
final_state = record {
  stage = second_stage;
  status = StageStatus.completed;
  encoded_plan = some 7;
  resolved_plan = none;
  tasks = record (fresh_task 0) { outputs = sample_locations } ∷ [];
  started_ms = 10;
  finished_ms = 60;
}

result_partitions_sound_example : result_partitions final_state ≡ by_label 3 sample_locations
result_partitions_sound_example =
    result_partitions_sound final_state (omega arith, (omega arith, (omega arith, tt)))

task_started-task_finished_example :
    (during : ExecutorEntry) × (lookup "e1" (task_started sample_registry "e1" (task_id 1 0 0))
      ≡ some during)
    × (free_slots during + 1 ≡ free_slots sample_entry)
    × (lookup "e1" (
          task_finished
            (task_started sample_registry "e1" (task_id 1 0 0))
            "e1"
            (task_id 1 0 0)
            true)
        ≡ some (record (finished (task_text (task_id 1 0 0)) true sample_entry) { running = [] }))
unfolding free_slots
task_started-task_finished_example =
    task_started-task_finished sample_registry "e1" (task_id 1 0 0) true sample_entry refl tt refl
      (omega arith) (omega arith)

resolve_error_lost_example :
    let after = (task_completed refused_job (task_id 1 0 0) "e1" sample_locations none 30).0 in
    (task_failed after (task_id 1 0 0) "resolve failed" 40 ≡ (after, default_transition))
    × (after.status ≡ JobStatus.running)
unfolding task_completed reported_task stage_done unblock_dependents candidates prepare_all
    prepare_stage stage_plan resolve_and_encode resolve_stage reader_for group_locations
    completed_outputs rebuild_node rebuild_operator
resolve_error_lost_example =
    resolve_error_lost refused_job (task_id 1 0 0) "e1" "resolve failed" sample_locations none 30 40
      refl

mark_pending-mark_running_example :
    task_at (mark_pending (mark_running sample_job 1 0 0 "e1" 20) 1 0 0) 1 0
    ≡ some (record (fresh_task 0) { started_ms = 20 })
mark_pending-mark_running_example =
    mark_pending-mark_running sample_job 1 0 0 "e1" 20 (fresh_task 0) refl refl refl

counts_lem_example :
    ((counts final_state).0 + (counts final_state).1 + (counts final_state).2 ≤ 1)
    × ((is_complete final_state ≡ true) ↔ ((counts final_state).0 ≡ 1))
counts_lem_example = counts_lem final_state (omega arith)
