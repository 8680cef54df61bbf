-- ===== src/Forge/Samples.antt =====
-- Small concrete inputs for the witnesses: a DataFusion of numbers, and a plan with one exchange.
use lakeforge.Prelude.{ℕ, suc, zero, none, some, List, [], ◌∷◌, ◌≡◌, refl}
use lakeforge.Forge.Proto.{ShufflePartitionLocation, TaskId, Result, ok, err, internal, cancelled}
use lakeforge.Forge.Plan.{
  hash, repartition, DataFusion, Plan, operator, exchange, shuffle_writer, nil, cons, shape,
  unresolved_shuffle,
}
use lakeforge.Forge.Planner.{
  QueryStage, plan_stages, new_planner, split, split_exchange, repartition_stage, push_stage,
  consumer_partitions, output_partition_count, rebuild_node, rebuild_operator, rebuild_exchange,
}
use lakeforge.Forge.Resolve.{Outputs, resolve_stage}
use lakeforge.Forge.Executors.{ExecutorEntry, Registry}
use lakeforge.Forge.Executors.Slots.{RegistryIsValid}
use lakeforge.Forge.Scheduler.State.{Scheduler}
use lakeforge.Forge.Job.State.{
  Codec, JobState, JobStatus, StageStatus, open_channel, sent, fresh_task, fresh_tasks, new_stage,
}
use lakeforge.Forge.Job.Ops.{
  new_job, set_task, running_slot, stage_map, prepare_runnable, prepare_if_ready, prepare_stage,
  stage_plan, resolve_and_encode,
}

-- An operator is a number: the partitions that a leaf has.
abbrev first_count : ℕ → List (ℕ × ℕ) → ℕ
first_count o [] = o
first_count o ((s, n) ∷ cs) = n

abbrev pub numbers : DataFusion
numbers = record {
  Operator = ℕ;
  Schema = ℕ;
  Expr = ℕ;
  schema_of = λ o _. o;
  partitions_of = first_count;
  operator_refuses = λ _ _. none;
  exchange_refuses = λ _ _. none;
  stats_schema = 0;
}

abbrev pub sample_codec : Codec numbers
sample_codec = record { Bytes = ℕ; encode_plan = λ _. ok 7; display_plan = λ _. "plan" }

-- A codec that refuses the plan of every stage but the first.
abbrev encode_first : Plan numbers → Result ℕ
encode_first (shuffle_writer j (suc zero) c q w) = ok 7
encode_first _ = err (internal "not supported")

abbrev pub refusing_codec : Codec numbers
refusing_codec = record { Bytes = ℕ; encode_plan = encode_first; display_plan = λ _. "plan" }

-- A scan of two partitions, repartitioned into three.
abbrev pub sample_plan : Plan numbers
sample_plan = operator 5 (cons (exchange (repartition (hash (1 ∷ []) 3)) (operator 2 nil)) nil)

abbrev pub first_stage : QueryStage numbers
first_stage = record {
  stage_id = 1;
  plan = shuffle_writer "j" 1 (operator 2 nil) (some (hash (1 ∷ []) 3)) "/w";
  depends_on = [];
  num_tasks = 2;
  output_partitions = 3;
}

abbrev pub second_stage : QueryStage numbers
second_stage = record {
  stage_id = 2;
  plan = shuffle_writer "j" 2 (operator 5 (cons (unresolved_shuffle 1 2 3) nil)) none "/w";
  depends_on = 1 ∷ [];
  num_tasks = 3;
  output_partitions = 1;
}

abbrev pub sample_stages : List (QueryStage numbers)
sample_stages = first_stage ∷ second_stage ∷ []

pub sample_plan-planned :
    plan_stages numbers (new_planner numbers "j" "/w") sample_plan ≡ ok sample_stages
unfolding plan_stages new_planner split split_exchange repartition_stage push_stage
    consumer_partitions output_partition_count rebuild_node rebuild_operator rebuild_exchange shape
sample_plan-planned = refl

-- The job of the sample stages, and the same under the codec that refuses its second stage.
abbrev pub sample_job : JobState numbers sample_codec
sample_job = record {
  job_id = "j";
  sql = "select";
  session_config = [];
  max_retries = 1;
  submitted_ms = 10;
  finished_ms = 0;
  status = JobStatus.running;
  stages =
      (
        1,
        record {
          stage = first_stage;
          status = StageStatus.runnable;
          encoded_plan = some 7;
          resolved_plan = some first_stage.plan;
          tasks = fresh_task 0 ∷ fresh_task 1 ∷ [];
          started_ms = 10;
          finished_ms = 0;
        },
      )
      ∷ (
        2,
        record {
          stage = second_stage;
          status = StageStatus.blocked;
          encoded_plan = none;
          resolved_plan = none;
          tasks = fresh_task 0 ∷ fresh_task 1 ∷ fresh_task 2 ∷ [];
          started_ms = 0;
          finished_ms = 0;
        },
      )
      ∷ [];
  final_stage = 2;
  result_schema = 5;
  result_tx = open_channel;
}

pub sample_job-new : new_job "j" "select" [] 1 sample_stages 5 10 ≡ ok sample_job
unfolding new_job stage_map new_stage fresh_tasks prepare_runnable prepare_if_ready prepare_stage
    stage_plan resolve_and_encode resolve_stage rebuild_node
sample_job-new = refl

-- The same job after its first task is sent to the executor "e1".
abbrev pub launched_job : JobState numbers sample_codec
launched_job = set_task sample_job 1 0 (running_slot "e1" 20)

-- The same job after it is cancelled.
abbrev pub ended_job : JobState numbers sample_codec
ended_job = record sample_job { status = JobStatus.cancelled; result_tx = sent (err cancelled) }

abbrev pub labelled_location : ℕ → ShufflePartitionLocation
labelled_location i = record {
  map_partition_id = 0;
  output_partition_id = i;
  executor_id = "e1";
  executor_addr = "http://h:1";
  path = "/w/j/1/0";
  num_rows = 4;
  num_bytes = 64;
  num_batches = 1;
}

-- What the first stage writes.
abbrev pub sample_locations : List ShufflePartitionLocation
sample_locations = labelled_location 0 ∷ labelled_location 2 ∷ labelled_location 0 ∷ []

abbrev pub sample_outputs : Outputs
sample_outputs (suc zero) = some sample_locations
sample_outputs _ = none

abbrev pub task_id : ℕ → ℕ → ℕ → TaskId
task_id s p a = record { job_id = "j"; stage_id = s; partition_id = p; attempt = a }

-- A one-task first stage under the codec that refuses the second stage.
abbrev pub refused_job : JobState numbers refusing_codec
refused_job = record {
  job_id = "j";
  sql = "select";
  session_config = [];
  max_retries = 1;
  submitted_ms = 10;
  finished_ms = 0;
  status = JobStatus.running;
  stages =
      (
        1,
        record {
          stage = first_stage;
          status = StageStatus.runnable;
          encoded_plan = some 7;
          resolved_plan = some first_stage.plan;
          tasks = running_slot "e1" 20 (fresh_task 0) ∷ [];
          started_ms = 10;
          finished_ms = 0;
        },
      )
      ∷ (
        2,
        record {
          stage = second_stage;
          status = StageStatus.blocked;
          encoded_plan = none;
          resolved_plan = none;
          tasks = fresh_task 0 ∷ [];
          started_ms = 0;
          finished_ms = 0;
        },
      )
      ∷ [];
  final_stage = 2;
  result_schema = 5;
  result_tx = open_channel;
}

abbrev pub sample_entry : ExecutorEntry
sample_entry = record {
  metadata = record { id = "e1"; host = "h"; port = 1; task_slots = 2; labels = [] };
  resources = record {
    cpu_cores = 4;
    total_memory_bytes = 1024;
    available_memory_bytes = 512;
    free_task_slots = 2;
  };
  last_heartbeat_ms = 5;
  running = [];
  completed_tasks = 0;
  failed_tasks = 0;
  purge_jobs = [];
}

abbrev pub sample_registry : Registry
sample_registry = ("e1", sample_entry) ∷ []

pub sample_registry-IsValid : RegistryIsValid sample_registry
sample_registry-IsValid = ((record { keyed = refl; running_set = tt }, tt), (refl, tt))

abbrev pub sample_scheduler : Scheduler numbers sample_codec
sample_scheduler = record {
  config = record {
    driver_addr = "http://d:1";
    work_dir = "/w";
    executor_timeout = 100;
    max_jobs_retained = 1;
  };
  executors = sample_registry;
  jobs = ("j", sample_job) ∷ [];
  job_order = "j" ∷ [];
  cancel_requests = [];
}
