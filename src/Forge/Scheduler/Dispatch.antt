-- ===== src/Forge/Scheduler/Dispatch.antt =====
-- `dispatch` and the round of `run_loop` of crates/forge-scheduler/src/scheduler.rs. The executors'
-- answers to launch requests come from outside, through gRPC: they are an argument.
use lakeforge.Prelude.{
  ℕ, suc, zero, String, ◌-◌, Bool, true, false, Option, none, some, List, [], ◌∷◌, ◌++◌, keep, map,
  if◌then◌else◌, ◌==◌, string_eq, nat_eq, ltb,
}
use lakeforge.Prelude.Assoc.{Assoc, values, lookup, modify}
use lakeforge.Forge.Proto.{TaskId, Result, ok, err}
use lakeforge.Forge.Plan.{DataFusion}
use lakeforge.Forge.Job.State.{Codec, JobState}
use lakeforge.Forge.Job.Ops.{is_active, pending_tasks, mark_running}
use lakeforge.Forge.Executors.{ExecutorEntry, Registry, free_slots, task_started, stale}
use lakeforge.Forge.Scheduler.State.{Scheduler, executor_lost, requeue}

pub record TaskDefinition (E : DataFusion) (C : Codec E) : Type 0 where
  pub id : TaskId
  pub plan : C.Bytes
  pub session_config : List (String × String)
  pub work_dir : String

-- `sort_by_key(|e| Reverse(e.free_slots()))`, which is stable.
unfoldable pub insert_by_slots : ExecutorEntry → List ExecutorEntry → List ExecutorEntry
insert_by_slots e [] = e ∷ []
insert_by_slots e (x ∷ xs) =
    if ltb (free_slots e) (free_slots x) then x ∷ insert_by_slots e xs else e ∷ x ∷ xs

unfoldable pub sort_by_slots : List ExecutorEntry → List ExecutorEntry
sort_by_slots [] = []
sort_by_slots (e ∷ es) = insert_by_slots e (sort_by_slots es)

-- The executors with a free slot, the freest first.
unfoldable pub free_list : Registry → List (String × ℕ)
unfolding sort_by_slots insert_by_slots
free_list r =
    map (λ (e : ExecutorEntry). (e.metadata.id, free_slots e))
      (keep (λ e. ltb 0 (free_slots e)) (sort_by_slots (values r)))

-- `max_by_key`, which is the last of the greatest, with the list after `slot.1 -= 1`.
unfoldable pub take_slot : List (String × ℕ) → Option (String × ℕ × List (String × ℕ))
take_slot [] = none
take_slot ((e, n) ∷ xs) = elim (take_slot xs) [
  | none ↦ some (e, n, (e, n - 1) ∷ xs)
  | some (e', n', xs') ↦
      if ltb n' n then some (e, n, (e, n - 1) ∷ xs) else some (e', n', (e, n) ∷ xs')
]

-- The variables of the loop that places tasks; `full` after `break 'outer`.
pub record Placing (E : DataFusion) (C : Codec E) : Type 0 where
  pub free : List (String × ℕ)
  pub executors : Registry
  pub launches : List (String × TaskDefinition E C)
  pub full : Bool

module _ {E : DataFusion} {C : Codec E} where
  abbrev pub launch_of : String → String → JobState E C → ℕ × ℕ × ℕ × C.Bytes → TaskDefinition E C
  launch_of work_dir job_id job (sid, p, a, plan) = record {
    id = record { job_id = job_id; stage_id = sid; partition_id = p; attempt = a };
    plan = plan;
    session_config = job.session_config;
    work_dir = work_dir;
  }

  -- One task on the executor that `take_slot` found, with the slots left.
  abbrev pub place_on : String → List (String × ℕ) → TaskDefinition E C → Placing E C → Placing E C
  place_on executor_id free def st = record {
    free = free;
    executors = task_started st.executors executor_id def.id;
    launches = st.launches ++ (executor_id, def) ∷ [];
    full = false;
  }

  -- The loop over the pending tasks of one job.
  unfoldable pub place_tasks :
      String
      → String
      → ℕ
      → List (ℕ × ℕ × ℕ × C.Bytes)
      → JobState E C
      → Placing E C
      → JobState E C × Placing E C
  place_tasks work_dir job_id now [] job st = (job, st)
  place_tasks work_dir job_id now ((sid, p, a, plan) ∷ tasks) job st = elim (take_slot st.free) [
    | none ↦ (job, record st { full = true })
    | some (e, n, free) ↦ elim n [
      | zero ↦ (job, record st { full = true })
      | suc m ↦
          place_tasks work_dir job_id now tasks (mark_running job sid p a e now)
            (place_on e free (launch_of work_dir job_id job (sid, p, a, plan)) st)
    ]
  ]

  -- The loop over the jobs in the order of their submission.
  unfoldable pub place_jobs :
      String
      → ℕ
      → List String
      → Assoc String (JobState E C)
      → Placing E C
      → Assoc String (JobState E C) × Placing E C
  place_jobs work_dir now [] jobs st = (jobs, st)
  place_jobs work_dir now (id ∷ ids) jobs st = elim (lookup id jobs) [
    | none ↦ place_jobs work_dir now ids jobs st
    | some job ↦ elim (is_active job) [
      | false ↦ place_jobs work_dir now ids jobs st
      | true ↦
          let (job', st') = place_tasks work_dir id now (pending_tasks job) job st in
          let jobs' = modify id (λ _. job') jobs in
          elim st'.full [ true ↦ (jobs', st') | false ↦ place_jobs work_dir now ids jobs' st' ]
    ]
  ]

  abbrev pub placing : Registry → List (String × ℕ) → Placing E C
  placing executors free = record {
    free = free;
    executors = executors;
    launches = [];
    full = false;
  }

  -- The part of `dispatch` under the lock of the jobs: the new state, and what to launch.
  abbrev pub assign_to :
      Scheduler E C → ℕ → List (String × ℕ) → Scheduler E C × List (String × TaskDefinition E C)
  assign_to s now [] = (s, [])
  assign_to s now (x ∷ xs) =
      let (jobs, st) =
        place_jobs s.config.work_dir now s.job_order s.jobs (placing s.executors (x ∷ xs)) in
      (record s { jobs = jobs; executors = st.executors }, st.launches)

  -- The part of `dispatch` before it sends.
  unfoldable pub assign : Scheduler E C → ℕ → Scheduler E C × List (String × TaskDefinition E C)
  assign s now = assign_to s now (free_list s.executors)

  -- `launches.entry(executor_id).or_default().push(..)`.
  add_launch :
      String × TaskDefinition E C
      → Assoc String (List (TaskDefinition E C))
      → Assoc String (List (TaskDefinition E C))
  add_launch (e, d) [] = (e, d ∷ []) ∷ []
  add_launch (e, d) ((x, ds) ∷ m) =
      if x == e then (x, ds ++ d ∷ []) ∷ m else (x, ds) ∷ add_launch (e, d) m

  group_launches :
      List (String × TaskDefinition E C)
      → Assoc String (List (TaskDefinition E C))
      → Assoc String (List (TaskDefinition E C))
  group_launches [] m = m
  group_launches (l ∷ ls) m = group_launches ls (add_launch l m)

  -- The answer of one executor to its launch request: the ids that it rejects, or an error.
  unfoldable pub settle :
      Scheduler E C → ℕ → String × List (TaskDefinition E C) → Result (List TaskId) → Scheduler E C
  settle s now (e, ds) (ok rejected) = requeue s e rejected
  settle s now (e, ds) (err m) = executor_lost (requeue s e (map (λ d. d.id) ds)) e now

  settle_all :
      Scheduler E C
      → ℕ
      → (String × List (TaskDefinition E C) → Result (List TaskId))
      → Assoc String (List (TaskDefinition E C))
      → Scheduler E C
  settle_all s now respond [] = s
  settle_all s now respond (g ∷ gs) = settle_all (settle s now g (respond g)) now respond gs

  pub dispatch :
      Scheduler E C
      → ℕ
      → (String × List (TaskDefinition E C) → Result (List TaskId))
      → Scheduler E C
  unfolding group_launches settle_all
  dispatch s now respond =
      let (s', launches) = assign s now in settle_all s' now respond (group_launches launches [])

  lose_all : Scheduler E C → ℕ → List String → Scheduler E C
  lose_all s now [] = s
  lose_all s now (e ∷ es) = lose_all (executor_lost s e now) now es

  -- One round of `run_loop`.
  pub run_round :
      Scheduler E C
      → ℕ
      → (String × List (TaskDefinition E C) → Result (List TaskId))
      → Scheduler E C
  unfolding lose_all
  run_round s now respond =
      dispatch (lose_all s now (stale s.executors s.config.executor_timeout now)) now respond
