-- ===== src/Forge/Executors.antt =====
-- crates/forge-scheduler/src/executors.rs: the registry of live executors. The cache of gRPC clients
-- is not modelled: it only saves connections. The clock is an argument, `now`.
pub mod Slots
pub mod Tracking
use lakeforge.Prelude.{
  ℕ, suc, zero, String, ◌+◌, ◌*◌, Bool, true, false, Option, none, some, List, [], ◌∷◌, ◌++◌,
  length, keep, map, any, u32, u64, saturating_sub, if◌then◌else◌, ◌==◌, string_eq, ltb,
}
use lakeforge.Prelude.Assoc.{Assoc, values, lookup, modify, insert, remove}
use lakeforge.Prelude.Text.{concat, decimal}
use lakeforge.Forge.Proto.{TaskId, task_text}

pub record ExecutorMetadata : Type 0 where
  pub id : String
  pub host : String
  pub port : ℕ
  pub task_slots : ℕ
  pub labels : List (String × String)

pub record ExecutorResources : Type 0 where
  pub total_memory_bytes : ℕ
  pub available_memory_bytes : ℕ
  pub cpu_cores : ℕ
  pub free_task_slots : ℕ

pub record ExecutorEntry : Type 0 where
  pub metadata : ExecutorMetadata
  pub resources : ExecutorResources
  pub last_heartbeat_ms : ℕ
  pub running : List String
  pub completed_tasks : ℕ
  pub failed_tasks : ℕ
  pub purge_jobs : List String

pub record ExecutorInfo : Type 0 where
  pub metadata : Option ExecutorMetadata
  pub resources : Option ExecutorResources
  pub last_heartbeat_ms : ℕ
  pub running_tasks : ℕ
  pub completed_tasks : ℕ
  pub failed_tasks : ℕ

abbrev pub Registry : Type 0
Registry = Assoc String ExecutorEntry

-- `HashSet::insert` and `HashSet::remove`.
abbrev pub set_insert : String → List String → List String
set_insert x s = if any (λ y. y == x) s then s else x ∷ s

abbrev pub set_remove : String → List String → List String
set_remove x [] = []
set_remove x (y ∷ s) = let rest = set_remove x s in if y == x then rest else y ∷ rest

addr : ExecutorEntry → String
addr e = concat ("http://" ∷ e.metadata.host ∷ ":" ∷ decimal e.metadata.port ∷ [])

unfoldable pub free_slots : ExecutorEntry → ℕ
free_slots e = saturating_sub e.metadata.task_slots (u32 (length e.running))

pub executor_info : ExecutorEntry → ExecutorInfo
executor_info e = record {
  metadata = some e.metadata;
  resources = some e.resources;
  last_heartbeat_ms = e.last_heartbeat_ms;
  running_tasks = u32 (length e.running);
  completed_tasks = e.completed_tasks;
  failed_tasks = e.failed_tasks;
}

abbrev pub registered : ExecutorMetadata → ExecutorResources → ℕ → ExecutorEntry
registered metadata resources now = record {
  metadata = metadata;
  resources = resources;
  last_heartbeat_ms = now;
  running = [];
  completed_tasks = 0;
  failed_tasks = 0;
  purge_jobs = [];
}

unfoldable pub register : Registry → ExecutorMetadata → ExecutorResources → ℕ → Registry
register r metadata resources now = insert metadata.id (registered metadata resources now) r

abbrev pub beat : Option ExecutorResources → ℕ → ExecutorEntry → ExecutorEntry
beat none now e = record e { last_heartbeat_ms = now; purge_jobs = [] }
beat (some res) now e = record e { last_heartbeat_ms = now; resources = res; purge_jobs = [] }

-- `heartbeat`: `none` tells the executor to register again; else the purge list is handed over.
unfoldable pub heartbeat :
    Registry → String → Option ExecutorResources → ℕ → Registry × Option (List String)
heartbeat r id resources now = elim (lookup id r) [
  | none ↦ (r, none)
  | some e ↦ (modify id (beat resources now) r, some e.purge_jobs)
]

unfoldable pub remove_executor : Registry → String → Registry × Option ExecutorEntry
remove_executor r id = (remove id r, lookup id r)

-- The loop of `total_slots`.
unfoldable pub total_slots_loop : List ExecutorEntry → ℕ × ℕ → ℕ × ℕ
total_slots_loop [] t = t
total_slots_loop (e ∷ es) (total, free) =
    total_slots_loop es (u32 (total + e.metadata.task_slots), u32 (free + free_slots e))

unfoldable pub total_slots : Registry → ℕ × ℕ
unfolding total_slots_loop free_slots
total_slots r = total_slots_loop (values r) (0, 0)

abbrev pub started : String → ExecutorEntry → ExecutorEntry
started task e = record e { running = set_insert task e.running }

unfoldable pub task_started : Registry → String → TaskId → Registry
task_started r id task = modify id (started (task_text task)) r

abbrev pub finished : String → Bool → ExecutorEntry → ExecutorEntry
finished task true e = record e {
  running = set_remove task e.running;
  completed_tasks = u64 (e.completed_tasks + 1);
}
finished task false e = record e {
  running = set_remove task e.running;
  failed_tasks = u64 (e.failed_tasks + 1);
}

unfoldable pub task_finished : Registry → String → TaskId → Bool → Registry
task_finished r id task good = modify id (finished (task_text task) good) r

unfoldable pub schedule_purge : Registry → String → Registry
schedule_purge [] job_id = []
schedule_purge ((k, e) ∷ r) job_id =
    (k, record e { purge_jobs = e.purge_jobs ++ job_id ∷ [] }) ∷ schedule_purge r job_id

-- The executors whose heartbeat is older than the timeout, in milliseconds.
unfoldable pub stale : Registry → ℕ → ℕ → List String
stale r timeout now =
    map (λ (e : ExecutorEntry). e.metadata.id)
      (keep (λ e. ltb e.last_heartbeat_ms (saturating_sub now (u64 timeout))) (values r))
