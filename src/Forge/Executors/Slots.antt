-- ===== src/Forge/Executors/Slots.antt =====
-- The slots of an executor, and the invariant of the registry (crates/forge-
-- scheduler/src/executors.rs).
use lakeforge.Prelude.{
  ℕ, String, ◌+◌, ◌≤◌, ◌<◌, ◌^◌, ◌≡◌, refl, Bool, true, false, Option, none, some, List, [], ◌∷◌,
  length, any, All, arith, if◌then◌else◌, ◌==◌, string_eq, eq_iff, inl, inr, Bool-cases, ap,
  Option-cases, ◌%◌,
}
use lakeforge.Prelude.Assoc.{
  lookup, modify, lookup-modify, All-modify, All-insert, All-remove, keys, insert, remove,
}
use lakeforge.Forge.Proto.{TaskId, task_text}
use lakeforge.Forge.Executors.{
  ExecutorEntry, Registry, set_insert, set_remove, free_slots, started, finished, task_started,
  task_finished, heartbeat, ExecutorResources, schedule_purge, beat, ExecutorMetadata, register,
  registered, remove_executor,
}
use mathlib.Core.Path.{subst}

abbrev pub member : String → List String → Bool
member x = any (λ y. y == x)

-- A set of texts, as a list: nothing stands in it twice.
abbrev pub IsSetOf : List String → Type 0
IsSetOf [] = Unit
IsSetOf (x ∷ s) = (member x s ≡ false) × IsSetOf s

pub member-set_remove :
    (x y : String) (s : List String)
    → member y (set_remove x s) ≡ (if x == y then false else member y s)
member-set_remove x y [] = ground arith
member-set_remove x y (z ∷ s) =
    ground (arith, member-set_remove x y s, eq_iff z x, eq_iff z y, eq_iff x y)

pub set_insert-IsSetOf : (x : String) (s : List String) → IsSetOf s → IsSetOf (set_insert x s)
set_insert-IsSetOf x s h = elim (Bool-cases (member x s)) [
  | inl old ↦ rw old h
  | inr new ↦ rw new (new, h)
]

pub set_remove-IsSetOf : (x : String) (s : List String) → IsSetOf s → IsSetOf (set_remove x s)
set_remove-IsSetOf x [] h = tt
set_remove-IsSetOf x (y ∷ s) h = elim (Bool-cases (y == x)) [
  | inl same ↦ rw same (set_remove-IsSetOf x s h.1)
  | inr other ↦ rw other (ground (arith, member-set_remove x y s), set_remove-IsSetOf x s h.1)
]

set_remove_absent : (x : String) (s : List String) → member x s ≡ false → set_remove x s ≡ s
set_remove_absent x [] h = refl
set_remove_absent x (y ∷ s) h = ground (arith, set_remove_absent x s)

length-set_remove :
    (x : String) (s : List String)
    → IsSetOf s
    → member x s ≡ true
    → length (set_remove x s) + 1 ≡ length s
length-set_remove x [] h m = cc
length-set_remove x (y ∷ s) h m = elim (Bool-cases (y == x)) [
  | inl same ↦
      let path : y ≡ x = (eq_iff y x).0 same in
      let absent : member x s ≡ false = subst (λ z. member z s ≡ false) path h.0 in
      rw same (rw (set_remove_absent x s absent) (omega arith))
  | inr other ↦
      let there : member x s ≡ true = ground arith in
      rw other (omega (arith, length-set_remove x s h.1 there))
]

finished-started :
    (task : String) (good : Bool) (e : ExecutorEntry)
    → member task e.running ≡ false
    → finished task good (started task e) ≡ record e {
      completed_tasks = if good then (e.completed_tasks + 1) % 2 ^ 64 else e.completed_tasks;
      failed_tasks = if good then e.failed_tasks else (e.failed_tasks + 1) % 2 ^ 64;
    }
finished-started task true e absent =
    let self : (task == task) ≡ true = (eq_iff task task).1 refl in
    rw absent (rw (self, set_remove_absent task e.running absent))
finished-started task false e absent =
    let self : (task == task) ≡ true = (eq_iff task task).1 refl in
    rw absent (rw (self, set_remove_absent task e.running absent))

-- The slots of an executor with a free one, when a task starts that does not run on it yet.
pub free_slots-started :
    (task : String) (e : ExecutorEntry)
    → member task e.running ≡ false
    → length e.running + 1 < 2 ^ 32
    → 1 ≤ free_slots e
    → free_slots (started task e) + 1 ≡ free_slots e
unfolding free_slots
free_slots-started task e absent small left = rw absent (omega arith)

-- A task that starts on a registered executor with a free slot, where it does not run yet and
-- fewer than 2 ^ 32 - 1 tasks do, takes one of its free slots; when it finishes, well or not, the
-- executor runs what it ran before, and one more task is counted, as completed or as failed,
-- modulo 2 ^ 64.
pub task_started-task_finished :
    (r : Registry) (id : String) (task : TaskId) (good : Bool) (e : ExecutorEntry)
    → lookup id r ≡ some e
    → IsSetOf e.running
    → member (task_text task) e.running ≡ false
    → length e.running + 1 < 2 ^ 32
    → 1 ≤ free_slots e
    → (during : ExecutorEntry) × (lookup id (task_started r id task) ≡ some during)
      × (free_slots during + 1 ≡ free_slots e)
      × (lookup id (task_finished (task_started r id task) id task good)
          ≡ some (record e {
            completed_tasks = if good then (e.completed_tasks + 1) % 2 ^ 64 else e.completed_tasks;
            failed_tasks = if good then e.failed_tasks else (e.failed_tasks + 1) % 2 ^ 64;
          }))
unfolding task_started task_finished
task_started-task_finished r id task good e found set absent small left =
    let self : (id == id) ≡ true = (eq_iff id id).1 refl in
    let t = task_text task in
    let starts : lookup id (modify id (started t) r) ≡ some (started t e) =
      rw (lookup-modify id id (started t) r) (rw (self, found) refl) in
    (
      started t e,
      starts,
      free_slots-started t e absent small left,
      rw (lookup-modify id id (finished t good) (modify id (started t) r))
          (rw (self, starts) (ap some (finished-started t good e absent))),
    )

pub record EntryIsValid (p : String × ExecutorEntry) : Type 0 where
  pub keyed : p.1.metadata.id ≡ p.0
  pub running_set : IsSetOf p.1.running

-- Each entry is well formed, and no executor has two.
abbrev pub RegistryIsValid : Registry → Type 0
RegistryIsValid r = All EntryIsValid r × IsSetOf (keys r)

keys-modify :
    (k : String) (f : ExecutorEntry → ExecutorEntry) (r : Registry) → keys (modify k f r) ≡ keys r
keys-modify k f [] = refl
keys-modify k f ((j, e) ∷ r) = ground (arith, keys-modify k f r)

member-keys-insert :
    (x k : String) (e : ExecutorEntry) (r : Registry)
    → member x (keys (insert k e r)) ≡ (if k == x then true else member x (keys r))
member-keys-insert x k e [] = ground arith
member-keys-insert x k e ((j, w) ∷ r) =
    ground (arith, member-keys-insert x k e r, eq_iff j k, eq_iff k x, eq_iff j x)

insert-IsSetOf :
    (k : String) (e : ExecutorEntry) (r : Registry)
    → IsSetOf (keys r)
    → IsSetOf (keys (insert k e r))
insert-IsSetOf k e [] h = (refl, tt)
insert-IsSetOf k e ((j, w) ∷ r) h = elim (Bool-cases (j == k)) [
  | inl same ↦ rw same (subst (λ z. member z (keys r) ≡ false) ((eq_iff j k).0 same) h.0, h.1)
  | inr other ↦
      rw other (
        ground (arith, member-keys-insert j k e r, eq_iff j k, eq_iff k j),
        insert-IsSetOf k e r h.1,
      )
]

member-keys-remove :
    (x k : String) (r : Registry) → member x (keys r) ≡ false → member x (keys (remove k r)) ≡ false
member-keys-remove x k [] h = refl
member-keys-remove x k ((j, w) ∷ r) h = ground (arith, member-keys-remove x k r)

remove-IsSetOf : (k : String) (r : Registry) → IsSetOf (keys r) → IsSetOf (keys (remove k r))
remove-IsSetOf k [] h = tt
remove-IsSetOf k ((j, w) ∷ r) h = elim (Bool-cases (j == k)) [
  | inl same ↦ rw same (remove-IsSetOf k r h.1)
  | inr other ↦ rw other (member-keys-remove j k r h.0, remove-IsSetOf k r h.1)
]

keys-schedule_purge : (r : Registry) (job_id : String) → keys (schedule_purge r job_id) ≡ keys r
unfolding schedule_purge
keys-schedule_purge [] job_id = refl
keys-schedule_purge ((k, e) ∷ r) job_id = ap (λ ks. k ∷ ks) (keys-schedule_purge r job_id)

-- A change of one entry that keeps it well formed.
modify-IsValid :
    (k : String) (f : ExecutorEntry → ExecutorEntry) (r : Registry)
    → ((e : ExecutorEntry) → EntryIsValid (k, e) → EntryIsValid (k, f e))
    → RegistryIsValid r
    → RegistryIsValid (modify k f r)
modify-IsValid k f r step v =
    (All-modify EntryIsValid k f r (λ e _ h. step e h) v.0, rw (keys-modify k f r) v.1)

-- The operations that change the registry, each as a call.
pub data RegistryCall : Type 0 where
  registering : ExecutorMetadata → ExecutorResources → ℕ → RegistryCall
  beating : String → Option ExecutorResources → ℕ → RegistryCall
  removing : String → RegistryCall
  starting : String → TaskId → RegistryCall
  finishing : String → TaskId → Bool → RegistryCall
  purging : String → RegistryCall

unfoldable pub call : Registry → RegistryCall → Registry
call r (registering m res now) = register r m res now
call r (beating id res now) = (heartbeat r id res now).0
call r (removing id) = (remove_executor r id).0
call r (starting id task) = task_started r id task
call r (finishing id task good) = task_finished r id task good
call r (purging job_id) = schedule_purge r job_id

beat-IsValid :
    (res : Option ExecutorResources) (now : ℕ) (k : String) (e : ExecutorEntry)
    → EntryIsValid (k, e)
    → EntryIsValid (k, beat res now e)
beat-IsValid none now k e v = record { keyed = v.keyed; running_set = v.running_set }
beat-IsValid (some x) now k e v = record { keyed = v.keyed; running_set = v.running_set }

finished-IsValid :
    (task : String) (good : Bool) (k : String) (e : ExecutorEntry)
    → EntryIsValid (k, e)
    → EntryIsValid (k, finished task good e)
finished-IsValid task true k e v = record {
  keyed = v.keyed;
  running_set = set_remove-IsSetOf task e.running v.running_set;
}
finished-IsValid task false k e v = record {
  keyed = v.keyed;
  running_set = set_remove-IsSetOf task e.running v.running_set;
}

schedule_purge-entries :
    (r : Registry) (job_id : String)
    → All EntryIsValid r
    → All EntryIsValid (schedule_purge r job_id)
unfolding schedule_purge
schedule_purge-entries [] job_id v = tt
schedule_purge-entries ((k, e) ∷ r) job_id v = (
  record { keyed = v.0.keyed; running_set = v.0.running_set },
  schedule_purge-entries r job_id v.1,
)

heartbeat-IsValid :
    (r : Registry) (id : String) (res : Option ExecutorResources) (now : ℕ)
    → RegistryIsValid r
    → RegistryIsValid (heartbeat r id res now).0
unfolding heartbeat
heartbeat-IsValid r id res now v = elim (Option-cases (lookup id r)) [
  | inl missing ↦ rw (missing, heartbeat) v
  | inr (e, found) ↦
      rw (found, heartbeat) (modify-IsValid id (beat res now) r (beat-IsValid res now id) v)
]

-- Every operation keeps the registry well formed: it has one entry for each executor, keyed by the
-- executor's id, and in each executor's set of running tasks no task stands twice.
pub call-IsValid :
    (r : Registry) (c : RegistryCall) → RegistryIsValid r → RegistryIsValid (call r c)
unfolding call register remove_executor task_started task_finished
call-IsValid r (registering m res now) v = (
  All-insert EntryIsValid m.id (registered m res now) r (record { keyed = refl; running_set = tt })
      v.0,
  insert-IsSetOf m.id (registered m res now) r v.1,
)
call-IsValid r (beating id res now) v = heartbeat-IsValid r id res now v
call-IsValid r (removing id) v = (All-remove EntryIsValid id r v.0, remove-IsSetOf id r v.1)
call-IsValid r (starting id task) v =
    modify-IsValid id (started (task_text task)) r
      (λ e h. record {
        keyed = h.keyed;
        running_set = set_insert-IsSetOf (task_text task) e.running h.running_set;
      })
      v
call-IsValid r (finishing id task good) v =
    modify-IsValid id (finished (task_text task) good) r (finished-IsValid (task_text task) good id)
      v
call-IsValid r (purging job_id) v =
    (schedule_purge-entries r job_id v.0, rw (keys-schedule_purge r job_id) v.1)
