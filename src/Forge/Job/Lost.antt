-- ===== src/Forge/Job/Lost.antt =====
-- The loss of an executor (`executor_lost` of crates/forge-scheduler/src/job.rs), for every task.
use mathlib.Core.Option
use mathlib.Core.Option.{some-injective}
use lakeforge.Prelude.{
  ℕ, zero, suc, String, ◌≡◌, refl, Bool, true, false, List, [], ◌∷◌, arith, inl, inr, Bool-cases,
  ◌==◌, string_eq, nat_eq, get_elem?, any, map, if◌then◌else◌, u32, ◌+◌, ap, ◌⊎◌, some, eq_iff,
}
use lakeforge.Prelude.Assoc.{Assoc, values, lookup}
use lakeforge.Forge.Plan.{DataFusion}
use lakeforge.Forge.Job.State.{Codec, TaskSlot, JobStatus, StageState, JobState, TaskState}
use lakeforge.Forge.Job.Ops.{is_active, task_at, slot_of, runs_on, requeue_on, completed_on}
use lakeforge.Forge.Job.Events.{
  executor_lost, lost_outputs, lost_text, map_stages, requeue_stage, finish_err,
}

get_elem?-map {ℓ κ} :
    {A : Type ℓ} {B : Type κ} (f : A → B) (xs : List A) (i : ℕ)
    → get_elem? (map f xs) i ≡ Option.map f (get_elem? xs i)
get_elem?-map f [] i = refl
get_elem?-map f (x ∷ xs) zero = refl
get_elem?-map f (x ∷ xs) (suc i) = get_elem?-map f xs i

any-found {ℓ} :
    {A : Type ℓ} (q : A → Bool) (xs : List A)
    → any q xs ≡ true
    → (i : ℕ) × (x : A) × (get_elem? xs i ≡ some x) × (q x ≡ true)
any-found q [] h = cc
any-found q (x ∷ xs) h = elim (Bool-cases (q x)) [
  | inl yes_ ↦ (0, x, refl, yes_)
  | inr no_ ↦ let (i, y, here, holds) = any-found q xs (rw no_ at h) in (suc i, y, here, holds)
]

any-absent {ℓ} :
    {A : Type ℓ} (q : A → Bool) (xs : List A) (i : ℕ) (x : A)
    → get_elem? xs i ≡ some x
    → any q xs ≡ false
    → q x ≡ false
any-absent q [] i x here h = cc
any-absent q (y ∷ xs) zero x here h = elim (Bool-cases (q x)) [
  | inr no_ ↦ no_
  | inl yes_ ↦ let same : y ≡ x = some-injective y x here in cc (rw (same, yes_) at h)
]
any-absent q (y ∷ xs) (suc i) x here h = elim (Bool-cases (q y)) [
  | inr no_ ↦ any-absent q xs i x here (rw no_ at h)
  | inl yes_ ↦ cc (rw yes_ at h)
]

completed_on-state :
    (e : String) (s : TaskState) → completed_on e s ≡ true → s ≡ TaskState.completed e
completed_on-state e TaskState.pending h = cc
completed_on-state e (TaskState.running x) h = cc
completed_on-state e (TaskState.completed x) h = ap TaskState.completed ((eq_iff x e).0 h)
completed_on-state e (TaskState.failed x) h = cc

requeue_on-moves : (e : String) (t : TaskSlot) → runs_on e (requeue_on e t).state ≡ false
requeue_on-moves e t = ground arith

any-requeue :
    (e : String) (ts : List TaskSlot) → any (λ t. runs_on e t.state) (map (requeue_on e) ts) ≡ false
any-requeue e [] = refl
any-requeue e (t ∷ ts) = ground (arith, requeue_on-moves e t, any-requeue e ts)

-- What is to become of a task: one that runs on the executor is pending, as the next attempt.
abbrev pub pending_if_on : String → TaskSlot → TaskSlot
pending_if_on e t =
    if runs_on e t.state
    then record t { attempt = u32 (t.attempt + 1); state = TaskState.pending }
    else t

module _ {E : DataFusion} {C : Codec E} where
  -- Whether some task of the job runs on the executor.
  abbrev pub uses : String → Assoc ℕ (StageState E C) → Bool
  uses e stages =
      any (λ (st : StageState E C). any (λ t. runs_on e t.state) st.tasks) (values stages)

  uses-map_stages :
      (e : String) (stages : Assoc ℕ (StageState E C))
      → uses e (map_stages (requeue_stage e) stages) ≡ false
  uses-map_stages e [] = refl
  uses-map_stages e ((k, st) ∷ m) = ground (arith, any-requeue e st.tasks, uses-map_stages e m)

  slot_of-map_stages :
      (e : String) (sid p : ℕ) (stages : Assoc ℕ (StageState E C))
      → slot_of (lookup sid (map_stages (requeue_stage e) stages)) p
        ≡ Option.map (requeue_on e) (slot_of (lookup sid stages) p)
  slot_of-map_stages e sid p [] = refl
  slot_of-map_stages e sid p ((k, st) ∷ m) = elim (Bool-cases (k == sid)) [
    | inl here ↦ rw here (get_elem?-map (requeue_on e) st.tasks p)
    | inr other ↦ rw other (slot_of-map_stages e sid p m)
  ]

  -- Some task of some stage was completed on the executor.
  abbrev pub WasCompletedOn : String → JobState E C → Type 0
  WasCompletedOn e job =
      (i : ℕ) × (st : StageState E C) × (get_elem? (values job.stages) i ≡ some st)
      × (j : ℕ) × (t : TaskSlot) × (get_elem? st.tasks j ≡ some t)
      × (t.state ≡ TaskState.completed e)

  lost_outputs-found :
      (e : String) (job : JobState E C) → lost_outputs e job ≡ true → WasCompletedOn e job
  unfolding lost_outputs
  lost_outputs-found e job h =
      let (i, st, at, some_task) = any-found _ (values job.stages) h in
      let (j, t, here, there) = any-found _ st.tasks some_task in
      (i, st, at, j, t, here, completed_on-state e t.state there)

  lost_outputs-none :
      (e : String) (job : JobState E C) → lost_outputs e job ≡ false → ¬ (WasCompletedOn e job)
  unfolding lost_outputs
  lost_outputs-none e job h (i, st, at, j, t, here, there) =
      let no_task =
        any-absent (λ (x : StageState E C). any (λ u. completed_on e u.state) x.tasks)
          (values job.stages) i st at h in
      let other = any-absent (λ u. completed_on e u.state) st.tasks j t here no_task in
      let self = (eq_iff e e).1 refl in
      let same : completed_on e t.state ≡ true = rw there self in cc

  -- When an executor is lost, in an active job: every task that ran there is pending again with its
  -- attempt counted up, and no other task changes, so no task runs there; and either a task was
  -- completed there and the job fails, or none was and the job goes on.
  pub executor_lost_lem :
      (job : JobState E C) (e : String) (now sid p : ℕ)
      → is_active job ≡ true
      → (task_at (executor_lost job e now).0 sid p
          ≡ Option.map (pending_if_on e) (task_at job sid p))
        × (uses e (executor_lost job e now).0.stages ≡ false)
        × ((WasCompletedOn e job
              × ((executor_lost job e now).0.status ≡ JobStatus.failed (lost_text e))
              × ((executor_lost job e now).1.job_finished ≡ true))
            ⊎ ((¬ (WasCompletedOn e job))
                × ((executor_lost job e now).0.status ≡ job.status)
                × ((executor_lost job e now).1.job_finished ≡ false)))
  unfolding executor_lost finish_err
  executor_lost_lem job e now sid p active = elim (Bool-cases (lost_outputs e job)) [
    | inl lost ↦
        rw (active, lost)
          (
            slot_of-map_stages e sid p job.stages,
            uses-map_stages e job.stages,
            inl (lost_outputs-found e job lost, refl, refl),
          )
    | inr safe ↦
        rw (active, safe)
          (
            slot_of-map_stages e sid p job.stages,
            uses-map_stages e job.stages,
            inr (lost_outputs-none e job safe, refl, refl),
          )
  ]
