-- ===== src/Forge/Job/Invariant.antt =====
-- The invariant of a job between two operations, and the rules by which writes keep it.
pub mod Tasks
pub mod Prepare
pub mod Events
pub mod Endings
pub mod New
use mathlib.Core.Path.{subst}
use mathlib.Core.Option
use lakeforge.Prelude.{
  ℕ, zero, suc, String, ◌+◌, ◌≡◌, refl, ◌∙◌, ap, Bool, true, false, Option, none, some, List, [],
  ◌∷◌, arith, length, All, All-modify_at, all-modify_at, all-get_elem?, length-modify_at, get_elem?,
  modify_at, u32, ◌==◌, nat_eq, nat_beq_iff, sym, Bool-cases, inl, inr, if◌then◌else◌,
}
use lakeforge.Prelude.Assoc.{Assoc, lookup, modify, All-modify, lookup-modify}
use lakeforge.Forge.Proto.{Result, ok, err, execution, cancelled}
use lakeforge.Forge.Plan.{DataFusion}
use lakeforge.Forge.Job.State.{
  Codec, TaskState, TaskSlot, is_completed, StageStatus, stage_completed, stage_runnable, JobStatus,
  StageState, JobResult, ResultChannel, open_channel, sent, JobState, is_complete,
}
use lakeforge.Forge.Job.Ops.{is_active, task_at, set_task, set_stage, done_of, done_at, slot_of}

-- The slots stand in the order of their partitions.
abbrev pub NumberedFrom : ℕ → List TaskSlot → Type 0
NumberedFrom k [] = Unit
NumberedFrom k (t ∷ ts) = (t.partition ≡ k) × NumberedFrom (suc k) ts

-- An entry of the map of stages.
pub record StageIsValid {E : DataFusion} {C : Codec E} (p : ℕ × StageState E C) : Type 0 where
  pub keyed : p.1.stage.stage_id ≡ p.0
  pub sized : length p.1.tasks ≡ u32 p.1.stage.num_tasks
  pub numbered : NumberedFrom 0 p.1.tasks
  pub completed_done : stage_completed p.1.status ≡ true → is_complete p.1 ≡ true

-- What the channel holds in each status of the job.
abbrev pub Answered : {E : DataFusion} → JobStatus → ResultChannel E → Type 0
Answered JobStatus.running tx = tx ≡ open_channel
Answered {E} JobStatus.completed tx = (r : JobResult E) × (tx ≡ sent (ok r))
Answered (JobStatus.failed m) tx = tx ≡ sent (err (execution m))
Answered JobStatus.cancelled tx = tx ≡ sent (err cancelled)

NumberedFrom-modify_at :
    (k : ℕ) (ts : List TaskSlot) (i : ℕ) (f : TaskSlot → TaskSlot)
    → ((x : TaskSlot) → (f x).partition ≡ x.partition)
    → NumberedFrom k ts
    → NumberedFrom k (modify_at ts i f)
NumberedFrom-modify_at k [] i f same h = tt
NumberedFrom-modify_at k (t ∷ ts) zero f same h = (same t ∙ h.0, h.1)
NumberedFrom-modify_at k (t ∷ ts) (suc i) f same h =
    (h.0, NumberedFrom-modify_at (suc k) ts i f same h.1)

module _ {E : DataFusion} {C : Codec E} where
  pub record JobIsValid (job : JobState E C) : Type 0 where
    pub stages_valid : All StageIsValid job.stages
    pub answered : Answered job.status job.result_tx
    pub final_done : job.status ≡ JobStatus.completed → done_at job job.final_stage ≡ true

  done_of-map :
      (o : Option (StageState E C)) (f : StageState E C → StageState E C)
      → ((st : StageState E C) → o ≡ some st → is_complete st ≡ true → is_complete (f st) ≡ true)
      → done_of o ≡ true
      → done_of (Option.map f o) ≡ true
  done_of-map none f step h = h
  done_of-map (some st) f step h = step st refl h

  -- A write to one stage.
  pub StageIsValid-set_stage :
      (job : JobState E C) (sid : ℕ) (f : StageState E C → StageState E C)
      → ((st : StageState E C)
          → lookup sid job.stages ≡ some st
          → StageIsValid (sid, st)
          → StageIsValid (sid, f st))
      → All StageIsValid job.stages
      → All StageIsValid (set_stage job sid f).stages
  StageIsValid-set_stage job sid f = All-modify StageIsValid sid f job.stages

  pub done_at-set_stage :
      (job : JobState E C) (sid j : ℕ) (f : StageState E C → StageState E C)
      → ((st : StageState E C)
          → lookup sid job.stages ≡ some st
          → is_complete st ≡ true
          → is_complete (f st) ≡ true)
      → done_at job j ≡ true
      → done_at (set_stage job sid f) j ≡ true
  done_at-set_stage job sid j f step h = elim (Bool-cases (sid == j)) [
    | inl same ↦
        let path : sid ≡ j = (nat_beq_iff sid j).0 same in
        rw (lookup-modify sid j f job.stages) (
          rw same (
            done_of-map (lookup sid job.stages) f step
              (subst (λ k. done_at job k ≡ true) (sym path) h)))
    | inr other ↦ rw (lookup-modify sid j f job.stages) (rw other h)
  ]

  -- A write to one task that is found, and stays completed if it was.
  module _ (job : JobState E C) (sid p : ℕ) (f : TaskSlot → TaskSlot) {t : TaskSlot}
      (found : task_at job sid p ≡ some t)
      (stays : is_completed t.state ≡ true → is_completed (f t).state ≡ true) where
    is_complete-set_task :
        (st : StageState E C)
        → lookup sid job.stages ≡ some st
        → is_complete st ≡ true
        → is_complete (record st { tasks = modify_at st.tasks p f }) ≡ true
    is_complete-set_task st at_sid done =
        let here : get_elem? st.tasks p ≡ some t = rw at_sid at found in
        let test : TaskSlot → Bool = λ x. is_completed x.state in
        all-modify_at test st.tasks p f here (stays (all-get_elem? test st.tasks p here done)) done

    pub done_at-set_task : (j : ℕ) → done_at job j ≡ true → done_at (set_task job sid p f) j ≡ true
    done_at-set_task j =
        done_at-set_stage job sid j (λ st. record st { tasks = modify_at st.tasks p f })
          is_complete-set_task

    pub stages_valid-set_task :
        ((x : TaskSlot) → (f x).partition ≡ x.partition)
        → All StageIsValid job.stages
        → All StageIsValid (set_task job sid p f).stages
    stages_valid-set_task same =
        StageIsValid-set_stage job sid (λ st. record st { tasks = modify_at st.tasks p f })
          λ st at_sid v. record {
            keyed = v.keyed;
            sized = length-modify_at st.tasks p f ∙ v.sized;
            numbered = NumberedFrom-modify_at 0 st.tasks p f same v.numbered;
            completed_done = λ c. is_complete-set_task st at_sid (v.completed_done c);
          }

  slot_of-map :
      (o : Option (StageState E C)) (p : ℕ) (f : StageState E C → StageState E C)
      → ((st : StageState E C) → (f st).tasks ≡ st.tasks)
      → slot_of (Option.map f o) p ≡ slot_of o p
  slot_of-map none p f same = refl
  slot_of-map (some st) p f same = ap (λ ts. get_elem? ts p) (same st)

  -- A write to a stage that leaves its tasks alone.
  pub task_at-set_stage :
      (job : JobState E C) (sid s p : ℕ) (f : StageState E C → StageState E C)
      → ((st : StageState E C) → (f st).tasks ≡ st.tasks)
      → task_at (set_stage job sid f) s p ≡ task_at job s p
  task_at-set_stage job sid s p f same = elim (Bool-cases (sid == s)) [
    | inl here ↦
        let path : sid ≡ s = (nat_beq_iff sid s).0 here in
        rw (lookup-modify sid s f job.stages)
          (rw here (slot_of-map (lookup sid job.stages) p f same ∙ ap (λ k. task_at job k p) path))
    | inr other ↦ rw (lookup-modify sid s f job.stages) (rw other refl)
  ]
