-- ===== src/Forge/Job/Invariant/New.antt =====
-- The invariant and `JobState::new` (crates/forge-scheduler/src/job.rs).
use mathlib.Core.Path.{subst}
use lakeforge.Prelude.{
  ℕ, zero, suc, String, ◌≡◌, refl, ap, false, List, [], ◌∷◌, All, length, u32, inl, inr, if_ind,
  get_last?,
}
use lakeforge.Prelude.Assoc.{Assoc, keys, All-insert_sorted}
use lakeforge.Forge.Proto.{Result, ok, scheduler, Result-cases, >>=-eq-ok, ok-injective, ok_or}
use lakeforge.Forge.Plan.{DataFusion}
use lakeforge.Forge.Planner.{QueryStage}
use lakeforge.Forge.Job.State.{
  Codec, StageState, JobState, JobStatus, stage_completed, first_status, fresh_tasks, new_stage,
}
use lakeforge.Forge.Job.Ops.{
  prepare_stage, prepare_runnable, stage_map, new_job, is_ready, first_job, prepare_if_ready,
}
use lakeforge.Forge.Job.Invariant.{StageIsValid, JobIsValid, NumberedFrom}
use lakeforge.Forge.Job.Invariant.Prepare.{
  Prepared, Prepared-refl, Prepared-trans, prepare_stage-Prepared,
}
use lakeforge.Forge.Job.Invariant.Events.{running-IsValid}

length-fresh_tasks : (start n : ℕ) → length (fresh_tasks start n) ≡ n
unfolding fresh_tasks
length-fresh_tasks start zero = refl
length-fresh_tasks start (suc n) = ap suc (length-fresh_tasks (suc start) n)

NumberedFrom-fresh_tasks : (start n : ℕ) → NumberedFrom start (fresh_tasks start n)
unfolding fresh_tasks
NumberedFrom-fresh_tasks start zero = tt
NumberedFrom-fresh_tasks start (suc n) = (refl, NumberedFrom-fresh_tasks (suc start) n)

first_status-open : (ds : List ℕ) → stage_completed (first_status ds) ≡ false
first_status-open [] = refl
first_status-open (d ∷ ds) = refl

module _ {E : DataFusion} {C : Codec E} where
  new_stage-IsValid : (s : QueryStage E) → StageIsValid {C = C} (s.stage_id, new_stage s)
  unfolding new_stage
  new_stage-IsValid s = record {
    keyed = refl;
    sized = length-fresh_tasks 0 (u32 s.num_tasks);
    numbered = NumberedFrom-fresh_tasks 0 (u32 s.num_tasks);
    completed_done = λ c. cc (first_status-open s.depends_on);
  }

  stage_map-valid :
      (ss : List (QueryStage E)) (m : Assoc ℕ (StageState E C))
      → All StageIsValid m
      → All StageIsValid (stage_map ss m)
  unfolding stage_map
  stage_map-valid [] m v = v
  stage_map-valid (s ∷ ss) m v =
      stage_map-valid ss _
        (All-insert_sorted StageIsValid s.stage_id (new_stage s) m (new_stage-IsValid s) v)

  prepare_if_ready-Prepared :
      (job : JobState E C) (sid now : ℕ) → Prepared job (prepare_if_ready job sid now).0
  unfolding prepare_if_ready
  prepare_if_ready-Prepared job sid now =
      if_ind (λ (r : JobState E C × Result (Unit {0})). Prepared job r.0) (is_ready job sid)
        (prepare_stage job sid now) (job, ok tt) (λ _. prepare_stage-Prepared job sid now)
        (λ _. Prepared-refl job)

  prepare_runnable-Prepared :
      (sids : List ℕ) (job : JobState E C) (now : ℕ)
      → Prepared job (prepare_runnable job sids now).0
  unfolding prepare_runnable
  prepare_runnable-Prepared [] job now = Prepared-refl job
  prepare_runnable-Prepared (sid ∷ sids) job now =
      let first = prepare_if_ready-Prepared job sid now in
      elim (Result-cases (prepare_if_ready job sid now).1) [
        | inl (u, e) ↦
            rw (e, prepare_runnable)
              (Prepared-trans first
                (prepare_runnable-Prepared sids (prepare_if_ready job sid now).0 now))
        | inr (m, e) ↦ rw (e, prepare_runnable) first
      ]

  -- A job that is made satisfies the invariant, and runs.
  pub new_job-IsValid :
      (job_id sql : String) (config : List (String × String)) (max_retries : ℕ)
      (stages : List (QueryStage E)) (schema : E.Schema) (now : ℕ) {job : JobState E C}
      → new_job job_id sql config max_retries stages schema now ≡ ok job
      → JobIsValid job × (job.status ≡ JobStatus.running)
  unfolding new_job
  new_job-IsValid job_id sql config max_retries stages schema now {job} h =
      let (last, _, h') =
        >>=-eq-ok (ok_or (get_last? stages) (scheduler "plan produced no stages")) _ h in
      let start : JobState E C =
        first_job job_id sql config max_retries stages schema now last.stage_id in
      let prepared = prepare_runnable-Prepared (keys start.stages) start now in
      let (job', r) = prepare_runnable start (keys start.stages) now in
      let (u, _, h'') = >>=-eq-ok r (λ _. ok job') h' in
      subst (λ j. JobIsValid j × (j.status ≡ JobStatus.running)) (ok-injective job' job h'')
        (
          running-IsValid job' prepared.status_same prepared.tx_same
              (prepared.stages_valid (stage_map-valid stages [] tt)),
          prepared.status_same,
        )
