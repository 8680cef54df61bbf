-- ===== src/Forge/Job/Invariant/Prepare.antt =====
-- The invariant and the preparation of stages (crates/forge-scheduler/src/job.rs).
use lakeforge.Prelude.{ℕ, ◌≡◌, refl, ◌∙◌, true, List, [], ◌∷◌, All, inl, inr}
use lakeforge.Forge.Proto.{Result-cases}
use lakeforge.Forge.Plan.{DataFusion, Plan}
use lakeforge.Forge.Job.State.{Codec, JobState}
use lakeforge.Forge.Job.Ops.{
  done_at, set_stage, install, stage_plan, prepare_stage, prepare_all, task_at,
}
use lakeforge.Forge.Job.Invariant.{
  StageIsValid, StageIsValid-set_stage, done_at-set_stage, task_at-set_stage,
}

module _ {E : DataFusion} {C : Codec E} where
  -- What preparing stages leaves alone.
  pub record Prepared (job job' : JobState E C) : Type 0 where
    pub status_same : job'.status ≡ job.status
    pub tx_same : job'.result_tx ≡ job.result_tx
    pub final_same : job'.final_stage ≡ job.final_stage
    pub stages_valid : All StageIsValid job.stages → All StageIsValid job'.stages
    pub tasks_same : (s p : ℕ) → task_at job' s p ≡ task_at job s p
    pub done_stays : (j : ℕ) → done_at job j ≡ true → done_at job' j ≡ true

  pub Prepared-refl : (job : JobState E C) → Prepared job job
  Prepared-refl job = record {
    status_same = refl;
    tx_same = refl;
    final_same = refl;
    stages_valid = λ v. v;
    tasks_same = λ s p. refl;
    done_stays = λ j h. h;
  }

  pub Prepared-trans : {a b c : JobState E C} → Prepared a b → Prepared b c → Prepared a c
  Prepared-trans p q = record {
    status_same = q.status_same ∙ p.status_same;
    tx_same = q.tx_same ∙ p.tx_same;
    final_same = q.final_same ∙ p.final_same;
    stages_valid = λ v. q.stages_valid (p.stages_valid v);
    tasks_same = λ s i. q.tasks_same s i ∙ p.tasks_same s i;
    done_stays = λ j h. q.done_stays j (p.done_stays j h);
  }

  install-Prepared :
      (job : JobState E C) (sid now : ℕ) (r : Plan E × C.Bytes)
      → Prepared job (set_stage job sid (install now r))
  install-Prepared job sid now r = record {
    status_same = refl;
    tx_same = refl;
    final_same = refl;
    stages_valid = StageIsValid-set_stage job sid (install now r) λ st found v. record {
      keyed = v.keyed;
      sized = v.sized;
      numbered = v.numbered;
      completed_done = λ c. cc;
    };
    tasks_same = λ s p. task_at-set_stage job sid s p (install now r) (λ st. refl);
    done_stays = λ j. done_at-set_stage job sid j (install now r) (λ st found h. h);
  }

  pub prepare_stage-Prepared :
      (job : JobState E C) (sid now : ℕ) → Prepared job (prepare_stage job sid now).0
  unfolding prepare_stage
  prepare_stage-Prepared job sid now = elim (Result-cases (stage_plan job sid)) [
    | inl (r, e) ↦ rw (e, prepare_stage) (install-Prepared job sid now r)
    | inr (m, e) ↦ rw (e, prepare_stage) (Prepared-refl job)
  ]

  pub prepare_all-Prepared :
      (sids : List ℕ) (job : JobState E C) (now : ℕ) → Prepared job (prepare_all job sids now).0
  unfolding prepare_all
  prepare_all-Prepared [] job now = Prepared-refl job
  prepare_all-Prepared (sid ∷ sids) job now =
      let first = prepare_stage-Prepared job sid now in
      elim (Result-cases (prepare_stage job sid now).1) [
        | inl (u, e) ↦
            rw (e, prepare_all)
              (Prepared-trans first (prepare_all-Prepared sids (prepare_stage job sid now).0 now))
        | inr (m, e) ↦ rw (e, prepare_all) first
      ]
