-- ===== src/Jobs/TickWitnesses.antt =====
-- A tick of a scheduled job, and of a continuous job whose run cannot be created before it.
use lakeforge.Prelude.{
  ◌≡◌, refl, suc, ◌+◌, ◌≤◌, length, true, false, none, some, List, [], ◌∷◌, ◌++◌, map, arith,
}
use lakeforge.Jobs.Tick.{
  Job, World, Tick, periodic, is_paused, max_conc, start, schedule_step, continuous_step,
  arrival_step, untouched, tick_job, tick_jobs,
}
use lakeforge.Jobs.Ticks.{tick_job-bound, tick_jobs_starve}

abbrev scheduled_job : Job
scheduled_job = record {
  job_id = 1;
  schedule_status = none;
  continuous_status = none;
  trigger_status = none;
  max_concurrent_runs = none;
  is_scheduled = true;
  is_continuous = false;
  arrival_gap = none;
  next_run_ms = some 100;
  last_fired_ms = none;
  last_seen_ms = none;
}

abbrev continuous_job : Job
continuous_job = record scheduled_job { job_id = 2; is_scheduled = false; is_continuous = true }

-- With a file arrival too, one tick may start two runs.
abbrev watched_job : Job
watched_job = record scheduled_job { arrival_gap = some none; last_seen_ms = some 10 }

abbrev idle : World
idle = record { active = 0; next_fire = some 200; listing = some (20 ∷ []); creates = true }

abbrev broken : World
broken = record idle { creates = false }

test_tick_job : (tick_job 150 (idle, scheduled_job)).fired ≡ periodic ∷ []
unfolding tick_job schedule_step continuous_step arrival_step start max_conc
test_tick_job = refl

test_tick_two : length (tick_job 150 (idle, watched_job)).fired ≡ suc (max_conc watched_job)
unfolding tick_job schedule_step continuous_step arrival_step start max_conc
test_tick_two = refl

tick_job-bound_example :
    idle.active + length (tick_job 150 (idle, scheduled_job)).fired ≤ max_conc scheduled_job
tick_job-bound_example = tick_job-bound 150 idle scheduled_job refl (omega arith)

tick_jobs_starve_example :
    (head : List Tick) × ((tick_jobs 150
        ([] ++ (broken, continuous_job) ∷ (idle, scheduled_job) ∷ [])).0
      ≡ head ++ map untouched ((idle, scheduled_job) ∷ []))
    × (length head ≡ 1)
    × ((tick_jobs 150 ([] ++ (broken, continuous_job) ∷ (idle, scheduled_job) ∷ [])).1 ≡ false)
unfolding is_paused
tick_jobs_starve_example =
    tick_jobs_starve 150 [] broken continuous_job ((idle, scheduled_job) ∷ []) refl refl refl refl
