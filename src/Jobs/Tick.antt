-- ===== src/Jobs/Tick.antt =====
-- The scheduler tick (`tick_jobs`, crates/lakeforge-api/src/api/jobs.rs). Times and numbers of
-- settings are natural numbers; JSON settings are the fields that the tick reads.
use lakeforge.Prelude.{
  ℕ, zero, suc, ◌+◌, ◌*◌, leb, ltb, Bool, true, false, ◌&&◌, ◌||◌, Option, none, some, List, [],
  ◌∷◌, ◌++◌, map, ◌==◌, if◌then◌else◌, nat_eq,
}
use lakeforge.Uc.Names.{Name, codes, name_eq}

pub data Trigger : Type 0 where
  periodic continuous file_arrival : Trigger

-- A job: the `pause_status` of its three triggers, those that it has, of a file arrival the gap in
-- seconds, and what the ticks keep.
pub record Job : Type 0 where
  pub job_id : ℕ
  pub schedule_status : Option Name
  pub continuous_status : Option Name
  pub trigger_status : Option Name
  pub max_concurrent_runs : Option ℕ
  pub is_scheduled : Bool
  pub is_continuous : Bool
  pub arrival_gap : Option (Option ℕ)
  pub next_run_ms : Option ℕ
  pub last_fired_ms : Option ℕ
  pub last_seen_ms : Option ℕ

-- What a tick finds for a job: the active runs, the next time of the schedule, the times of the
-- files, if the listing succeeds, and whether `create_run` does.
pub record World : Type 0 where
  pub active : ℕ
  pub next_fire : Option ℕ
  pub listing : Option (List ℕ)
  pub creates : Bool

-- The job as it is saved, the runs that are started, and whether the tick goes on.
pub record Tick : Type 0 where
  pub job : Job
  pub fired : List Trigger
  pub is_ok : Bool

abbrev pub is_status : Option Name → Bool
is_status none = false
is_status (some s) = s == codes "PAUSED"

unfoldable pub is_paused : Job → Bool
is_paused j =
    is_status j.schedule_status || (is_status j.continuous_status || is_status j.trigger_status)

abbrev pub or_else {ℓ} : {A : Type ℓ} → A → Option A → A
or_else d none = d
or_else d (some a) = a

abbrev pub at_least_one : ℕ → ℕ
at_least_one zero = 1
at_least_one (suc n) = suc n

unfoldable pub max_conc : Job → ℕ
max_conc j = at_least_one (or_else 1 j.max_concurrent_runs)

abbrev pub newest : List ℕ → ℕ
newest [] = 0
newest (m ∷ ms) = let rest = newest ms in if leb m rest then rest else m

-- `create_run` and `spawn_run`, or the end of the tick.
unfoldable pub start : World → Trigger → Tick → Tick
start w trigger t =
    if w.creates then record t { fired = t.fired ++ trigger ∷ [] } else record t { is_ok = false }

abbrev pub started_if : Bool → World → Trigger → Tick → Tick
started_if b w trigger t = if b then start w trigger t else t

abbrev pub reschedule : World → Tick → Tick
reschedule w t = record t { job = record t.job { next_run_ms = w.next_fire } }

abbrev pub schedule_due : ℕ → World → Tick → Option ℕ → Tick
schedule_due now w t none = reschedule w t
schedule_due now w t (some at) =
    if leb at now then started_if (ltb w.active (max_conc t.job)) w periodic (reschedule w t) else t

unfoldable pub schedule_step : ℕ → World → Tick → Tick
unfolding start max_conc
schedule_step now w t = if t.job.is_scheduled then schedule_due now w t t.job.next_run_ms else t

unfoldable pub continuous_step : World → Tick → Tick
unfolding start
continuous_step w t = started_if (t.job.is_continuous && w.active == 0) w continuous t

abbrev pub saw : ℕ → Tick → Tick
saw n t = record t { job = record t.job { last_seen_ms = some n } }

abbrev pub saw_and_fired : ℕ → ℕ → Tick → Tick
saw_and_fired n now t = record t {
  job = record t.job { last_seen_ms = some n; last_fired_ms = some now };
}

abbrev pub arrivals : ℕ → World → Tick → ℕ → ℕ → Option ℕ → Tick
arrivals now w t gap n none = saw n t
arrivals now w t gap n (some s) =
    if ltb s n && leb (or_else 0 t.job.last_fired_ms + gap) now
    then started_if (ltb w.active (max_conc t.job)) w file_arrival (saw_and_fired n now t)
    else t

abbrev pub listed : ℕ → World → Tick → ℕ → Option (List ℕ) → Tick
listed now w t gap none = t
listed now w t gap (some ms) = arrivals now w t gap (newest ms) t.job.last_seen_ms

abbrev pub watched : ℕ → World → Tick → Option (Option ℕ) → Tick
watched now w t none = t
watched now w t (some gap) = listed now w t (or_else 0 gap * 1000) w.listing

unfoldable pub arrival_step : ℕ → World → Tick → Tick
unfolding start max_conc
arrival_step now w t = watched now w t t.job.arrival_gap

-- A step after one that succeeds.
abbrev pub and_then : (Tick → Tick) → Tick → Tick
and_then f t = if t.is_ok then f t else t

abbrev pub untouched : World × Job → Tick
untouched e = record { job = e.1; fired = []; is_ok = true }

-- The tick of a job that is not paused.
unfoldable pub tick_job : ℕ → World × Job → Tick
unfolding schedule_step continuous_step arrival_step
tick_job now e =
    and_then (arrival_step now e.0)
      (and_then (continuous_step e.0) (schedule_step now e.0 (untouched e)))

unfoldable pub tick_jobs : ℕ → List (World × Job) → List Tick × Bool
unfolding tick_job is_paused
tick_jobs now [] = ([], true)
tick_jobs now (e ∷ es) =
    let rest = tick_jobs now es in
    let t = tick_job now e in
    if is_paused e.1
    then (untouched e ∷ rest.0, rest.1)
    else if t.is_ok
    then (t ∷ rest.0, rest.1)
    else (t ∷ map untouched es, false)
