-- ===== src/Jobs/Concurrency.antt =====
-- How many runs a tick starts, and what one that fails leaves out
-- (crates/lakeforge-api/src/api/jobs.rs).
use lakeforge.Prelude.{
  ◌≡◌, refl, ◌∙◌, ap, ℕ, zero, suc, ◌+◌, ◌≤◌, length, ltb, leb, Bool, true, false, not, ◌&&◌,
  Option, none, some, List, [], ◌∷◌, ◌==◌, if◌then◌else◌, inl, inr, Bool-cases, length-append,
  arith, nat_eq, ltb→lt, ◌*◌,
}
use lakeforge.Jobs.Tick.{
  Job, World, Tick, Trigger, periodic, continuous, file_arrival, max_conc, start, schedule_step,
  continuous_step, arrival_step, or_else, at_least_one, started_if, reschedule, schedule_due,
  arrivals, listed, watched, and_then, newest, saw_and_fired,
}

max_conc-pos : (j : Job) → 1 ≤ max_conc j
unfolding max_conc
max_conc-pos j = at_least (or_else 1 j.max_concurrent_runs)
  where
    at_least : (n : ℕ) → 1 ≤ at_least_one n
    at_least zero = omega arith
    at_least (suc n) = omega arith

-- At most one run is started.
start-length :
    (w : World) (k : Trigger) (t : Tick) → length (start w k t).fired ≤ length t.fired + 1
unfolding start
start-length w k t = elim (Bool-cases w.creates) [
  | inl fine ↦ rw fine (omega (arith, length-append t.fired (k ∷ [])))
  | inr failed ↦ rw failed (omega arith)
]

-- The job has at most one of a schedule, a continuous trigger and a file arrival.
abbrev pub has_arrival : Option (Option ℕ) → Bool
has_arrival none = false
has_arrival (some gap) = true

abbrev pub is_alone : Job → Bool
is_alone j =
    not (j.is_scheduled && j.is_continuous)
    && (not (j.is_scheduled && has_arrival j.arrival_gap)
        && not (j.is_continuous && has_arrival j.arrival_gap))

module _ (w : World) (m : ℕ) where
  -- A run is started if it is within the bound.
  started_if-bound :
      (b : Bool) (k : Trigger) (t : Tick)
      → t.fired ≡ []
      → w.active ≤ m
      → (b ≡ true → suc w.active ≤ m)
      → w.active + length (started_if b w k t).fired ≤ m
  started_if-bound false k t none_yet h g = omega (arith, ap length none_yet)
  started_if-bound true k t none_yet h g =
      omega (arith, ap length none_yet, start-length w k t, g refl)

  if-bound :
      (b : Bool) (r t : Tick)
      → w.active + length r.fired ≤ m
      → w.active + length t.fired ≤ m
      → w.active + length (if b then r else t).fired ≤ m
  if-bound true r t hr ht = hr
  if-bound false r t hr ht = ht

module _ (now : ℕ) (w : World) (t : Tick) (fresh : t.fired ≡ [])
    (h : w.active ≤ max_conc t.job) where
  not_yet : w.active + length t.fired ≤ max_conc t.job
  not_yet = omega (arith, ap length fresh)

  schedule_due-bound :
      (o : Option ℕ) → w.active + length (schedule_due now w t o).fired ≤ max_conc t.job
  unfolding max_conc
  schedule_due-bound none = not_yet
  schedule_due-bound (some at) = elim (Bool-cases (leb at now)) [
    | inl due ↦ rw due (
        started_if-bound w (max_conc t.job) (ltb w.active (max_conc t.job)) periodic
          (reschedule w t) fresh h λ room. ltb→lt w.active (max_conc t.job) room)
    | inr later ↦ rw later not_yet
  ]

  pub schedule_step-bound : w.active + length (schedule_step now w t).fired ≤ max_conc t.job
  unfolding schedule_step
  schedule_step-bound =
      if-bound w (max_conc t.job) t.job.is_scheduled _ t (schedule_due-bound t.job.next_run_ms)
        not_yet

  pub continuous_step-bound : w.active + length (continuous_step w t).fired ≤ max_conc t.job
  unfolding continuous_step
  continuous_step-bound =
      started_if-bound w (max_conc t.job) (t.job.is_continuous && w.active == 0) continuous t fresh
        h λ idle. ground (arith, max_conc-pos t.job, idle)

  arrivals-bound :
      (gap n : ℕ) (o : Option ℕ)
      → w.active + length (arrivals now w t gap n o).fired ≤ max_conc t.job
  unfolding max_conc
  arrivals-bound gap n none = not_yet
  arrivals-bound gap n (some s) =
      elim (Bool-cases (ltb s n && leb (or_else 0 t.job.last_fired_ms + gap) now)) [
        | inl newer ↦ rw newer (
            started_if-bound w (max_conc t.job) (ltb w.active (max_conc t.job)) file_arrival
              (saw_and_fired n now t) fresh h λ room. ltb→lt w.active (max_conc t.job) room)
        | inr seen ↦ rw seen not_yet
      ]

  listed-bound :
      (gap : ℕ) (o : Option (List ℕ))
      → w.active + length (listed now w t gap o).fired ≤ max_conc t.job
  listed-bound gap none = not_yet
  listed-bound gap (some ms) = arrivals-bound gap (newest ms) t.job.last_seen_ms

  watched-bound :
      (o : Option (Option ℕ)) → w.active + length (watched now w t o).fired ≤ max_conc t.job
  watched-bound none = not_yet
  watched-bound (some gap) = listed-bound (or_else 0 gap * 1000) w.listing

  pub arrival_step-bound : w.active + length (arrival_step now w t).fired ≤ max_conc t.job
  unfolding arrival_step
  arrival_step-bound = watched-bound t.job.arrival_gap

-- The steps keep which triggers a job has.
abbrev pub Keeps : Job → Job → Type 0
Keeps j i = (i.is_continuous ≡ j.is_continuous) × (i.arrival_gap ≡ j.arrival_gap)

pub started_if-job :
    (b : Bool) (w : World) (k : Trigger) (t : Tick) → (started_if b w k t).job ≡ t.job
unfolding start
started_if-job false w k t = refl
started_if-job true w k t = elim (Bool-cases w.creates) [
  | inl fine ↦ rw fine refl
  | inr failed ↦ rw failed refl
]

schedule_due-Keeps :
    (now : ℕ) (w : World) (t : Tick) (o : Option ℕ) → Keeps t.job (schedule_due now w t o).job
schedule_due-Keeps now w t none = (refl, refl)
schedule_due-Keeps now w t (some at) = elim (Bool-cases (leb at now)) [
  | inl due ↦
      let same = started_if-job (ltb w.active (max_conc t.job)) w periodic (reschedule w t) in
      rw due (ap (λ j. j.is_continuous) same, ap (λ j. j.arrival_gap) same)
  | inr later ↦ rw later (refl, refl)
]

Keeps-if :
    (j : Job) (b : Bool) (r t : Tick)
    → Keeps j r.job
    → Keeps j t.job
    → Keeps j (if b then r else t).job
Keeps-if j true r t hr ht = hr
Keeps-if j false r t hr ht = ht

pub schedule_step-Keeps : (now : ℕ) (w : World) (t : Tick) → Keeps t.job (schedule_step now w t).job
unfolding schedule_step
schedule_step-Keeps now w t =
    Keeps-if t.job t.job.is_scheduled _ t (schedule_due-Keeps now w t t.job.next_run_ms)
      (refl, refl)

-- A step whose trigger the job does not have does nothing.
pub schedule_step_off :
    (now : ℕ) (w : World) (t : Tick) → t.job.is_scheduled ≡ false → schedule_step now w t ≡ t
unfolding schedule_step
schedule_step_off now w t off =
    ap (λ b. if b then schedule_due now w t t.job.next_run_ms else t) off

pub continuous_step_off :
    (w : World) (t : Tick) → t.job.is_continuous ≡ false → continuous_step w t ≡ t
unfolding continuous_step
continuous_step_off w t off = ap (λ b. started_if (b && w.active == 0) w continuous t) off

pub arrival_step_off :
    (now : ℕ) (w : World) (t : Tick) → t.job.arrival_gap ≡ none → arrival_step now w t ≡ t
unfolding arrival_step
arrival_step_off now w t off = ap (watched now w t) off

pub and_then_off : (f : Tick → Tick) (t : Tick) → f t ≡ t → and_then f t ≡ t
and_then_off f t off = elim (Bool-cases t.is_ok) [
  | inl fine ↦ ap (λ b. if b then f t else t) fine ∙ off
  | inr failed ↦ ap (λ b. if b then f t else t) failed
]
