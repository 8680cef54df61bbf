-- ===== src/Jobs/Ticks.antt =====
-- The bound on the runs that a tick starts, and the jobs behind one whose run cannot be created
-- (crates/lakeforge-api/src/api/jobs.rs).
use lakeforge.Prelude.{
  ◌≡◌, refl, sym, ◌∙◌, ap, ℕ, suc, ◌+◌, ◌≤◌, length, true, false, ◌&&◌, Option, none, some, List,
  [], ◌∷◌, ◌++◌, map, ◌==◌, if◌then◌else◌, inl, inr, Bool-cases, arith, nat_eq,
}
use mathlib.Core.Path.{subst}
use lakeforge.Jobs.Tick.{
  Job, World, Tick, continuous, is_paused, max_conc, start, started_if, schedule_step,
  continuous_step, arrival_step, and_then, untouched, tick_job, tick_jobs,
}
use lakeforge.Jobs.Concurrency.{
  has_arrival, is_alone, schedule_step-bound, continuous_step-bound, arrival_step-bound,
  started_if-job, schedule_step-Keeps, schedule_step_off, continuous_step_off, arrival_step_off,
  and_then_off,
}

no_arrival : (g : Option (Option ℕ)) → has_arrival g ≡ false → g ≡ none
no_arrival none h = refl
no_arrival (some gap) h = cc

-- A tick of a job that has at most one of a schedule, a continuous trigger and a file arrival does
-- not take its active runs over max_concurrent_runs.
pub tick_job-bound :
    (now : ℕ) (w : World) (j : Job)
    → is_alone j ≡ true
    → w.active ≤ max_conc j
    → w.active + length (tick_job now (w, j)).fired ≤ max_conc j
unfolding tick_job
tick_job-bound now w j alone h =
    let t = untouched (w, j) in
    let Within : Tick → Type 0 = λ u. w.active + length u.fired ≤ max_conc j in
    let arrived : Tick → Tick = and_then (arrival_step now w) in
    elim (Bool-cases j.is_scheduled) [
      | inl scheduled ↦
          let t1 = schedule_step now w t in
          let kept = schedule_step-Keeps now w t in
          let quiet : j.is_continuous ≡ false = ground (arith, alone, scheduled) in
          let still : has_arrival j.arrival_gap ≡ false = ground (arith, alone, scheduled) in
          subst Within
            (sym (
              ap arrived
                (and_then_off (continuous_step w) t1 (continuous_step_off w t1 (kept.0 ∙ quiet)))
              ∙ and_then_off (arrival_step now w) t1
                  (arrival_step_off now w t1 (kept.1 ∙ no_arrival j.arrival_gap still))))
            (schedule_step-bound now w t refl h)
      | inr unscheduled ↦
          let first = schedule_step_off now w t unscheduled in
          let rest : Tick → Tick = λ u. arrived (and_then (continuous_step w) u) in
          elim (Bool-cases j.is_continuous) [
            | inl runs_on ↦
                let t2 = continuous_step w t in
                let still : has_arrival j.arrival_gap ≡ false = ground (arith, alone, runs_on) in
                let same = started_if-job (j.is_continuous && w.active == 0) w continuous t in
                subst Within
                  (sym (
                    ap rest first
                    ∙ and_then_off (arrival_step now w) t2 (
                        arrival_step_off now w t2
                          (ap (λ i. i.arrival_gap) same ∙ no_arrival j.arrival_gap still))))
                  (continuous_step-bound now w t refl h)
            | inr quiet ↦
                subst Within (sym (ap rest first ∙ ap arrived (continuous_step_off w t quiet)))
                  (arrival_step-bound now w t refl h)
          ]
    ]

started-fails : (w : World) (t : Tick) → w.creates ≡ false → (start w continuous t).is_ok ≡ false
unfolding start
started-fails w t h = rw h refl

and_then-fails : (f : Tick → Tick) (t : Tick) → t.is_ok ≡ false → (and_then f t).is_ok ≡ false
and_then-fails f t h = ap (λ b. (if b then f t else t).is_ok) h ∙ h

-- A continuous job without active runs, whose run cannot be created, ends the tick.
tick_job-fails :
    (now : ℕ) (w : World) (j : Job)
    → j.is_continuous ≡ true
    → w.active ≡ 0
    → w.creates ≡ false
    → (tick_job now (w, j)).is_ok ≡ false
unfolding tick_job continuous_step
tick_job-fails now w j runs_on idle fails =
    let t1 = schedule_step now w (untouched (w, j)) in
    let kept : t1.job.is_continuous ≡ true =
      (schedule_step-Keeps now w (untouched (w, j))).0 ∙ runs_on in
    and_then-fails (arrival_step now w) (and_then (continuous_step w) t1)
      (elim (Bool-cases t1.is_ok) [
        | inr failed ↦ and_then-fails (continuous_step w) t1 failed
        | inl fine ↦
            ap (λ b. (if b then continuous_step w t1 else t1).is_ok) fine
            ∙ ap (λ b. (started_if (b && w.active == 0) w continuous t1).is_ok) kept
            ∙ ap (λ n. (started_if (n == 0) w continuous t1).is_ok) idle
            ∙ started-fails w t1 fails
      ])

map-around :
    (before : List (World × Job)) (e : World × Job) (after : List (World × Job))
    → map untouched (before ++ e ∷ after)
      ≡ (map untouched before ++ untouched e ∷ []) ++ map untouched after
map-around [] e after = refl
map-around (x ∷ before) e after = ap (λ l. untouched x ∷ l) (map-around before e after)

length-around :
    (before : List (World × Job)) (e : World × Job)
    → length (map untouched before ++ untouched e ∷ []) ≡ suc (length before)
length-around [] e = refl
length-around (x ∷ before) e = ap suc (length-around before e)

-- When a continuous job without active runs cannot create its run (say, its list of tasks is
-- empty), the tick ends there: no job behind it is looked at.
pub tick_jobs_starve :
    (now : ℕ) (before : List (World × Job)) (w : World) (j : Job) (after : List (World × Job))
    → is_paused j ≡ false
    → j.is_continuous ≡ true
    → w.active ≡ 0
    → w.creates ≡ false
    → (head : List Tick) × ((tick_jobs now (before ++ (w, j) ∷ after)).0
        ≡ head ++ map untouched after)
      × (length head ≡ suc (length before))
      × ((tick_jobs now (before ++ (w, j) ∷ after)).1 ≡ false)
unfolding tick_jobs
tick_jobs_starve now [] w j after awake runs_on idle fails = (
  tick_job now (w, j) ∷ [],
  rw (awake, tick_job-fails now w j runs_on idle fails) refl,
  refl,
  rw (awake, tick_job-fails now w j runs_on idle fails) refl,
)
tick_jobs_starve now (e ∷ before) w j after awake runs_on idle fails =
    let (head, same, long, ended) =
      tick_jobs_starve now before w j after awake runs_on idle fails in
    elim (Bool-cases (is_paused e.1)) [
      | inl paused ↦
          (untouched e ∷ head, rw (paused, same) refl, ap suc long, rw (paused, ended) refl)
      | inr looked ↦ elim (Bool-cases (tick_job now e).is_ok) [
        | inl fine ↦ (
          tick_job now e ∷ head,
          rw (looked, fine, same) refl,
          ap suc long,
          rw (looked, fine, ended) refl,
        )
        | inr failed ↦ (
          tick_job now e ∷ (map untouched before ++ untouched (w, j) ∷ []),
          rw (looked, failed) (ap (λ l. tick_job now e ∷ l) (map-around before (w, j) after)),
          ap suc (length-around before (w, j)),
          rw (looked, failed) refl,
        )
      ]
    ]
