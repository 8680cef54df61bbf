-- ===== src/Forge/Scheduler/Eviction.antt =====
-- The eviction of old jobs in `submit` of crates/forge-scheduler/src/scheduler.rs, and what becomes
-- of a job that it takes off the order of submission.
use lakeforge.Prelude.{
  ℕ, suc, zero, String, ◌-◌, ◌≤◌, ◌≡◌, refl, ◌∙◌, true, false, some, List, [], ◌∷◌, ◌++◌, length,
  length-append, take, drop, not, ◌==◌, string_eq, ltb, lt→ltb, ltb→lt, arith, inl, inr, Bool-cases,
  Option-cases, eq_iff,
}
use mathlib.Core.Path.{subst}
use lakeforge.Prelude.Assoc.{
  Assoc, lookup, modify, lookup-modify, insert, remove, lookup-insert, lookup-remove,
}
use lakeforge.Forge.Plan.{DataFusion}
use lakeforge.Forge.Job.State.{Codec, JobState}
use lakeforge.Forge.Job.Ops.{is_active, pending_tasks}
use lakeforge.Forge.Executors.Slots.{member}
use lakeforge.Forge.Scheduler.State.{Scheduler, has_ended, evict, enqueue}
use lakeforge.Forge.Scheduler.Dispatch.{
  Placing, place_tasks, place_jobs, placing, assign_to, assign, free_list,
}

length-drop {ℓ} : {A : Type ℓ} (n : ℕ) (xs : List A) → length (drop n xs) ≡ length xs - n
length-drop zero xs = omega arith
length-drop (suc n) [] = omega arith
length-drop (suc n) (x ∷ xs) = omega (arith, length-drop n xs)

member-append :
    (x : String) (ids : List String) (y : String)
    → member x ids ≡ false
    → (y == x) ≡ false
    → member x (ids ++ y ∷ []) ≡ false
member-append x [] y absent other = ground arith
member-append x (i ∷ ids) y absent other = ground (arith, member-append x ids y)

module _ {E : DataFusion} {C : Codec E} where
  evict-keeps_active :
      (ids : List String) (jobs : Assoc String (JobState E C)) (id : String) (job : JobState E C)
      → lookup id jobs ≡ some job
      → is_active job ≡ true
      → lookup id (evict ids jobs) ≡ some job
  unfolding evict
  evict-keeps_active [] jobs id job known active = known
  evict-keeps_active (x ∷ xs) jobs id job known active =
      elim (Bool-cases (has_ended (lookup x jobs))) [
        | inr stays ↦ rw (evict, stays) (evict-keeps_active xs jobs id job known active)
        | inl ended ↦
            rw (evict, ended)
              (evict-keeps_active xs (remove x jobs) id job
                (lookup-remove x id jobs ∙ elim (Bool-cases (x == id)) [
                  | inr other ↦ rw other known
                  | inl same ↦
                      let path : x ≡ id = (eq_iff x id).0 same in
                      let gone : has_ended (lookup id jobs) ≡ true =
                        subst (λ z. has_ended (lookup z jobs) ≡ true) path ended in
                      let clash : not (is_active job) ≡ true = rw known at gone in
                      ground (arith, clash, active)
                ])
                active)
      ]

  -- For a job that is known and active, a submission under another id leaves it known and
  -- unchanged, and at most `max_jobs_retained` jobs in the order.
  pub enqueue_lem :
      (s : Scheduler E C) (job_id : String) (new : JobState E C) (id : String) (job : JobState E C)
      → lookup id s.jobs ≡ some job
      → is_active job ≡ true
      → (job_id == id) ≡ false
      → (length (enqueue s job_id new).job_order ≤ s.config.max_jobs_retained)
        × (lookup id (enqueue s job_id new).jobs ≡ some job)
  unfolding enqueue
  enqueue_lem s job_id new id job known active other =
      let m = s.config.max_jobs_retained in
      let order = s.job_order ++ job_id ∷ [] in
      let still : lookup id (insert job_id new s.jobs) ≡ some job =
        lookup-insert job_id id new s.jobs ∙ rw other known in
      elim (Bool-cases (ltb m (length order))) [
        | inl over ↦
            let long = ltb→lt m (length order) over in
            let rest = length-drop (length order - m) order in
            let kept =
              evict-keeps_active (take (length order - m) order) (insert job_id new s.jobs) id job
                still active in
            rw (enqueue, over) (omega (arith, long, rest), kept)
        | inr fits ↦ rw (enqueue, fits) (ground (arith, fits), still)
      ]

  place_jobs_absent :
      (id work_dir : String) (now : ℕ) (ids : List String) (jobs : Assoc String (JobState E C))
      (st : Placing E C)
      → member id ids ≡ false
      → lookup id (place_jobs work_dir now ids jobs st).0 ≡ lookup id jobs
  unfolding place_jobs
  place_jobs_absent id work_dir now [] jobs st absent = refl
  place_jobs_absent id work_dir now (x ∷ ids) jobs st absent = elim (Option-cases (lookup x jobs)) [
    | inl unknown ↦ rw (place_jobs, unknown) (place_jobs_absent id work_dir now ids jobs st later)
    | inr (job, known) ↦ elim (Bool-cases (is_active job)) [
      | inr ended ↦
          rw (place_jobs, known, ended) (place_jobs_absent id work_dir now ids jobs st later)
      | inl active ↦
          let placed = place_tasks work_dir x now (pending_tasks job) job st in
          let jobs' = modify x (λ _. placed.0) jobs in
          let here : lookup id jobs' ≡ lookup id jobs =
            lookup-modify x id (λ _. placed.0) jobs ∙ rw differs refl in
          elim (Bool-cases placed.1.full) [
            | inl full ↦ rw (place_jobs, known, active, full) here
            | inr room ↦
                rw (place_jobs, known, active, room)
                  (place_jobs_absent id work_dir now ids jobs' placed.1 later ∙ here)
          ]
    ]
  ]
    where
      later : member id ids ≡ false
      later = ground arith

      differs : (x == id) ≡ false
      differs = ground arith

  assign_absent :
      (s : Scheduler E C) (now : ℕ) (id : String)
      → member id s.job_order ≡ false
      → lookup id (assign s now).0.jobs ≡ lookup id s.jobs
  unfolding assign
  assign_absent s now id absent =
      elim (free_list s.executors)
        as (λ free. lookup id (assign_to s now free).0.jobs ≡ lookup id s.jobs) [
          | [] ↦ refl
          | x ∷ xs ↦
              place_jobs_absent id s.config.work_dir now s.job_order s.jobs
                (placing s.executors (x ∷ xs)) absent
        ]

  enqueue-order :
      (s : Scheduler E C) (job_id id : String) (ids : List String) (new : JobState E C)
      → s.job_order ≡ id ∷ ids
      → length s.job_order ≡ s.config.max_jobs_retained
      → (enqueue s job_id new).job_order ≡ ids ++ job_id ∷ []
  unfolding enqueue
  enqueue-order s job_id id ids new oldest full =
      let m = s.config.max_jobs_retained in
      let order = s.job_order ++ job_id ∷ [] in
      let size : length order ≡ suc m =
        omega (arith, length-append s.job_order (job_id ∷ []), full) in
      let over : ltb m (length order) ≡ true = lt→ltb m (length order) (omega (arith, size)) in
      let excess : length order - m ≡ 1 = omega (arith, size) in
      rw (enqueue, over) (rw excess (rw oldest refl))

  -- When the order is full and its oldest job is active, a submission under another id takes that
  -- job off the order but leaves it among the jobs, still active, and the round of dispatch that
  -- follows does not touch it.
  pub enqueue-assign_starved :
      (s : Scheduler E C) (job_id id : String) (ids : List String) (new job : JobState E C)
      (now : ℕ)
      → s.job_order ≡ id ∷ ids
      → member id ids ≡ false
      → length s.job_order ≡ s.config.max_jobs_retained
      → (job_id == id) ≡ false
      → lookup id s.jobs ≡ some job
      → is_active job ≡ true
      → ((enqueue s job_id new).job_order ≡ ids ++ job_id ∷ [])
        × (lookup id (enqueue s job_id new).jobs ≡ some job)
        × (lookup id (assign (enqueue s job_id new) now).0.jobs ≡ some job)
  enqueue-assign_starved s job_id id ids new job now oldest once full other known active =
      let still = (enqueue_lem s job_id new id job known active other).1 in
      let order = enqueue-order s job_id id ids new oldest full in
      let absent : member id (enqueue s job_id new).job_order ≡ false =
        rw order (member-append id ids job_id once other) in
      (order, still, assign_absent (enqueue s job_id new) now id absent ∙ still)
