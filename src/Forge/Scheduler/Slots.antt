-- ===== src/Forge/Scheduler/Slots.antt =====
-- Slots and launches in the dispatch loop of crates/forge-scheduler/src/scheduler.rs.
use lakeforge.Prelude.{
  ℕ, suc, zero, String, ◌+◌, ◌-◌, ◌≤◌, ◌≡◌, refl, true, false, some, List, [], ◌∷◌, ◌++◌,
  if◌then◌else◌, ◌==◌, string_eq, ltb, arith, inl, ◌∙◌, inr, Bool-cases, Option-cases, map, keep,
  All, eq_iff,
}
use mathlib.Core.Path.{subst}
use mathlib.Core.Option.{some-injective}
use lakeforge.Prelude.Assoc.{Assoc, lookup, modify, keys, values}
use lakeforge.Forge.Plan.{DataFusion}
use lakeforge.Forge.Job.State.{Codec, JobState}
use lakeforge.Forge.Job.Ops.{is_active, pending_tasks, mark_running}
use lakeforge.Forge.Executors.{ExecutorEntry, Registry, free_slots}
use lakeforge.Forge.Executors.Slots.{member, EntryIsValid, RegistryIsValid}
use lakeforge.Forge.Scheduler.State.{Scheduler}
use lakeforge.Forge.Scheduler.Dispatch.{
  TaskDefinition, Placing, free_list, take_slot, launch_of, place_on, place_tasks, place_jobs,
  placing, assign_to, assign, insert_by_slots, sort_by_slots,
}

-- The free slots of one executor in the list of free slots.
abbrev pub free_of : String → List (String × ℕ) → ℕ
free_of e [] = 0
free_of e ((x, n) ∷ xs) = if x == e then n + free_of e xs else free_of e xs

-- How many of the launches go to one executor.
abbrev pub launched {ℓ} : {A : Type ℓ} → String → List (String × A) → ℕ
launched e [] = 0
launched e ((x, a) ∷ ls) = if x == e then suc (launched e ls) else launched e ls

launched-append {ℓ} :
    {A : Type ℓ} (e x : String) (a : A) (ls : List (String × A))
    → launched e (ls ++ (x, a) ∷ []) ≡ (if x == e then suc (launched e ls) else launched e ls)
launched-append e x a [] = refl
launched-append e x a ((y, b) ∷ ls) = ground (arith, launched-append e x a ls)

-- The slot that is taken is one of the executor that is named, and no other is.
take_slot-free_of :
    (e x : String) (m : ℕ) (free free' : List (String × ℕ))
    → take_slot free ≡ some (x, suc m, free')
    → free_of e free ≡ (if x == e then suc (free_of e free') else free_of e free')
unfolding take_slot
take_slot-free_of e x m [] free' h = cc
take_slot-free_of e x m ((y, n) ∷ xs) free' h = elim (Option-cases (take_slot xs)) [
  | inl nothing ↦ ground (arith, h, nothing)
  | inr ((z, k, xs'), rest) ↦ elim (Bool-cases (ltb k n)) [
    | inl better ↦
        let found : some (y, n, (y, n - 1) ∷ xs) ≡ some (x, suc m, free') =
          rw (rest, better) at h in
        ground (arith, found)
    | inr worse ↦
        let found : some (z, k, (y, n) ∷ xs') ≡ some (x, suc m, free') = rw (rest, worse) at h in
        let tail : take_slot xs ≡ some (x, suc m, xs') = cc in
        ground (arith, found, take_slot-free_of e x m xs xs' tail)
  ]
]

module _ {E : DataFusion} {C : Codec E} where
  -- The slots that are left and the tasks that are placed make up one number for each executor.
  abbrev slots_of : String → Placing E C → ℕ
  slots_of e st = free_of e st.free + launched e st.launches

  place_on-slots_of :
      (e x : String) (m : ℕ) (free' : List (String × ℕ)) (def : TaskDefinition E C)
      (st : Placing E C)
      → take_slot st.free ≡ some (x, suc m, free')
      → slots_of e (place_on x free' def st) ≡ slots_of e st
  place_on-slots_of e x m free' def st found =
      ground
        (arith, launched-append e x def st.launches, take_slot-free_of e x m st.free free' found)

  place_tasks-slots_of :
      (e work_dir job_id : String) (now : ℕ) (tasks : List (ℕ × ℕ × ℕ × C.Bytes))
      (job : JobState E C) (st : Placing E C)
      → slots_of e (place_tasks work_dir job_id now tasks job st).1 ≡ slots_of e st
  unfolding place_tasks
  place_tasks-slots_of e work_dir job_id now [] job st = refl
  place_tasks-slots_of e work_dir job_id now ((sid, p, a, plan) ∷ tasks) job st =
      elim (Option-cases (take_slot st.free)) [
        | inl nothing ↦ rw (place_tasks, nothing) refl
        | inr ((x, zero, free'), found) ↦ rw (place_tasks, found) refl
        | inr ((x, suc m, free'), found) ↦
            let def = launch_of work_dir job_id job (sid, p, a, plan) in
            rw (place_tasks, found)
              (place_tasks-slots_of e work_dir job_id now tasks (mark_running job sid p a x now)
                  (place_on x free' def st)
                ∙ place_on-slots_of e x m free' def st found)
      ]

  place_jobs-slots_of :
      (e work_dir : String) (now : ℕ) (ids : List String) (jobs : Assoc String (JobState E C))
      (st : Placing E C)
      → slots_of e (place_jobs work_dir now ids jobs st).1 ≡ slots_of e st
  unfolding place_jobs
  place_jobs-slots_of e work_dir now [] jobs st = refl
  place_jobs-slots_of e work_dir now (id ∷ ids) jobs st = elim (Option-cases (lookup id jobs)) [
    | inl unknown ↦ rw (place_jobs, unknown) (place_jobs-slots_of e work_dir now ids jobs st)
    | inr (job, known) ↦ elim (Bool-cases (is_active job)) [
      | inr ended ↦ rw (place_jobs, known, ended) (place_jobs-slots_of e work_dir now ids jobs st)
      | inl active ↦
          let placed = place_tasks work_dir id now (pending_tasks job) job st in
          let here = place_tasks-slots_of e work_dir id now (pending_tasks job) job st in
          elim (Bool-cases placed.1.full) [
            | inl full ↦ rw (place_jobs, known, active, full) here
            | inr room ↦
                rw (place_jobs, known, active, room)
                  (place_jobs-slots_of e work_dir now ids (modify id (λ _. placed.0) jobs) placed.1
                    ∙ here)
          ]
    ]
  ]

  assign_to-free_of :
      (s : Scheduler E C) (now : ℕ) (e : String) (free : List (String × ℕ))
      → launched e (assign_to s now free).1 ≤ free_of e free
  assign_to-free_of s now e [] = omega arith
  assign_to-free_of s now e (x ∷ xs) =
      let all =
        place_jobs-slots_of e s.config.work_dir now s.job_order s.jobs
          (placing s.executors (x ∷ xs)) in
      omega (arith, all)

-- The free slots of one executor among the entries of a registry.
abbrev slots_in : String → List ExecutorEntry → ℕ
slots_in e [] = 0
slots_in e (x ∷ xs) = if x.metadata.id == e then free_slots x + slots_in e xs else slots_in e xs

slots_in-insert_by_slots :
    (e : String) (x : ExecutorEntry) (xs : List ExecutorEntry)
    → slots_in e (insert_by_slots x xs) ≡ slots_in e (x ∷ xs)
unfolding insert_by_slots
slots_in-insert_by_slots e x [] = refl
slots_in-insert_by_slots e x (y ∷ ys) = ground (arith, slots_in-insert_by_slots e x ys)

slots_in-sort_by_slots :
    (e : String) (xs : List ExecutorEntry) → slots_in e (sort_by_slots xs) ≡ slots_in e xs
unfolding sort_by_slots
slots_in-sort_by_slots e [] = refl
slots_in-sort_by_slots e (x ∷ xs) =
    ground (arith, slots_in-insert_by_slots e x (sort_by_slots xs), slots_in-sort_by_slots e xs)

free_of-keep :
    (e : String) (xs : List ExecutorEntry)
    → free_of e (
        map
          (λ (x : ExecutorEntry). (x.metadata.id, free_slots x))
          (keep (λ x. ltb 0 (free_slots x)) xs))
      ≡ slots_in e xs
free_of-keep e [] = refl
free_of-keep e (x ∷ xs) = ground (arith, free_of-keep e xs)

slots_in_absent :
    (e : String) (r : Registry)
    → All EntryIsValid r
    → member e (keys r) ≡ false
    → slots_in e (values r) ≡ 0
slots_in_absent e [] v absent = refl
slots_in_absent e ((k, x) ∷ r) v absent = ground (arith, slots_in_absent e r v.1, v.0.keyed)

slots_in-lookup :
    (e : String) (r : Registry) {x : ExecutorEntry}
    → RegistryIsValid r
    → lookup e r ≡ some x
    → slots_in e (values r) ≡ free_slots x
slots_in-lookup e [] v found = cc
slots_in-lookup e ((k, y) ∷ r) {x} v found = elim (Bool-cases (k == e)) [
  | inl same ↦
      let path : k ≡ e = (eq_iff k e).0 same in
      let absent : member e (keys r) ≡ false = subst (λ z. member z (keys r) ≡ false) path v.1.0 in
      let self : (y.metadata.id == e) ≡ true = (eq_iff y.metadata.id e).1 (v.0.0.keyed ∙ path) in
      let value : y ≡ x = some-injective y x (rw same at found) in
      rw self (
        subst (λ z. free_slots y + slots_in e (values r) ≡ free_slots z) value
          (omega (arith, slots_in_absent e r v.0.1 absent)))
  | inr other ↦
      let there : lookup e r ≡ some x = rw other at found in
      let differs : (y.metadata.id == e) ≡ false = rw (v.0.0.keyed) other in
      rw differs (slots_in-lookup e r (v.0.1, v.1.1) there)
]

-- When the registry is well formed, one round of dispatch gives a registered executor at most as
-- many tasks as it had free slots before.
pub assign-free_slots :
    {E : DataFusion} {C : Codec E} (s : Scheduler E C) (now : ℕ) (e : String) (x : ExecutorEntry)
    → RegistryIsValid s.executors
    → lookup e s.executors ≡ some x
    → launched e (assign s now).1 ≤ free_slots x
unfolding assign free_list
assign-free_slots s now e x v found =
    let entries = values s.executors in
    let bound = assign_to-free_of s now e (free_list s.executors) in
    let same_slots = free_of-keep e (sort_by_slots entries) in
    omega (
      arith,
      bound,
      same_slots,
      slots_in-sort_by_slots e entries,
      slots_in-lookup e s.executors v found,
    )
