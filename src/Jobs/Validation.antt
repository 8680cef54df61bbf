-- ===== src/Jobs/Validation.antt =====
-- What the checks on the settings of a job ensure
-- (crates/lakeforge-api/src/api/jobs.rs, `validate_settings`).
use mathlib.Core.Path.{ap₂}
use lakeforge.Prelude.{
  ◌≡◌, refl, ap, sym, ◌∙◌, String, string_eq, true, false, ◌||◌, ◌==◌, Option, none, some, List, [],
  ◌∷◌, map, All, All-map, Bool-cases, inl, inr, arith, ◌⊎◌,
}
use lakeforge.Uc.Names.{Name, trim}
use lakeforge.Jobs.Runs.{Dependency}
use lakeforge.Jobs.Batch.{Answer-cases, given}
use lakeforge.Jobs.Starts.{given-injective}
use lakeforge.Jobs.Repair.{
  contains, TaskSettings, collect_key, collect_keys, check_key, check_dependencies, check_tasks,
  validate_settings, check_schedule, cron_answer,
}
use lakeforge.Jobs.Closure.{contains-first}

abbrev pub IsDistinct : List String → Type 0
IsDistinct [] = Unit
IsDistinct (k ∷ ks) = (contains k ks ≡ false) × IsDistinct ks

-- The key, if there is one, is among the keys.
abbrev pub IsKnown : List String → Option String → Type 0
IsKnown keys none = Unit
IsKnown keys (some k) = contains k keys ≡ true

abbrev pub HasKnown : List String → TaskSettings → Type 0
HasKnown keys t = All (λ (d : Dependency). IsKnown keys d.task_key) t.depends_on

check_key-IsKnown :
    (keys : List String) (o : Option String) → check_key keys o ≡ given tt → IsKnown keys o
check_key-IsKnown keys none h = tt
check_key-IsKnown keys (some k) h = elim (Bool-cases (contains k keys)) [
  | inl e ↦ e
  | inr e ↦ cc (rw e at h)
]

check_dependencies-IsKnown :
    (keys : List String) (ds : List Dependency)
    → check_dependencies keys ds ≡ given tt
    → All (λ (d : Dependency). IsKnown keys d.task_key) ds
unfolding check_dependencies
check_dependencies-IsKnown keys [] h = tt
check_dependencies-IsKnown keys (d ∷ ds) h = elim (Answer-cases (check_key keys d.task_key)) [
  | inr (m, e) ↦ cc (rw e at h)
  | inl (_, e) ↦
      (check_key-IsKnown keys d.task_key e, check_dependencies-IsKnown keys ds (rw e at h))
]

check_tasks-HasKnown :
    (keys : List String) (ts : List TaskSettings)
    → check_tasks keys ts ≡ given tt
    → All (HasKnown keys) ts
unfolding check_tasks
check_tasks-HasKnown keys [] h = tt
check_tasks-HasKnown keys (t ∷ ts) h = elim (Answer-cases (check_dependencies keys t.depends_on)) [
  | inr (m, e) ↦ cc (rw e at h)
  | inl (_, e) ↦
      (check_dependencies-IsKnown keys t.depends_on e, check_tasks-HasKnown keys ts (rw e at h))
]

collect_key-lem :
    (o : Option String) (keys next : List String)
    → collect_key o keys ≡ given next
    → (k : String) × (o ≡ some k) × (contains k keys ≡ false) × (next ≡ k ∷ keys)
collect_key-lem none keys next h = cc
collect_key-lem (some k) keys next h = elim (Bool-cases (contains k keys)) [
  | inl twice ↦ cc (rw twice at h)
  | inr once ↦ (k, refl, once, sym (given-injective (k ∷ keys) next (rw once at h)))
]

-- The keys of the tasks: they are distinct, differ from those before, and are all that is added.
record Collected (ts : List TaskSettings) (keys out ks : List String) : Type 0 where
  keyed : map (λ (t : TaskSettings). t.task_key) ts ≡ map (λ (k : String). some k) ks
  distinct : IsDistinct ks
  fresh : (k : String) → contains k ks ≡ true → contains k keys ≡ false
  added : (k : String) → contains k out ≡ (contains k ks || contains k keys)

collect_keys-Collected :
    (ts : List TaskSettings) (keys out : List String)
    → collect_keys ts keys ≡ given out
    → (ks : List String) × Collected ts keys out ks
unfolding collect_keys
collect_keys-Collected [] keys out h =
    let same = given-injective keys out h in
    (
      [],
      record {
        keyed = refl;
        distinct = tt;
        fresh = λ k c. cc;
        added = λ k. ap (contains k) (sym same);
      },
    )
collect_keys-Collected (t ∷ ts) keys out h = elim (Answer-cases (collect_key t.task_key keys)) [
  | inr (m, e) ↦ cc (rw e at h)
  | inl (next, e) ↦
      let (k, key, once, grown) = collect_key-lem t.task_key keys next e in
      let (ks, c) = collect_keys-Collected ts (k ∷ keys) out (rw (e, grown) at h) in
      let apart : contains k ks ≡ false = elim (Bool-cases (contains k ks)) [
        | inl twice ↦ cc (c.fresh k twice, contains-first k keys)
        | inr other ↦ other
      ] in
      (
        k ∷ ks,
        record {
          keyed = ap₂ ◌∷◌ key c.keyed;
          distinct = (apart, c.distinct);
          fresh = λ j m. elim (Bool-cases (k == j)) [
            | inl same ↦ let path : k ≡ j = (string_eq.same_iff k j).0 same in rw (sym path) once
            | inr other ↦ rw other at (c.fresh j (rw other at m))
          ];
          added = λ j. c.added j ∙ (ground arith);
        },
      )
]

IsKnown-same :
    (out ks : List String) (o : Option String)
    → ((k : String) → contains k out ≡ (contains k ks || false))
    → IsKnown out o
    → IsKnown ks o
IsKnown-same out ks none f h = tt
IsKnown-same out ks (some k) f h = let e = f k in ground arith

-- Without a schedule, or with one whose trimmed expression `cron` accepts.
abbrev pub IsScheduled : (Name → Option String) → Option (Option Name) → Type 0
IsScheduled cron schedule =
    (schedule ≡ none) ⊎ ((expr : Name) × (schedule ≡ some (some expr)) × (cron (trim expr) ≡ none))

cron_answer_given : (o : Option String) → cron_answer o ≡ given tt → o ≡ none
cron_answer_given none h = refl
cron_answer_given (some e) h = cc

check_schedule-IsScheduled :
    (cron : Name → Option String) (schedule : Option (Option Name))
    → check_schedule cron schedule ≡ given tt
    → IsScheduled cron schedule
check_schedule-IsScheduled cron none h = inl refl
check_schedule-IsScheduled cron (some none) h = cc
check_schedule-IsScheduled cron (some (some expr)) h =
    inr (expr, refl, cron_answer_given (cron (trim expr)) h)

-- Settings that pass have a list of tasks in which every task has a key, the keys are distinct, and
-- each key in a `depends_on` is that of a task; and they have no schedule, or one with an expression
-- that `cron` accepts.
pub validate_settings_sound :
    (cron : Name → Option String) (tasks : Option (List TaskSettings))
    (schedule : Option (Option Name))
    → validate_settings cron tasks schedule ≡ given tt
    → (ts : List TaskSettings) × (tasks ≡ some ts)
      × (ks : List String) × (map (λ (t : TaskSettings). t.task_key) ts
          ≡ map (λ (k : String). some k) ks)
      × IsDistinct ks
      × All (HasKnown ks) ts
      × IsScheduled cron schedule
unfolding validate_settings
validate_settings_sound cron none schedule h = cc
validate_settings_sound cron (some ts) schedule h = elim (Answer-cases (collect_keys ts [])) [
  | inr (m, e) ↦ cc (rw e at h)
  | inl (out, e) ↦ elim (Answer-cases (check_tasks out ts)) [
    | inr (m, d) ↦ cc (rw (e, d) at h)
    | inl (_, d) ↦
        let (ks, c) = collect_keys-Collected ts [] out e in
        (
          ts,
          refl,
          ks,
          c.keyed,
          c.distinct,
          All-map (HasKnown out) (HasKnown ks) ts
              (λ t.
                All-map _ _ t.depends_on
                  (λ (x : Dependency). IsKnown-same out ks x.task_key c.added))
              (check_tasks-HasKnown out ts d),
          check_schedule-IsScheduled cron schedule (rw (e, d) at h),
        )
  ]
]
