-- ===== src/Jobs/Termination.antt =====
-- The execution of a run ends, with every task terminal
-- (crates/lakeforge-api/src/api/jobs.rs, `execute_run_inner` and `spawn_run`).
use lakeforge.Prelude.{
  ℕ, ◌<◌, ◌≡◌, refl, ap, sym, ◌∙◌, string_eq, Bool, true, false, List, [], ◌∷◌, nat_eq, nat_beq,
  any, All, Bool-cases, List-cases, inl, inr, arith, nat_beq_self,
}
use lakeforge.Jobs.Runs.{is_terminal, TaskRun, Run}
use lakeforge.Jobs.Gate.{remaining}
use lakeforge.Jobs.Batch.{Answer-cases, Services, Loop, save_run, ready, gate, prepare, join_all}
use lakeforge.Jobs.Execute.{
  Round, again, stop, after_prepare, run_batch, run_ready, turn_on, turn, end_tasks, time_out,
  fail_stuck,
}
use lakeforge.Jobs.Ended.{
  has, ended, ended_at, open_tasks, open_tasks-lt, remaining-not_ended, open-remaining,
  remaining-nil, All-ended, modify-ends, modify-keeps,
}
use lakeforge.Jobs.Progress.{tasks_of, Keeps, gate-Keeps, gate-subset, gate-skips, ready-subset}
use lakeforge.Jobs.Starts.{prepare-count, prepare-other, joins_task, join_all-Keeps, join_all-ends}

-- Every task of a batch joins: what `JoinSet` promises of tasks that do not panic.
abbrev pub IsJoining : Round → Type 0
IsJoining r =
    (batch : List ℕ) (i : ℕ) → has i batch ≡ true → any (joins_task i) (r.joins batch) ≡ true

pub turn-injective : (a b : Loop) → again a ≡ again b → a ≡ b
turn-injective a b h = cc

first_in : (k : ℕ) (ks : List ℕ) → has k (k ∷ ks) ≡ true
first_in k ks = rw (nat_beq_self k) refl

excluded_by : {b c : Bool} → (b ≡ true → c ≡ false) → c ≡ true → b ≡ false
excluded_by {b} f h = elim (Bool-cases b) [ inl e ↦ cc (f e, h) | inr e ↦ e ]

-- A round that goes on, from a gate whose decisions are given.
module _ (sv : Services) (r : Round) (joining : IsJoining r) (l mid : Loop) where
  batch_progress :
      (k : ℕ) (ks : List ℕ) (next : Loop)
      → Keeps (tasks_of l) (tasks_of mid)
      → ((j : ℕ) → has j (k ∷ ks) ≡ true → ended_at (tasks_of l) j ≡ false)
      → run_batch sv r (k ∷ ks) mid ≡ again next
      → open_tasks (tasks_of next) < open_tasks (tasks_of l)
  unfolding run_batch after_prepare
  batch_progress k ks next kept open_ h = elim (Answer-cases (prepare sv r.now (k ∷ ks) mid)) [
    | inr (m, e) ↦ cc (rw e at h)
    | inl (started, e) ↦
        let js = r.joins (k ∷ ks) in
        let last = join_all r.now js (save_run started) in
        let same : last ≡ next = turn-injective last next (rw e at h) in
        let ends = join_all-Keeps r.now js (save_run started) in
        let count = ends.count ∙ prepare-count sv r.now (k ∷ ks) mid started e ∙ kept.count in
        let keeps : (j : ℕ) → ended_at (tasks_of l) j ≡ true → ended_at (tasks_of last) j ≡ true =
          λ j over. ends.keeps j (
            ap ended (prepare-other sv r.now (k ∷ ks) mid started j (excluded_by (open_ j) over) e)
            ∙ kept.keeps j over) in
        let first = first_in k ks in
        rw (sym same) (
          open_tasks-lt (tasks_of l) (tasks_of last) k count keeps (open_ k first)
            (join_all-ends r.now js (save_run started) k (joining (k ∷ ks) k first)))
  ]

  progress_from :
      (to_run : List ℕ) (i : ℕ) (next : Loop)
      → Keeps (tasks_of l) (tasks_of mid)
      → ((j : ℕ) → has j to_run ≡ true → ended_at (tasks_of l) j ≡ false)
      → ended_at (tasks_of l) i ≡ false
      → (to_run ≡ [] → ended_at (tasks_of mid) i ≡ true)
      → run_batch sv r to_run mid ≡ again next
      → open_tasks (tasks_of next) < open_tasks (tasks_of l)
  progress_from [] i next kept open_ before skipped h =
      let same : save_run mid ≡ next = turn-injective (save_run mid) next (unfold run_batch in h) in
      rw (sym same)
        (open_tasks-lt (tasks_of l) (tasks_of mid) i kept.count kept.keeps before (skipped refl))
  progress_from (k ∷ ks) i next kept open_ before skipped h = batch_progress k ks next kept open_ h

module _ (sv : Services) (r : Round) where
  -- Each round that goes on ends a task.
  pub turn-progress :
      (l next : Loop)
      → IsJoining r
      → turn sv r l ≡ again next
      → open_tasks (tasks_of next) < open_tasks (tasks_of l)
  unfolding turn turn_on run_ready
  turn-progress l next joining h = elim (List-cases (remaining l.run)) [
    | inl none_left ↦ cc (rw none_left at h)
    | inr (a, others, left) ↦ elim (Bool-cases r.expired) [
      | inl late ↦ cc (rw (left, late) at h)
      | inr early ↦ elim (List-cases (ready l (a ∷ others))) [
        | inl stuck ↦ cc (rw (left, early, stuck) at h)
        | inr (i, is, able) ↦
            let open_ : (j : ℕ) → has j (i ∷ is) ≡ true → ended_at (tasks_of l) j ≡ false = λ j m.
              remaining-not_ended j (tasks_of l)
                (rw left (ready-subset l (a ∷ others) j (rw able m))) in
            let (to_run, mid) = gate r.now (i ∷ is) l in
            progress_from sv r joining l mid to_run i next (gate-Keeps r.now (i ∷ is) l)
              (λ j m. open_ j (gate-subset r.now (i ∷ is) l j m)) (open_ i (first_in i is))
              (gate-skips r.now i is l) (rw (left, early, able) at h)
      ]
    ]
  ]

-- Ending tasks one by one.
module _ (f : TaskRun → TaskRun) (ends : (t : TaskRun) → is_terminal (f t).state ≡ true) where
  end_tasks-keeps :
      (is : List ℕ) (run : Run) (j : ℕ)
      → ended_at run.tasks j ≡ true
      → ended_at (end_tasks f is run).tasks j ≡ true
  end_tasks-keeps [] run j h = h
  end_tasks-keeps (i ∷ is) run j h = end_tasks-keeps is _ j (modify-keeps f ends run.tasks i j h)

  end_tasks-ends :
      (is : List ℕ) (run : Run) (j : ℕ)
      → has j is ≡ true
      → ended_at (end_tasks f is run).tasks j ≡ true
  end_tasks-ends [] run j h = cc
  end_tasks-ends (i ∷ is) run j h = elim (Bool-cases (nat_beq i j)) [
    | inl here ↦
        let same : i ≡ j = ground arith in
        rw same (end_tasks-keeps is _ j (modify-ends f ends run.tasks j))
    | inr later ↦ end_tasks-ends is _ j (rw later at h)
  ]

  end_tasks-All :
      (run : Run)
      → All (λ (t : TaskRun). is_terminal t.state ≡ true) (end_tasks f (remaining run) run).tasks
  end_tasks-All run = All-ended _ λ j. elim (Bool-cases (ended_at run.tasks j)) [
    | inl over ↦ end_tasks-keeps (remaining run) run j over
    | inr open_ ↦
        end_tasks-ends (remaining run) run j (open-remaining j j 0 run.tasks open_ (omega arith))
  ]

time_out-ends : (now : ℕ) (t : TaskRun) → is_terminal (time_out now t).state ≡ true
unfolding is_terminal
time_out-ends now t = refl

fail_stuck-ends : (t : TaskRun) → is_terminal (fail_stuck t).state ≡ true
unfolding is_terminal
fail_stuck-ends t = refl

stop-injective : (b c : Bool) (r s : Run) → stop b r ≡ stop c s → r ≡ s
stop-injective b c r s h = cc

-- A batch does not stop the loop.
goes_on :
    (sv : Services) (r : Round) (to_run : List ℕ) (mid : Loop) (b : Bool) (run : Run)
    → ¬ (run_batch sv r to_run mid ≡ stop b run)
unfolding run_batch after_prepare
goes_on sv r [] mid b run h = cc
goes_on sv r (k ∷ ks) mid b run h = elim (Answer-cases (prepare sv r.now (k ∷ ks) mid)) [
  | inl (started, e) ↦ cc (rw e at h)
  | inr (m, e) ↦ cc (rw e at h)
]

-- When the loop stops, every task is terminal.
pub turn-stop :
    (sv : Services) (r : Round) (l : Loop) (b : Bool) (run : Run)
    → turn sv r l ≡ stop b run
    → All (λ (t : TaskRun). is_terminal t.state ≡ true) run.tasks
unfolding turn turn_on run_ready
turn-stop sv r l b run h = elim (List-cases (remaining l.run)) [
  | inl none_left ↦
      let same : l.run ≡ run = stop-injective false b l.run run (rw none_left at h) in
      rw (sym same) (remaining-nil 0 (tasks_of l) none_left)
  | inr (a, others, left) ↦ elim (Bool-cases r.expired) [
    | inl late ↦
        let same = stop-injective true b _ run (rw (left, late) at h) in
        rw (sym same) (rw left at (end_tasks-All (time_out r.now) (time_out-ends r.now) l.run))
    | inr early ↦ elim (List-cases (ready l (a ∷ others))) [
      | inl stuck ↦
          let same = stop-injective false b _ run (rw (left, early, stuck) at h) in
          rw (sym same) (rw left at (end_tasks-All fail_stuck fail_stuck-ends l.run))
      | inr (i, is, able) ↦ absurd (goes_on sv r _ _ b run (rw (left, early, able) at h))
    ]
  ]
]
