-- ===== src/Jobs/Progress.antt =====
-- Every round of a run ends a task, and none starts again
-- (crates/lakeforge-api/src/api/jobs.rs, `execute_run_inner`).
use lakeforge.Prelude.{
  ℕ, ◌≡◌, refl, ◌∙◌, true, false, Option, none, some, List, [], ◌∷◌, nat_eq, get_elem?, modify_at,
  length, Bool-cases, inl, inr, arith, Option-cases, length-modify_at,
}
use lakeforge.Jobs.Runs.{is_terminal, TaskRun}
use lakeforge.Jobs.Gate.{Done, passes}
use lakeforge.Jobs.Batch.{Loop, keep_ready, skip_task, ready, gate_task, gate_at, gate}
use lakeforge.Jobs.Ended.{has, ended_at, modify-ends, modify-keeps}

abbrev pub tasks_of : Loop → List TaskRun
tasks_of l = l.run.tasks

-- The tasks that had ended still have, and there are as many tasks.
pub record Keeps (ts us : List TaskRun) : Type 0 where
  pub count : length us ≡ length ts
  pub keeps : (j : ℕ) → ended_at ts j ≡ true → ended_at us j ≡ true

pub Keeps-refl : (ts : List TaskRun) → Keeps ts ts
Keeps-refl ts = record { count = refl; keeps = λ j h. h }

pub Keeps-trans : (ts us vs : List TaskRun) → Keeps ts us → Keeps us vs → Keeps ts vs
Keeps-trans ts us vs a b = record {
  count = b.count ∙ a.count;
  keeps = λ j h. b.keeps j (a.keeps j h);
}

pub Keeps-modify :
    (f : TaskRun → TaskRun) (ts : List TaskRun) (i : ℕ)
    → ((t : TaskRun) → is_terminal (f t).state ≡ true)
    → Keeps ts (modify_at ts i f)
Keeps-modify f ts i ends = record {
  count = length-modify_at ts i f;
  keeps = modify-keeps f ends ts i;
}

skip-ends : (now : ℕ) (t : TaskRun) → is_terminal (skip_task now t).state ≡ true
unfolding is_terminal
skip-ends now t = refl

-- The gate at one index.
gate_at-Keeps :
    (now i : ℕ) (o : Option TaskRun) (l : Loop)
    → Keeps (tasks_of l) (tasks_of (gate_at now i o l).1)
unfolding gate_task
gate_at-Keeps now i none l = Keeps-refl _
gate_at-Keeps now i (some t) l = elim (Bool-cases (passes l.done t)) [
  | inl runs ↦ rw runs (Keeps-refl _)
  | inr skipped ↦ rw skipped (Keeps-modify (skip_task now) (tasks_of l) i (skip-ends now))
]

gate_at-ends :
    (now i : ℕ) (l : Loop)
    → (gate_at now i (get_elem? (tasks_of l) i) l).0 ≡ false
    → ended_at (tasks_of (gate_at now i (get_elem? (tasks_of l) i) l).1) i ≡ true
unfolding gate_task
gate_at-ends now i l h = elim (Option-cases (get_elem? (tasks_of l) i)) [
  | inl missing ↦ rw missing (rw missing refl)
  | inr (t, found) ↦ elim (Bool-cases (passes l.done t)) [
    | inl runs ↦ cc (rw (found, runs) at h)
    | inr skipped ↦ rw (found, skipped) (modify-ends (skip_task now) (skip-ends now) (tasks_of l) i)
  ]
]

pub gate-Keeps :
    (now : ℕ) (is : List ℕ) (l : Loop) → Keeps (tasks_of l) (tasks_of (gate now is l).1)
unfolding gate
gate-Keeps now [] l = Keeps-refl _
gate-Keeps now (i ∷ is) l =
    let next = (gate_at now i (get_elem? l.run.tasks i) l).1 in
    Keeps-trans _ _ _ (gate_at-Keeps now i (get_elem? l.run.tasks i) l) (gate-Keeps now is next)

-- The tasks that run are among those that were ready.
pub gate-subset :
    (now : ℕ) (is : List ℕ) (l : Loop) (j : ℕ) → has j (gate now is l).0 ≡ true → has j is ≡ true
unfolding gate
gate-subset now [] l j h = h
gate-subset now (i ∷ is) l j h =
    let (runs, next) = gate_at now i (get_elem? l.run.tasks i) l in
    let rest = gate-subset now is next j in ground arith

-- If nothing runs, the first ready task was skipped.
pub gate-skips :
    (now i : ℕ) (is : List ℕ) (l : Loop)
    → (gate now (i ∷ is) l).0 ≡ []
    → ended_at (tasks_of (gate now (i ∷ is) l).1) i ≡ true
unfolding gate
gate-skips now i is l h = elim (Bool-cases (gate_at now i (get_elem? l.run.tasks i) l).0) [
  | inl runs ↦ cc (rw runs at h)
  | inr skipped ↦
      let next = (gate_at now i (get_elem? l.run.tasks i) l).1 in
      (gate-Keeps now is next).keeps i (gate_at-ends now i l skipped)
]

keep_ready-subset :
    (done : Done) (i : ℕ) (o : Option TaskRun) (rest is : List ℕ) (j : ℕ)
    → (has j rest ≡ true → has j is ≡ true)
    → has j (keep_ready done i o rest) ≡ true
    → has j (i ∷ is) ≡ true
keep_ready-subset done i none rest is j f h = let g = f h in ground arith
keep_ready-subset done i (some t) rest is j f h = ground arith

pub ready-subset : (l : Loop) (is : List ℕ) (j : ℕ) → has j (ready l is) ≡ true → has j is ≡ true
unfolding ready
ready-subset l [] j h = h
ready-subset l (i ∷ is) j h =
    keep_ready-subset l.done i (get_elem? l.run.tasks i) (ready l is) is j (ready-subset l is j) h
