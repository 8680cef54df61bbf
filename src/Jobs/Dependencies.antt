-- ===== src/Jobs/Dependencies.antt =====
-- The rounds of a run keep the order of its dependencies
-- (crates/lakeforge-api/src/api/jobs.rs, `execute_run_inner`).
use lakeforge.Prelude.{
  ℕ, ◌≡◌, refl, sym, string_eq, true, Option, none, some, List, [], ◌∷◌, All, get_elem?, Bool-cases,
  Option-cases, inl, inr, arith, nat_beq, nat_beq_self,
}
use lakeforge.Jobs.Runs.{is_terminal, excluded, TaskRun, end_state, end_state-terminal}
use lakeforge.Jobs.Gate.{is_ready, passes}
use lakeforge.Jobs.Batch.{
  Answer-cases, given, Services, Loop, keep_ready, skip_task, start_task, end_task, ready,
  gate_task, gate_at, gate, prepare_at, prepare, Join, joined, join_error, join, join_all,
}
use lakeforge.Jobs.Ended.{has}
use lakeforge.Jobs.Progress.{tasks_of}
use lakeforge.Jobs.Starts.{prepare_task-lem, given-injective}
use lakeforge.Jobs.Order.{
  IsReady, IsOrdered, LoopAdvances, stays, Advances_trans, write-Advances, finish-Advances,
}

-- The tasks at the indices are ready.
abbrev pub AreReady : List ℕ → Loop → Type 0
AreReady is l = (j : ℕ) → has j is ≡ true → IsReady l.done (get_elem? (tasks_of l) j)

abbrev pub Ordered : Loop → Type 0
Ordered l = IsOrdered l.done (tasks_of l)

keep_ready-AreReady :
    (l : Loop) (i : ℕ) (o : Option TaskRun) (rest : List ℕ)
    → get_elem? (tasks_of l) i ≡ o
    → AreReady rest l
    → AreReady (keep_ready l.done i o rest) l
keep_ready-AreReady l i none rest e r j h = r j h
keep_ready-AreReady l i (some t) rest e r j h = elim (Bool-cases (is_ready l.done t)) [
  | inr waits ↦ r j (rw waits at h)
  | inl able ↦ elim (Bool-cases (nat_beq i j)) [
    | inl here ↦ let same : i ≡ j = ground arith in rw (sym same, e) able
    | inr later ↦ r j (rw (able, later) at h)
  ]
]

pub ready-AreReady : (is : List ℕ) (l : Loop) → AreReady (ready l is) l
unfolding ready
ready-AreReady [] l j h = cc
ready-AreReady (i ∷ is) l j h =
    keep_ready-AreReady l i (get_elem? (tasks_of l) i) (ready l is) refl (ready-AreReady is l) j h

pub later_in : (i j : ℕ) (is : List ℕ) → has j is ≡ true → has j (i ∷ is) ≡ true
later_in i j is h = ground arith

excluded-terminal : is_terminal excluded ≡ true
unfolding is_terminal
excluded-terminal = refl

gate_at-Advances :
    (now i : ℕ) (l : Loop)
    → IsReady l.done (get_elem? (tasks_of l) i)
    → Ordered l
    → LoopAdvances l (gate_at now i (get_elem? (tasks_of l) i) l).1
unfolding gate_task
gate_at-Advances now i l r h = elim (Option-cases (get_elem? (tasks_of l) i)) [
  | inl missing ↦ rw missing (stays l h)
  | inr (t, found) ↦ elim (Bool-cases (passes l.done t)) [
    | inl runs ↦ rw (found, runs) (stays l h)
    | inr skipped ↦
        rw (found, skipped)
          (finish-Advances (skip_task now) (λ u. refl) l.done (tasks_of l) i t.task_key excluded
            excluded-terminal r h)
  ]
]

pub gate-Advances :
    (now : ℕ) (is : List ℕ) (l : Loop)
    → AreReady is l
    → Ordered l
    → LoopAdvances l (gate now is l).1
unfolding gate
gate-Advances now [] l r h = stays l h
gate-Advances now (i ∷ is) l r h =
    let next = (gate_at now i (get_elem? (tasks_of l) i) l).1 in
    let step = gate_at-Advances now i l (r i (rw (nat_beq_self i) refl)) h in
    Advances_trans l next (gate now is next).1 step
      (gate-Advances now is next (λ j m. step.ready_too j (r j (later_in i j is m))) step.ordered)

prepare_at-Advances :
    (sv : Services) (now i : ℕ) (l next : Loop)
    → IsReady l.done (get_elem? (tasks_of l) i)
    → Ordered l
    → prepare_at sv now i (get_elem? (tasks_of l) i) l ≡ given next
    → LoopAdvances l next
prepare_at-Advances sv now i l next r h e = elim (Option-cases (get_elem? (tasks_of l) i)) [
  | inl missing ↦
      let same : l ≡ next = given-injective l next (rw missing at e) in rw (sym same) (stays l h)
  | inr (t, found) ↦
      let (c, ts, done) = prepare_task-lem sv now i t l next (rw found at e) in
      rw (ts, done) (write-Advances (start_task now c) (λ u. refl) l.done (tasks_of l) i r h)
]

pub prepare-Advances :
    (sv : Services) (now : ℕ) (is : List ℕ) (l next : Loop)
    → AreReady is l
    → Ordered l
    → prepare sv now is l ≡ given next
    → LoopAdvances l next
unfolding prepare
prepare-Advances sv now [] l next r h e = rw (sym (given-injective l next e)) (stays l h)
prepare-Advances sv now (i ∷ is) l next r h e =
    elim (Answer-cases (prepare_at sv now i (get_elem? (tasks_of l) i) l)) [
      | inr (m, a) ↦ cc (rw a at e)
      | inl (mid, a) ↦
          let step = prepare_at-Advances sv now i l mid (r i (rw (nat_beq_self i) refl)) h a in
          Advances_trans l mid next step (
            prepare-Advances sv now is mid next (λ j m. step.ready_too j (r j (later_in i j is m)))
              step.ordered (rw a at e))
    ]

-- A join of a task of the batch, or an error.
abbrev pub Joins : List ℕ → Join → Type 0
Joins batch (joined i n e) = has i batch ≡ true
Joins batch join_error = Unit

join-Advances :
    (now : ℕ) (batch : List ℕ) (j : Join) (l : Loop)
    → Joins batch j
    → AreReady batch l
    → Ordered l
    → LoopAdvances l (join now j l)
unfolding join
join-Advances now batch join_error l m r h = stays l h
join-Advances now batch (joined i n e) l m r h = elim (Option-cases (get_elem? (tasks_of l) i)) [
  | inl missing ↦ rw missing (stays l h)
  | inr (t, found) ↦ rw found (
      finish-Advances (end_task now n e) (λ u. refl) l.done (tasks_of l) i t.task_key (end_state e)
        (end_state-terminal e) (r i m) h)
]

pub join_all-Advances :
    (now : ℕ) (batch : List ℕ) (js : List Join) (l : Loop)
    → All (Joins batch) js
    → AreReady batch l
    → Ordered l
    → LoopAdvances l (join_all now js l)
unfolding join_all
join_all-Advances now batch [] l m r h = stays l h
join_all-Advances now batch (j ∷ js) l m r h =
    let step = join-Advances now batch j l m.0 r h in
    Advances_trans l (join now j l) (join_all now js (join now j l)) step (
      join_all-Advances now batch js (join now j l) m.1 (λ i k. step.ready_too i (r i k))
        step.ordered)
