-- ===== src/Jobs/Rounds.antt =====
-- From the start of a run on, in any order of joins
-- (crates/lakeforge-api/src/api/jobs.rs, `execute_run_inner`).
use lakeforge.Prelude.{
  ℕ, zero, suc, ◌≡◌, ◌≢◌, sym, String, string_eq, Bool, true, Option, none, some, List, [], ◌∷◌,
  any, all, All, get_elem?, Bool-cases, List-cases, Option-cases, inl, inr, arith, string_eq,
}
use lakeforge.Prelude.Assoc.{lookup, All-lookup}
use lakeforge.Jobs.Runs.{is_terminal, RunState, option_is, Dependency, TaskRun, Run}
use lakeforge.Jobs.Gate.{Done, is_met, is_ready, remaining}
use lakeforge.Jobs.Batch.{Answer-cases, Services, Loop, save_run, ready, gate, prepare, join_all}
use lakeforge.Jobs.Execute.{Round, again, after_prepare, run_batch, run_ready, turn_on, turn, begin}
use lakeforge.Jobs.Progress.{tasks_of, gate-subset}
use lakeforge.Jobs.Order.{IsInOrder}
use lakeforge.Jobs.Dependencies.{
  AreReady, Ordered, Joins, ready-AreReady, gate-Advances, prepare-Advances, join_all-Advances,
}
use lakeforge.Jobs.Termination.{turn-injective}

-- Only tasks of the batch join.
abbrev pub IsBatched : Round → Type 0
IsBatched r = (batch : List ℕ) → All (Joins batch) (r.joins batch)

run_batch-Ordered :
    (sv : Services) (r : Round) (to_run : List ℕ) (mid next : Loop)
    → IsBatched r
    → AreReady to_run mid
    → Ordered mid
    → run_batch sv r to_run mid ≡ again next
    → Ordered next
unfolding run_batch after_prepare
run_batch-Ordered sv r [] mid next b a h e =
    let same : save_run mid ≡ next = turn-injective (save_run mid) next e in rw (sym same) h
run_batch-Ordered sv r (k ∷ ks) mid next b a h e =
    elim (Answer-cases (prepare sv r.now (k ∷ ks) mid)) [
      | inr (m, p) ↦ cc (rw p at e)
      | inl (started, p) ↦
          let step = prepare-Advances sv r.now (k ∷ ks) mid started a h p in
          let js = r.joins (k ∷ ks) in
          let last = join_all r.now js (save_run started) in
          let same : last ≡ next = turn-injective last next (rw p at e) in
          rw (sym same)
            (join_all-Advances r.now (k ∷ ks) js (save_run started) (b (k ∷ ks))
              (λ j m. step.ready_too j (a j m)) step.ordered).ordered
    ]

turn-Ordered :
    (sv : Services) (r : Round) (l next : Loop)
    → IsBatched r
    → Ordered l
    → turn sv r l ≡ again next
    → Ordered next
unfolding turn turn_on run_ready
turn-Ordered sv r l next b h e = elim (List-cases (remaining l.run)) [
  | inl none_left ↦ cc (rw none_left at e)
  | inr (a, others, left) ↦ elim (Bool-cases r.expired) [
    | inl late ↦ cc (rw (left, late) at e)
    | inr early ↦ elim (List-cases (ready l (a ∷ others))) [
      | inl stuck ↦ cc (rw (left, early, stuck) at e)
      | inr (i, is, able) ↦
          let are : AreReady (i ∷ is) l = λ j m. ready-AreReady (a ∷ others) l j (rw able m) in
          let step = gate-Advances r.now (i ∷ is) l are h in
          let (to_run, mid) = gate r.now (i ∷ is) l in
          run_batch-Ordered sv r to_run mid next b
            (λ j m. step.ready_too j (are j (gate-subset r.now (i ∷ is) l j m))) step.ordered
            (rw (left, early, able) at e)
    ]
  ]
]

-- The states of the loop that rounds lead to.
pub data Reached (sv : Services) (l : Loop) : Loop → Type 0 where
  at_start : Reached sv l l
  next_round :
      {mid last : Loop}
      → Reached sv l mid
      → (r : Round) → IsBatched r
      → turn sv r mid ≡ again last
      → Reached sv l last

Reached-Ordered : (sv : Services) (l last : Loop) → Ordered l → Reached sv l last → Ordered last
Reached-Ordered sv l last h at_start = h
Reached-Ordered sv l last h (next_round {mid} path r b e) =
    turn-Ordered sv r mid last b (Reached-Ordered sv l mid h path) e

-- No task has started.
abbrev pub IsFresh : Run → Type 0
IsFresh run = All (λ (t : TaskRun). t.state.life_cycle_state ≡ "PENDING") run.tasks

fresh-IsInOrder :
    (ts : List TaskRun) (j : ℕ)
    → All (λ (t : TaskRun). t.state.life_cycle_state ≡ "PENDING") ts
    → IsInOrder [] (get_elem? ts j)
fresh-IsInOrder [] j h = tt
fresh-IsInOrder (t ∷ ts) zero h = inl h.0
fresh-IsInOrder (t ∷ ts) (suc j) h = fresh-IsInOrder ts j h.1

abbrev pub depends : String → List Dependency → Bool
depends k ds = any (λ (d : Dependency). option_is k d.task_key) ds

met-key :
    (done : Done) (k : String) (o : Option String)
    → is_met done o ≡ true
    → option_is k o ≡ true
    → (s : RunState) × (lookup k done ≡ some s)
met-key done k none m h = cc
met-key done k (some i) m h =
    let same : i ≡ k = (string_eq.same_iff i k).0 h in
    elim (Option-cases (lookup k done)) [
      | inr (s, e) ↦ (s, e)
      | inl missing ↦ cc (rw (same, missing) at m)
    ]

met-lookup :
    (done : Done) (k : String) (ds : List Dependency)
    → all (λ (d : Dependency). is_met done d.task_key) ds ≡ true
    → depends k ds ≡ true
    → (s : RunState) × (lookup k done ≡ some s)
met-lookup done k [] a h = cc
met-lookup done k (d ∷ ds) a h =
    let (first, others) : (is_met done d.task_key ≡ true)
        × (all (λ (d : Dependency). is_met done d.task_key) ds ≡ true) =
      ground arith in
    elim (Bool-cases (option_is k d.task_key)) [
      | inl here ↦ met-key done k d.task_key first here
      | inr later ↦ met-lookup done k ds others (rw later at h)
    ]

-- In a run that starts with all tasks pending, at every round, a task that is no longer pending has
-- each task that it depends on recorded as done, in a terminal state.
pub started_in_order :
    (sv : Services) (now : ℕ) (run : Run) (l : Loop) (j : ℕ) (t : TaskRun) (k : String)
    → IsFresh run
    → Reached sv (begin now run) l
    → get_elem? (tasks_of l) j ≡ some t
    → t.state.life_cycle_state ≢ "PENDING"
    → depends k t.depends_on ≡ true
    → (s : RunState) × (lookup k l.done ≡ some s) × (is_terminal s ≡ true)
unfolding is_ready
started_in_order sv now run l j t k fresh path found started dep =
    let start : Ordered (begin now run) = record {
      order = λ i. fresh-IsInOrder run.tasks i fresh;
      ends = tt;
    } in
    let ordered = Reached-Ordered sv (begin now run) l start path in
    elim (rw found at (ordered.order j)) [
      | inl pending ↦ absurd (started pending)
      | inr met ↦
          let (s, e) = met-lookup l.done k t.depends_on met dep in
          (s, e, All-lookup (λ (k, s). is_terminal s ≡ true) k l.done e ordered.ends)
    ]
