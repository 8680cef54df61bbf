-- ===== src/Jobs/Order.antt =====
-- A task starts, or is skipped, only when its dependencies are done
-- (crates/lakeforge-api/src/api/jobs.rs, `execute_run_inner`).
use lakeforge.Prelude.{
  ℕ, zero, suc, ◌≡◌, refl, ap, ◌∙◌, String, string_eq, Bool, true, ◌⊎◌, Option, none, some, List,
  [], ◌∷◌, ◌==◌, all, All, get_elem?, modify_at, Bool-cases, inl, inr, arith,
}
use lakeforge.Prelude.Assoc.{insert, lookup-insert, All-insert}
use lakeforge.Jobs.Runs.{is_terminal, RunState, Dependency, TaskRun}
use lakeforge.Jobs.Gate.{Done, is_met, is_ready}
use lakeforge.Jobs.Batch.{Loop}
use lakeforge.Jobs.Progress.{tasks_of}

-- The dependencies of the task are done.
abbrev pub IsReady : Done → Option TaskRun → Type 0
IsReady done none = Unit
IsReady done (some t) = is_ready done t ≡ true

-- A task whose dependencies are not done is pending.
abbrev pub IsInOrder : Done → Option TaskRun → Type 0
IsInOrder done none = Unit
IsInOrder done (some t) = (t.state.life_cycle_state ≡ "PENDING") ⊎ (is_ready done t ≡ true)

met-insert :
    (done : Done) (k : String) (s : RunState) (o : Option String)
    → is_met done o ≡ true
    → is_met (insert k s done) o ≡ true
met-insert done k s none h = refl
met-insert done k s (some j) h = elim (Bool-cases (k == j)) [
  | inl same ↦ rw (lookup-insert k j s done, same) refl
  | inr other ↦ rw (lookup-insert k j s done, other) h
]

all-implies {ℓ} :
    {A : Type ℓ} (q r : A → Bool) (xs : List A)
    → ((x : A) → q x ≡ true → r x ≡ true)
    → all q xs ≡ true
    → all r xs ≡ true
all-implies q r [] f h = refl
all-implies q r (x ∷ xs) f h = let rest = all-implies q r xs f in let first = f x in ground arith

IsReady-insert :
    (done : Done) (k : String) (s : RunState) (o : Option TaskRun)
    → IsReady done o
    → IsReady (insert k s done) o
unfolding is_ready
IsReady-insert done k s none h = tt
IsReady-insert done k s (some t) h =
    all-implies (λ (d : Dependency). is_met done d.task_key) _ t.depends_on
      (λ (d : Dependency). met-insert done k s d.task_key) h

IsInOrder-insert :
    (done : Done) (k : String) (s : RunState) (o : Option TaskRun)
    → IsInOrder done o
    → IsInOrder (insert k s done) o
IsInOrder-insert done k s none h = tt
IsInOrder-insert done k s (some t) (inl waits) = inl waits
IsInOrder-insert done k s (some t) (inr met) = inr (IsReady-insert done k s (some t) met)

-- A write that leaves `depends_on` alone.
module _ (f : TaskRun → TaskRun) (same : (t : TaskRun) → (f t).depends_on ≡ t.depends_on)
    (done : Done) where
  written-IsReady : (t : TaskRun) → IsReady done (some t) → IsReady done (some (f t))
  unfolding is_ready
  written-IsReady t h = ap (all (λ (d : Dependency). is_met done d.task_key)) (same t) ∙ h

  modify-IsReady :
      (ts : List TaskRun) (i j : ℕ)
      → IsReady done (get_elem? ts j)
      → IsReady done (get_elem? (modify_at ts i f) j)
  modify-IsReady [] i j h = h
  modify-IsReady (t ∷ ts) zero zero h = written-IsReady t h
  modify-IsReady (t ∷ ts) zero (suc j) h = h
  modify-IsReady (t ∷ ts) (suc i) zero h = h
  modify-IsReady (t ∷ ts) (suc i) (suc j) h = modify-IsReady ts i j h

  modify-IsInOrder :
      (ts : List TaskRun) (i j : ℕ)
      → IsReady done (get_elem? ts i)
      → IsInOrder done (get_elem? ts j)
      → IsInOrder done (get_elem? (modify_at ts i f) j)
  modify-IsInOrder [] i j r h = h
  modify-IsInOrder (t ∷ ts) zero zero r h = inr (written-IsReady t r)
  modify-IsInOrder (t ∷ ts) zero (suc j) r h = h
  modify-IsInOrder (t ∷ ts) (suc i) zero r h = h
  modify-IsInOrder (t ∷ ts) (suc i) (suc j) r h = modify-IsInOrder ts i j r h

-- Every task that is not pending has its dependencies among those that are done, and these are
-- terminal.
pub record IsOrdered (done : Done) (ts : List TaskRun) : Type 0 where
  pub order : (j : ℕ) → IsInOrder done (get_elem? ts j)
  pub ends : All (λ (k, s). is_terminal s ≡ true) done

-- From one state to another the order is kept, and what was ready stays so.
pub record Advances (done after : Done) (ts us : List TaskRun) : Type 0 where
  pub ordered : IsOrdered after us
  pub ready_too : (j : ℕ) → IsReady done (get_elem? ts j) → IsReady after (get_elem? us j)

abbrev pub LoopAdvances : Loop → Loop → Type 0
LoopAdvances l next = Advances l.done next.done (tasks_of l) (tasks_of next)

pub stays : (l : Loop) → IsOrdered l.done (tasks_of l) → LoopAdvances l l
stays l h = record { ordered = h; ready_too = λ j r. r }

pub Advances_trans :
    (l mid next : Loop) → LoopAdvances l mid → LoopAdvances mid next → LoopAdvances l next
Advances_trans l mid next a b = record {
  ordered = b.ordered;
  ready_too = λ j r. b.ready_too j (a.ready_too j r);
}

module _ (f : TaskRun → TaskRun) (same : (t : TaskRun) → (f t).depends_on ≡ t.depends_on) where
  -- A ready task is written.
  pub write-Advances :
      (done : Done) (ts : List TaskRun) (i : ℕ)
      → IsReady done (get_elem? ts i)
      → IsOrdered done ts
      → Advances done done ts (modify_at ts i f)
  write-Advances done ts i r h = record {
    ordered = record {
      order = λ j. modify-IsInOrder f same done ts i j r (h.order j);
      ends = h.ends;
    };
    ready_too = λ j. modify-IsReady f same done ts i j;
  }

  -- A ready task is written, and recorded as done.
  pub finish-Advances :
      (done : Done) (ts : List TaskRun) (i : ℕ) (k : String) (s : RunState)
      → is_terminal s ≡ true
      → IsReady done (get_elem? ts i)
      → IsOrdered done ts
      → Advances done (insert k s done) ts (modify_at ts i f)
  finish-Advances done ts i k s over r h =
      let w = write-Advances done ts i r h in
      record {
        ordered = record {
          order = λ j. IsInOrder-insert done k s _ (w.ordered.order j);
          ends = All-insert (λ (k, s). is_terminal s ≡ true) k s done over h.ends;
        };
        ready_too = λ j q. IsReady-insert done k s _ (w.ready_too j q);
      }
