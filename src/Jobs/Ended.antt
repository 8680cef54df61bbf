-- ===== src/Jobs/Ended.antt =====
-- Which tasks of a list have ended, by index (crates/lakeforge-api/src/api/jobs.rs).
use lakeforge.Prelude.{
  ℕ, zero, suc, ◌+◌, ◌-◌, ◌≤◌, ◌<◌, ◌≡◌, refl, Bool, true, false, Option, none, some, List, [], ◌∷◌,
  nat_eq, nat_beq, if◌then◌else◌, any, All, get_elem?, modify_at, length, Bool-cases, inl, inr,
  arith,
}
use lakeforge.Jobs.Runs.{is_terminal, TaskRun}
use lakeforge.Jobs.Gate.{remaining_from}

abbrev pub has : ℕ → List ℕ → Bool
has i xs = any (λ j. nat_beq j i) xs

-- There is no task at the index, or a terminal one.
abbrev pub ended : Option TaskRun → Bool
ended none = true
ended (some t) = is_terminal t.state

abbrev pub ended_at : List TaskRun → ℕ → Bool
ended_at ts i = ended (get_elem? ts i)

-- The number of tasks that are not terminal.
abbrev pub open_tasks : List TaskRun → ℕ
open_tasks [] = 0
open_tasks (t ∷ ts) = let rest = open_tasks ts in if is_terminal t.state then rest else suc rest

pub remaining-open :
    (i k : ℕ) (ts : List TaskRun)
    → has i (remaining_from k ts) ≡ true
    → (k ≤ i) × (ended_at ts (i - k) ≡ false)
unfolding remaining_from
remaining-open i k [] h = cc
remaining-open i k (t ∷ ts) h = elim (Bool-cases (is_terminal t.state)) [
  | inl over ↦
      let (le, e) = remaining-open i (suc k) ts (rw over at h) in
      let next : i - k ≡ suc (i - suc k) = omega arith in (omega arith, rw next e)
  | inr open_ ↦ elim (Bool-cases (nat_beq k i)) [
    | inl here ↦
        let same : k ≡ i = ground arith in
        let first : i - k ≡ 0 = omega arith in (omega arith, rw first open_)
    | inr other ↦
        let later : has i (remaining_from (suc k) ts) ≡ true = ground arith in
        let (le, e) = remaining-open i (suc k) ts later in
        let next : i - k ≡ suc (i - suc k) = omega arith in (omega arith, rw next e)
  ]
]

pub remaining-not_ended :
    (i : ℕ) (ts : List TaskRun) → has i (remaining_from 0 ts) ≡ true → ended_at ts i ≡ false
remaining-not_ended i ts h =
    let same : i - 0 ≡ i = omega arith in rw same at (remaining-open i 0 ts h).1

pub open-remaining :
    (i j k : ℕ) (ts : List TaskRun)
    → ended_at ts j ≡ false
    → i ≡ k + j
    → has i (remaining_from k ts) ≡ true
unfolding remaining_from
open-remaining i j k [] h e = cc
open-remaining i zero k (t ∷ ts) h e = rw h (ground arith)
open-remaining i (suc j) k (t ∷ ts) h e =
    let rest = open-remaining i j (suc k) ts h (omega arith) in ground arith

pub remaining-nil :
    (k : ℕ) (ts : List TaskRun)
    → remaining_from k ts ≡ []
    → All (λ (t : TaskRun). is_terminal t.state ≡ true) ts
unfolding remaining_from
remaining-nil k [] h = tt
remaining-nil k (t ∷ ts) h = elim (Bool-cases (is_terminal t.state)) [
  | inl over ↦ (over, remaining-nil (suc k) ts (rw over at h))
  | inr open_ ↦ cc (rw open_ at h)
]

pub All-ended :
    (ts : List TaskRun)
    → ((i : ℕ) → ended_at ts i ≡ true)
    → All (λ (t : TaskRun). is_terminal t.state ≡ true) ts
All-ended [] h = tt
All-ended (t ∷ ts) h = (h 0, All-ended ts (λ i. h (suc i)))

pub length-remaining : (k : ℕ) (ts : List TaskRun) → length (remaining_from k ts) ≡ open_tasks ts
unfolding remaining_from
length-remaining k [] = refl
length-remaining k (t ∷ ts) = let rest = length-remaining (suc k) ts in ground arith

-- Where everything that had ended still has, fewer tasks are open, or as many.
pub open_tasks-le :
    (ts us : List TaskRun)
    → length us ≡ length ts
    → ((i : ℕ) → ended_at ts i ≡ true → ended_at us i ≡ true)
    → open_tasks us ≤ open_tasks ts
open_tasks-le [] [] len keeps = omega arith
open_tasks-le [] (u ∷ us) len keeps = absurd (omega arith)
open_tasks-le (t ∷ ts) [] len keeps = absurd (omega arith)
open_tasks-le (t ∷ ts) (u ∷ us) len keeps =
    let rest = open_tasks-le ts us (omega arith) (λ i. keeps (suc i)) in
    let first = keeps 0 in ground arith

-- If moreover some task has ended since, fewer are open.
pub open_tasks-lt :
    (ts us : List TaskRun) (i : ℕ)
    → length us ≡ length ts
    → ((j : ℕ) → ended_at ts j ≡ true → ended_at us j ≡ true)
    → ended_at ts i ≡ false
    → ended_at us i ≡ true
    → open_tasks us < open_tasks ts
open_tasks-lt [] us i len keeps before after = cc
open_tasks-lt (t ∷ ts) [] i len keeps before after = absurd (omega arith)
open_tasks-lt (t ∷ ts) (u ∷ us) zero len keeps before after =
    let rest = open_tasks-le ts us (omega arith) (λ j. keeps (suc j)) in ground arith
open_tasks-lt (t ∷ ts) (u ∷ us) (suc i) len keeps before after =
    let rest = open_tasks-lt ts us i (omega arith) (λ j. keeps (suc j)) before after in
    let first = keeps 0 in ground arith

-- A write that ends the task at its index.
module _ (f : TaskRun → TaskRun) (ends : (t : TaskRun) → is_terminal (f t).state ≡ true) where
  pub modify-ends : (ts : List TaskRun) (i : ℕ) → ended_at (modify_at ts i f) i ≡ true
  modify-ends [] i = refl
  modify-ends (t ∷ ts) zero = ends t
  modify-ends (t ∷ ts) (suc i) = modify-ends ts i

  pub modify-keeps :
      (ts : List TaskRun) (i j : ℕ) → ended_at ts j ≡ true → ended_at (modify_at ts i f) j ≡ true
  modify-keeps [] i j h = refl
  modify-keeps (t ∷ ts) zero zero h = ends t
  modify-keeps (t ∷ ts) zero (suc j) h = h
  modify-keeps (t ∷ ts) (suc i) zero h = h
  modify-keeps (t ∷ ts) (suc i) (suc j) h = modify-keeps ts i j h

pub modify-other :
    (f : TaskRun → TaskRun) (ts : List TaskRun) (i j : ℕ)
    → nat_beq i j ≡ false
    → get_elem? (modify_at ts i f) j ≡ get_elem? ts j
modify-other f [] i j h = refl
modify-other f (t ∷ ts) zero zero h = ground arith
modify-other f (t ∷ ts) zero (suc j) h = refl
modify-other f (t ∷ ts) (suc i) zero h = refl
modify-other f (t ∷ ts) (suc i) (suc j) h = modify-other f ts i j (ground arith)
