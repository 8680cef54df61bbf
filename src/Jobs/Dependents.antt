-- ===== src/Jobs/Dependents.antt =====
-- The passes over the dependents end, with the least closed set
-- (crates/lakeforge-api/src/api/jobs.rs, `repair`).
use lakeforge.Prelude.{
  ℕ, zero, suc, ◌≤◌, ◌<◌, ◌≡◌, refl, ap, String, string_eq, true, false, some, List, [], ◌∷◌, ◌==◌,
  if◌then◌else◌, length, Bool-cases, inl, inr, arith,
}
use lakeforge.Jobs.Runs.{TaskRun}
use lakeforge.Jobs.Repair.{contains, task_keys, add_dependents, close_dependents}
use lakeforge.Jobs.Closure.{
  Within, IsClosed, add_dependents-Within, add_dependents-adds, add_dependents-IsClosed,
  add_dependents-least,
}

-- How many of the keys are missing.
abbrev missing : List String → List String → ℕ
missing [] r = 0
missing (k ∷ ks) r = let rest = missing ks r in if contains k r then rest else suc rest

missing-le : (ks r s : List String) → Within r s → missing ks s ≤ missing ks r
missing-le [] r s w = omega arith
missing-le (k ∷ ks) r s w = let rest = missing-le ks r s w in let first = w k in ground arith

missing-lt :
    (ks r s : List String) (k : String)
    → Within r s
    → contains k ks ≡ true
    → contains k r ≡ false
    → contains k s ≡ true
    → missing ks s < missing ks r
missing-lt [] r s k w a b c = cc
missing-lt (j ∷ ks) r s k w a b c = elim (Bool-cases (j == k)) [
  | inl same ↦
      let path : j ≡ k = (string_eq.same_iff j k).0 same in
      let rest = missing-le ks r s w in rw (path, b, c) (omega arith)
  | inr other ↦
      let rest = missing-lt ks r s k w (rw other at a) b c in let first = w j in ground arith
]

missing-bound : (ks r : List String) → missing ks r ≤ length ks
missing-bound [] r = omega arith
missing-bound (k ∷ ks) r = let rest = missing-bound ks r in ground arith

length-task_keys : (ts : List TaskRun) → length (task_keys ts) ≡ length ts
length-task_keys [] = refl
length-task_keys (t ∷ ts) = ap suc (length-task_keys ts)

-- The set is closed, has the given keys, and is part of every such set.
abbrev pub IsClosure : List TaskRun → List String → List String → Type 0
IsClosure ts r out =
    Within r out × IsClosed ts out × ((s : List String) → IsClosed ts s → Within r s → Within out s)

closes_within :
    (fuel : ℕ) (ts : List TaskRun) (r : List String)
    → missing (task_keys ts) r < fuel
    → (out : List String) × (close_dependents fuel ts r ≡ some out) × IsClosure ts r out
unfolding close_dependents
closes_within zero ts r h = absurd (omega arith)
closes_within (suc fuel) ts r h = elim (Bool-cases (add_dependents ts r false).1) [
  | inr settled ↦
      let (_, same, closed) = add_dependents-IsClosed ts r false settled in
      (r, rw (settled, same) refl, ((λ k c. c), closed, (λ s _ w. w)))
  | inl changed ↦ elim (add_dependents-adds ts r false changed) [
    | inl e ↦ cc e
    | inr (k, a, b, c) ↦
        let next = (add_dependents ts r false).0 in
        let wider = add_dependents-Within ts r false in
        let less = missing-lt (task_keys ts) r next k wider a b c in
        let (out, e, (has_it, closed, least)) = closes_within fuel ts next (omega arith) in
        (
          out,
          rw changed e,
          (
            (λ k c. has_it k (wider k c)),
            closed,
            (λ s cl w. least s cl (add_dependents-least ts r s false cl w)),
          ),
        )
  ]
]

-- With a pass more than there are tasks, the passes of `repair` end. The keys that they return hold
-- the given ones, every task that depends on one of them has its own key among them, and they are
-- part of every set of keys with these two properties.
pub close_dependents_lem :
    (fuel : ℕ) (ts : List TaskRun) (r : List String)
    → length ts < fuel
    → (out : List String) × (close_dependents fuel ts r ≡ some out) × IsClosure ts r out
close_dependents_lem fuel ts r h =
    let bound = missing-bound (task_keys ts) r in
    let count = length-task_keys ts in closes_within fuel ts r (omega arith)
