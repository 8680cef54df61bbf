-- ===== src/Jobs/Closure.antt =====
-- The dependents of the tasks that `repair` runs again
-- (crates/lakeforge-api/src/api/jobs.rs, `repair`).
use lakeforge.Prelude.{
  ◌≡◌, refl, sym, String, string_eq, Bool, true, false, not, ◌||◌, ◌⊎◌, Option, none, some, List,
  [], ◌∷◌, ◌==◌, if◌then◌else◌, any, all, Bool-cases, inl, inr, arith,
}
use lakeforge.Jobs.Runs.{Dependency, TaskRun}
use lakeforge.Jobs.Repair.{contains, key_among, follows, adds, task_keys, add_dependents}

abbrev pub Within : List String → List String → Type 0
Within r s = (k : String) → contains k r ≡ true → contains k s ≡ true

-- Every task that follows one of the keys has its own key among them.
abbrev pub is_closed_at : List String → TaskRun → Bool
is_closed_at r t = contains t.task_key r || not (follows r t)

abbrev pub IsClosed : List TaskRun → List String → Type 0
IsClosed ts r = all (is_closed_at r) ts ≡ true

key_among-Within :
    (r s : List String) (o : Option String)
    → Within r s
    → key_among r o ≡ true
    → key_among s o ≡ true
key_among-Within r s none w h = h
key_among-Within r s (some k) w h = w k h

any-implies {ℓ} :
    {A : Type ℓ} (q p : A → Bool) (xs : List A)
    → ((x : A) → q x ≡ true → p x ≡ true)
    → any q xs ≡ true
    → any p xs ≡ true
any-implies q p [] f h = h
any-implies q p (x ∷ xs) f h = let rest = any-implies q p xs f in let first = f x in ground arith

follows-Within :
    (r s : List String) (t : TaskRun) → Within r s → follows r t ≡ true → follows s t ≡ true
follows-Within r s t w h =
    any-implies (λ (d : Dependency). key_among r d.task_key) _ t.depends_on
      (λ (d : Dependency). key_among-Within r s d.task_key w) h

pub contains-first : (k : String) (r : List String) → contains k (k ∷ r) ≡ true
contains-first k r = let same = (string_eq.same_iff k k).1 refl in rw same refl

contains-later : (k j : String) (r : List String) → contains k r ≡ true → contains k (j ∷ r) ≡ true
contains-later k j r h = ground arith

-- The keys after a pass, for whichever test the pass makes at a task.
abbrev grow : Bool → String → List String → List String
grow b k r = if b then k ∷ r else r

grow-Within : (b : Bool) (k : String) (r : List String) → Within r (grow b k r)
grow-Within true k r j h = contains-later j k r h
grow-Within false k r j h = h

new-contains : (r : List String) (t : TaskRun) → adds r t ≡ true → contains t.task_key r ≡ false
unfolding adds
new-contains r t h = ground arith

old-closed : (r : List String) (t : TaskRun) → adds r t ≡ false → is_closed_at r t ≡ true
unfolding adds
old-closed r t h = ground arith

new-follows : (r : List String) (t : TaskRun) → adds r t ≡ true → follows r t ≡ true
unfolding adds
new-follows r t h = ground arith

pub add_dependents-Within :
    (ts : List TaskRun) (r : List String) (c : Bool) → Within r (add_dependents ts r c).0
unfolding add_dependents
add_dependents-Within [] r c k h = h
add_dependents-Within (t ∷ ts) r c k h =
    add_dependents-Within ts (grow (adds r t) t.task_key r) (if adds r t then true else c) k
      (grow-Within (adds r t) t.task_key r k h)

-- A pass that reports a change has added the key of a task.
pub add_dependents-adds :
    (ts : List TaskRun) (r : List String) (c : Bool)
    → (add_dependents ts r c).1 ≡ true
    → (c ≡ true)
      ⊎ ((k : String) × (contains k (task_keys ts) ≡ true)
          × (contains k r ≡ false)
          × (contains k (add_dependents ts r c).0 ≡ true))
unfolding add_dependents
add_dependents-adds [] r c h = inl h
add_dependents-adds (t ∷ ts) r c h = elim (Bool-cases (adds r t)) [
  | inl yes_ ↦
      let new = new-contains r t yes_ in
      inr (
        t.task_key,
        contains-first t.task_key (task_keys ts),
        new,
        rw (yes_, add_dependents)
            (add_dependents-Within ts (t.task_key ∷ r) true t.task_key
              (contains-first t.task_key r)),
      )
  | inr no_ ↦ elim (add_dependents-adds ts r c (rw (no_, add_dependents) at h)) [
    | inl e ↦ inl e
    | inr (k, a, b, d) ↦
        inr (k, contains-later k t.task_key (task_keys ts) a, b, rw (no_, add_dependents) d)
  ]
]

-- A pass without a change has met a closed set.
pub add_dependents-IsClosed :
    (ts : List TaskRun) (r : List String) (c : Bool)
    → (add_dependents ts r c).1 ≡ false
    → (c ≡ false) × ((add_dependents ts r c).0 ≡ r) × IsClosed ts r
unfolding add_dependents
add_dependents-IsClosed [] r c h = (h, refl, refl)
add_dependents-IsClosed (t ∷ ts) r c h = elim (Bool-cases (adds r t)) [
  | inl yes_ ↦
      let (a, _, _) =
        add_dependents-IsClosed ts (t.task_key ∷ r) true (rw (yes_, add_dependents) at h) in
      cc a
  | inr no_ ↦
      let (a, b, d) = add_dependents-IsClosed ts r c (rw (no_, add_dependents) at h) in
      (a, rw (no_, add_dependents) b, (rw (old-closed r t no_) d))
]

grow-least :
    (b : Bool) (k : String) (r s : List String)
    → Within r s
    → (b ≡ true → contains k s ≡ true)
    → Within (grow b k r) s
grow-least false k r s w f j h = w j h
grow-least true k r s w f j h = elim (Bool-cases (k == j)) [
  | inl same ↦ let path : k ≡ j = (string_eq.same_iff k j).0 same in rw (sym path) (f refl)
  | inr other ↦ w j (rw other at h)
]

-- A pass adds nothing that a closed superset lacks.
pub add_dependents-least :
    (ts : List TaskRun) (r s : List String) (c : Bool)
    → IsClosed ts s
    → Within r s
    → Within (add_dependents ts r c).0 s
unfolding add_dependents
add_dependents-least [] r s c closed w = w
add_dependents-least (t ∷ ts) r s c closed w =
    let here : is_closed_at s t ≡ true = ground arith in
    let others : IsClosed ts s = ground arith in
    add_dependents-least ts (grow (adds r t) t.task_key r) s (if adds r t then true else c) others (
      grow-least (adds r t) t.task_key r s w
        λ new. let more = follows-Within r s t w (new-follows r t new) in ground arith)
