-- ===== src/Jobs/Starts.antt =====
-- The start of a batch touches its tasks alone, and the joins end them
-- (crates/lakeforge-api/src/api/jobs.rs, `execute_run_inner`).
use lakeforge.Prelude.{
  ℕ, ◌≡◌, refl, ap, sym, ◌∙◌, String, string_eq, Bool, true, false, not, ◌&&◌, Option, none, some,
  List, [], ◌∷◌, ◌==◌, nat_eq, nat_beq, any, get_elem?, modify_at, length, Bool-cases, inl, inr,
  arith, Option-cases, length-modify_at,
}
use lakeforge.Prelude.Assoc.{lookup}
use lakeforge.Jobs.Runs.{TaskRun, TaskDef, end_state-terminal}
use lakeforge.Jobs.Gate.{is_some}
use lakeforge.Jobs.Batch.{
  Answer, given, error, Answer-cases, Services, Loop, set_task, prepare_task, prepare_at, prepare,
  shared_cluster, reuse_or_create, choose_cluster, own_cluster, named_cluster, cluster_name,
  or_default, record_cluster, start_task, Join, joined, join_error, join, join_all, end_task,
}
use lakeforge.Jobs.Ended.{has, ended_at, modify-ends, modify-other}
use lakeforge.Jobs.Progress.{tasks_of, Keeps, Keeps-refl, Keeps-trans, Keeps-modify}

-- An answer with the tasks of a loop, and those that are done, as they were.
abbrev Untouched : Loop → Answer (Option String × Loop) → Type 0
Untouched l (error e) = Unit
Untouched l (given (c, next)) = (tasks_of next ≡ tasks_of l) × (next.done ≡ l.done)

module _ (sv : Services) (l : Loop) where
  own_cluster-Untouched : (t : TaskRun) → Untouched l (own_cluster sv t l)
  unfolding own_cluster
  own_cluster-Untouched t =
      elim (Answer-cases (sv.create_cluster (cluster_name l.run t.task_key))) [
        | inl (id, e) ↦ rw e (refl, refl)
        | inr (m, e) ↦ rw e tt
      ]

  reuse_or_create-Untouched :
      (key : String) (o : Option String) → Untouched l (reuse_or_create sv key o l)
  reuse_or_create-Untouched key (some c) = (refl, refl)
  reuse_or_create-Untouched key none = elim (Bool-cases (any (λ k. k == key) l.run.job_clusters)) [
    | inr absent ↦ rw absent (refl, refl)
    | inl listed ↦ elim (Answer-cases (sv.create_cluster (cluster_name l.run key))) [
      | inl (id, a) ↦ rw (listed, a) (refl, refl)
      | inr (m, a) ↦ rw (listed, a) tt
    ]
  ]

  choose_cluster-Untouched :
      (t : TaskRun) (c key : Option String) → Untouched l (choose_cluster sv t c key l)
  unfolding choose_cluster shared_cluster
  choose_cluster-Untouched t (some c) key = (refl, refl)
  choose_cluster-Untouched t none (some key) = reuse_or_create-Untouched key (lookup key l.clusters)
  choose_cluster-Untouched t none none = elim (Bool-cases t.def.new_cluster) [
    | inl n ↦ rw n (own_cluster-Untouched t)
    | inr n ↦ rw n (refl, refl)
  ]

  named_cluster-Untouched : (t : TaskRun) → Untouched l (named_cluster sv t l)
  unfolding named_cluster
  named_cluster-Untouched t =
      choose_cluster-Untouched t t.def.existing_cluster_id t.def.job_cluster_key

record_cluster-Untouched :
    (d : TaskDef) (c : Option String) (l : Loop) → Untouched l (given (c, record_cluster d c l))
record_cluster-Untouched d none l = (refl, refl)
record_cluster-Untouched d (some c) l =
    elim (Bool-cases
      (not (any (λ k. k == c) l.run.created_clusters) && not (is_some d.existing_cluster_id))) [
        | inl h ↦ rw h (refl, refl)
        | inr h ↦ rw h (refl, refl)
      ]

pub given-injective {ℓ} : {A : Type ℓ} (a b : A) → given a ≡ given b → a ≡ b
given-injective a b h = cc

-- What the start of one task gives, when it succeeds.
pub prepare_task-lem :
    (sv : Services) (now i : ℕ) (t : TaskRun) (l next : Loop)
    → prepare_task sv now i t l ≡ given next
    → (c : Option String) × (tasks_of next ≡ modify_at (tasks_of l) i (start_task now c))
      × (next.done ≡ l.done)
unfolding prepare_task
prepare_task-lem sv now i t l next h = elim (Answer-cases (named_cluster sv t l)) [
  | inr (m, e) ↦ cc (rw e at h)
  | inl (named, e) ↦ elim (Answer-cases (or_default sv t named.0)) [
    | inr (m, o) ↦ cc (rw (e, o) at h)
    | inl (c, o) ↦
        let (ts, done) = rw e at (named_cluster-Untouched sv l t) in
        let (us, done2) = record_cluster-Untouched t.def c named.1 in
        let made : set_task i (start_task now c) (record_cluster t.def c named.1) ≡ next =
          given-injective _ next (rw (e, o) at h) in
        (
          c,
          ap tasks_of (sym made) ∙ ap (λ vs. modify_at vs i (start_task now c)) (us ∙ ts),
          ap (λ (x : Loop). x.done) (sym made) ∙ done2 ∙ done,
        )
  ]
]

module _ (sv : Services) (now : ℕ) where
  prepare_at-other :
      (i j : ℕ) (o : Option TaskRun) (l next : Loop)
      → nat_beq i j ≡ false
      → prepare_at sv now i o l ≡ given next
      → (get_elem? (tasks_of next) j ≡ get_elem? (tasks_of l) j)
        × (length (tasks_of next) ≡ length (tasks_of l))
  prepare_at-other i j none l next other h =
      let same : l ≡ next = given-injective l next h in
      (ap (λ x. get_elem? (tasks_of x) j) (sym same), ap (λ x. length (tasks_of x)) (sym same))
  prepare_at-other i j (some t) l next other h =
      let (c, e, _) = prepare_task-lem sv now i t l next h in
      (
        ap (λ ts. get_elem? ts j) e ∙ modify-other (start_task now c) (tasks_of l) i j other,
        ap length e ∙ length-modify_at (tasks_of l) i (start_task now c),
      )

  prepare_at-count :
      (i : ℕ) (o : Option TaskRun) (l next : Loop)
      → prepare_at sv now i o l ≡ given next
      → length (tasks_of next) ≡ length (tasks_of l)
  prepare_at-count i none l next h = ap (λ x. length (tasks_of x)) (sym (given-injective l next h))
  prepare_at-count i (some t) l next h =
      let (c, e, _) = prepare_task-lem sv now i t l next h in
      ap length e ∙ length-modify_at (tasks_of l) i (start_task now c)

  -- The start of a batch keeps the number of tasks, and leaves the others as they are.
  pub prepare-count :
      (is : List ℕ) (l next : Loop)
      → prepare sv now is l ≡ given next
      → length (tasks_of next) ≡ length (tasks_of l)
  unfolding prepare
  prepare-count [] l next h = ap (λ x. length (tasks_of x)) (sym (given-injective l next h))
  prepare-count (i ∷ is) l next h =
      elim (Answer-cases (prepare_at sv now i (get_elem? l.run.tasks i) l)) [
        | inr (m, e) ↦ cc (rw e at h)
        | inl (mid, e) ↦
            prepare-count is mid next (rw e at h)
            ∙ prepare_at-count i (get_elem? l.run.tasks i) l mid e
      ]

  pub prepare-other :
      (is : List ℕ) (l next : Loop) (j : ℕ)
      → has j is ≡ false
      → prepare sv now is l ≡ given next
      → get_elem? (tasks_of next) j ≡ get_elem? (tasks_of l) j
  unfolding prepare
  prepare-other [] l next j out h =
      ap (λ x. get_elem? (tasks_of x) j) (sym (given-injective l next h))
  prepare-other (i ∷ is) l next j out h =
      elim (Answer-cases (prepare_at sv now i (get_elem? l.run.tasks i) l)) [
        | inr (m, e) ↦ cc (rw e at h)
        | inl (mid, e) ↦
            let (here, rest) : (nat_beq i j ≡ false) × (has j is ≡ false) = ground arith in
            prepare-other is mid next j rest (rw e at h)
            ∙ (prepare_at-other i j (get_elem? l.run.tasks i) l mid here e).0
      ]

abbrev pub joins_task : ℕ → Join → Bool
joins_task i (joined j n e) = nat_beq j i
joins_task i join_error = false

-- A join ends its task, and starts none.
module _ (now : ℕ) where
  join-Keeps : (j : Join) (l : Loop) → Keeps (tasks_of l) (tasks_of (join now j l))
  unfolding join
  join-Keeps join_error l = Keeps-refl _
  join-Keeps (joined i n e) l = elim (Option-cases (get_elem? (tasks_of l) i)) [
    | inl missing ↦ rw missing (Keeps-refl _)
    | inr (t, found) ↦
        rw found (Keeps-modify (end_task now n e) (tasks_of l) i (λ u. end_state-terminal e))
  ]

  join-ends :
      (j : Join) (l : Loop) (i : ℕ)
      → joins_task i j ≡ true
      → ended_at (tasks_of (join now j l)) i ≡ true
  unfolding join
  join-ends join_error l i h = cc
  join-ends (joined k n e) l i h =
      let same : k ≡ i = ground arith in
      rw same (elim (Option-cases (get_elem? (tasks_of l) i)) [
        | inl missing ↦ rw missing (rw missing refl)
        | inr (t, found) ↦
            rw found (modify-ends (end_task now n e) (λ u. end_state-terminal e) (tasks_of l) i)
      ])

  pub join_all-Keeps :
      (js : List Join) (l : Loop) → Keeps (tasks_of l) (tasks_of (join_all now js l))
  unfolding join_all
  join_all-Keeps [] l = Keeps-refl _
  join_all-Keeps (j ∷ js) l = Keeps-trans _ _ _ (join-Keeps j l) (join_all-Keeps js (join now j l))

  pub join_all-ends :
      (js : List Join) (l : Loop) (i : ℕ)
      → any (joins_task i) js ≡ true
      → ended_at (tasks_of (join_all now js l)) i ≡ true
  unfolding join_all
  join_all-ends [] l i h = cc
  join_all-ends (j ∷ js) l i h = elim (Bool-cases (joins_task i j)) [
    | inl here ↦ (join_all-Keeps js (join now j l)).keeps i (join-ends j l i here)
    | inr later ↦ join_all-ends js (join now j l) i (rw later at h)
  ]
