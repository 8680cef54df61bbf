-- ===== src/Jobs/Batch.antt =====
-- The tasks of one round of a run: the gate's decisions, the clusters, the starts and the ends
-- (crates/lakeforge-api/src/api/jobs.rs, `execute_run_inner`).
use lakeforge.Prelude.{
  ℕ, zero, suc, ◌≡◌, refl, String, string_eq, Bool, true, false, not, ◌&&◌, ◌⊎◌, inl, inr, Option,
  none, some, List, [], ◌∷◌, ◌++◌, ◌==◌, if◌then◌else◌, any, ltb, get_elem?, modify_at, u32, ◌+◌,
}
use lakeforge.Prelude.Assoc.{Assoc, lookup, insert}
use lakeforge.Prelude.Text.{concat, decimal}
use lakeforge.Jobs.Runs.{
  RunState, running, excluded, TaskDef, TaskRun, Run, TaskEnd, succeeded, failed, timed_out,
  canceled, condition, end_state, Retries, unlimited, at_most,
}
use lakeforge.Jobs.Gate.{Done, is_ready, passes, is_some}

-- The answer of a call that can fail, with the text of the error.
pub data Answer {ℓ} (A : Type ℓ) : Type ℓ where
  given : A → Answer A
  error : String → Answer A

pub Answer-cases {ℓ} :
    {A : Type ℓ} (r : Answer A) → ((a : A) × (r ≡ given a)) ⊎ ((e : String) × (r ≡ error e))
Answer-cases (given a) = inl (a, refl)
Answer-cases (error e) = inr (e, refl)

module _ {ℓ κ} {A : Type ℓ} {B : Type κ} where
  infixl 1 ◌>>=◌ ◌>>◌
  abbrev pub ◌>>=◌ : Answer A → (A → Answer B) → Answer B
  given a >>= f = f a
  error e >>= f = error e

  abbrev pub ◌>>◌ : Answer A → Answer B → Answer B
  p >> q = p >>= λ _. q

-- What the cluster API answers: a new cluster of a given name, and the cluster for tasks that name
-- none.
pub record Services : Type 0 where
  pub create_cluster : String → Answer String
  pub default_job_cluster : Answer String

-- The variables of the loop: the run, `done`, `job_clusters`, and the run as it was saved last.
pub record Loop : Type 0 where
  pub run : Run
  pub done : Done
  pub clusters : Assoc String String
  pub saved : Run

abbrev pub save_run : Loop → Loop
save_run l = record l { saved = l.run }

abbrev pub set_task : ℕ → (TaskRun → TaskRun) → Loop → Loop
set_task i f l = record l { run = record l.run { tasks = modify_at l.run.tasks i f } }

abbrev pub set_done : String → RunState → Loop → Loop
set_done k s l = record l { done = insert k s l.done }

abbrev pub skip_task : ℕ → TaskRun → TaskRun
skip_task now t = record t { state = excluded; end_time = now }

-- The tasks of `remaining` whose dependencies are all done.
abbrev pub keep_ready : Done → ℕ → Option TaskRun → List ℕ → List ℕ
keep_ready done i none rest = rest
keep_ready done i (some t) rest = if is_ready done t then i ∷ rest else rest

unfoldable pub ready : Loop → List ℕ → List ℕ
ready l [] = []
ready l (i ∷ is) = keep_ready l.done i (get_elem? l.run.tasks i) (ready l is)

-- The decision on one ready task: whether it runs; if it does not, it is skipped and done.
unfoldable pub gate_task : ℕ → ℕ → TaskRun → Loop → Bool × Loop
gate_task now i t l =
    if passes l.done t
    then (true, l)
    else (false, set_done t.task_key excluded (set_task i (skip_task now) l))

abbrev pub gate_at : ℕ → ℕ → Option TaskRun → Loop → Bool × Loop
gate_at now i none l = (false, l)
gate_at now i (some t) l = gate_task now i t l

unfoldable pub gate : ℕ → List ℕ → Loop → List ℕ × Loop
gate now [] l = ([], l)
gate now (i ∷ is) l =
    let (runs, l1) = gate_at now i (get_elem? l.run.tasks i) l in
    let (to_run, l2) = gate now is l1 in (if runs then i ∷ to_run else to_run, l2)

abbrev pub job_number : Option ℕ → ℕ
job_number none = 0
job_number (some j) = j

abbrev pub cluster_name : Run → String → String
cluster_name run key =
    concat
      ("job-" ∷ decimal (job_number run.job_id) ∷ "-run-" ∷ decimal run.run_id ∷ "-" ∷ key ∷ [])

abbrev pub push_cluster : String → Loop → Loop
push_cluster c l = record l {
  run = record l.run { created_clusters = l.run.created_clusters ++ c ∷ [] };
}

abbrev pub record_cluster : TaskDef → Option String → Loop → Loop
record_cluster d none l = l
record_cluster d (some c) l =
    if not (any (λ k. k == c) l.run.created_clusters) && not (is_some d.existing_cluster_id)
    then push_cluster c l
    else l

abbrev pub start_task : ℕ → Option String → TaskRun → TaskRun
start_task now cluster t = record t {
  cluster_instance = cluster;
  state = running;
  start_time = now;
  attempt_number = suc t.attempt_number;
}

module _ (sv : Services) where
  -- A job cluster is created for the first task that names it.
  abbrev pub reuse_or_create : String → Option String → Loop → Answer (Option String × Loop)
  reuse_or_create key (some c) l = given (some c, l)
  reuse_or_create key none l =
      let made = do
        id ← sv.create_cluster (cluster_name l.run key)
        given (some id, push_cluster id (record l { clusters = insert key id l.clusters }))
      in if any (λ k. k == key) l.run.job_clusters then made else given (none, l)

  unfoldable pub shared_cluster : String → Loop → Answer (Option String × Loop)
  shared_cluster key l = reuse_or_create key (lookup key l.clusters) l

  unfoldable pub own_cluster : TaskRun → Loop → Answer (Option String × Loop)
  own_cluster t l = do
    id ← sv.create_cluster (cluster_name l.run t.task_key)
    given (some id, push_cluster id l)

  -- By `existing_cluster_id`, then `job_cluster_key`, then `new_cluster`.
  unfoldable pub choose_cluster :
      TaskRun → Option String → Option String → Loop → Answer (Option String × Loop)
  unfolding shared_cluster own_cluster
  choose_cluster t (some c) key l = given (some c, l)
  choose_cluster t none (some key) l = shared_cluster key l
  choose_cluster t none none l = if t.def.new_cluster then own_cluster t l else given (none, l)

  unfoldable pub named_cluster : TaskRun → Loop → Answer (Option String × Loop)
  unfolding choose_cluster
  named_cluster t l = choose_cluster t t.def.existing_cluster_id t.def.job_cluster_key l

  unfoldable pub or_default : TaskRun → Option String → Answer (Option String)
  or_default t (some c) = given (some c)
  or_default t none =
      let asked = do c ← sv.default_job_cluster; given (some c)
      in if t.def.needs_cluster then asked else given none

  -- The cluster of one task of the batch, and its start.
  unfoldable pub prepare_task : ℕ → ℕ → TaskRun → Loop → Answer Loop
  unfolding named_cluster or_default
  prepare_task now i t l = do
    named ← named_cluster t l
    cluster ← or_default t (named.0)
    given (set_task i (start_task now cluster) (record_cluster t.def cluster (named.1)))

  abbrev pub prepare_at : ℕ → ℕ → Option TaskRun → Loop → Answer Loop
  prepare_at now i none l = given l
  prepare_at now i (some t) l = prepare_task now i t l

  unfoldable pub prepare : ℕ → List ℕ → Loop → Answer Loop
  prepare now [] l = given l
  prepare now (i ∷ is) l = do
    next ← prepare_at now i (get_elem? l.run.tasks i) l
    prepare now is next

-- Whether an attempt that ended so is followed by another; `attempt` counts those before it.
abbrev pub below : ℕ → Retries → Bool
below attempt unlimited = true
below attempt (at_most n) = ltb attempt n

unfoldable pub retries_after : TaskDef → ℕ → TaskEnd → Bool
retries_after d attempt succeeded = false
retries_after d attempt (failed m) = below attempt d.max_retries
retries_after d attempt (timed_out m) = d.retry_on_timeout && below attempt d.max_retries
retries_after d attempt (canceled m) = false
retries_after d attempt (condition b) = false

-- The loop over the attempts of a task, whose ends are given; it returns how many attempts there
-- were, in a `u32`, and the end of the last. A unit of fuel is an attempt.
unfoldable pub attempts : ℕ → TaskDef → (ℕ → TaskEnd) → ℕ → Option (ℕ × TaskEnd)
attempts zero d ends attempt = none
attempts (suc fuel) d ends attempt =
    let again = attempts fuel d ends (u32 (attempt + 1)) in
    if retries_after d attempt (ends attempt) then again else some (u32 (attempt + 1), ends attempt)

-- What `join_next` gives: a task of the batch, with its attempts and its end, or an error.
pub data Join : Type 0 where
  joined : (i attempts : ℕ) (end : TaskEnd) → Join
  join_error : Join

abbrev pub end_task : ℕ → ℕ → TaskEnd → TaskRun → TaskRun
end_task now n e t = record t { state = end_state e; end_time = now; attempt_number = n }

abbrev pub finish_at : ℕ → ℕ → ℕ → TaskEnd → Option TaskRun → Loop → Loop
finish_at now i n e none l = l
finish_at now i n e (some t) l = set_done t.task_key (end_state e) (set_task i (end_task now n e) l)

unfoldable pub join : ℕ → Join → Loop → Loop
join now (joined i n e) l = save_run (finish_at now i n e (get_elem? l.run.tasks i) l)
join now join_error l = save_run l

unfoldable pub join_all : ℕ → List Join → Loop → Loop
unfolding join
join_all now [] l = l
join_all now (j ∷ js) l = join_all now js (join now j l)
