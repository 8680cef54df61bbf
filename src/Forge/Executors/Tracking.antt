-- ===== src/Forge/Executors/Tracking.antt =====
-- What the registry knows of an executor, after any calls
-- (crates/forge-scheduler/src/executors.rs).
use mathlib.Core.Path.{subst}
use lakeforge.Prelude.{
  ℕ, String, ◌≡◌, refl, ◌∙◌, ap, Bool, true, false, ◌&&◌, ◌||◌, Option, none, some, List, [], ◌∷◌,
  ◌++◌, if◌then◌else◌, ◌==◌, string_eq, eq_iff, inl, inr, Bool-cases, Option-cases,
}
use lakeforge.Prelude.Assoc.{lookup, modify, lookup-modify, lookup-insert, lookup-remove}
use lakeforge.Forge.Proto.{task_text}
use lakeforge.Forge.Executors.{
  ExecutorResources, ExecutorEntry, Registry, set_insert, register, registered, beat, heartbeat,
  remove_executor, started, task_started, finished, task_finished, schedule_purge,
}
use lakeforge.Forge.Executors.Slots.{
  member, member-set_remove, RegistryCall, registering, beating, removing, starting, finishing,
  purging, call,
}

-- Of one executor and one task: whether the executor is registered, whether the task runs there, and
-- the jobs whose shuffle files it is still to remove.
pub record View : Type 0 where
  pub known : Bool
  pub runs : Bool
  pub purges : List String

abbrev pub unknown : View
unknown = record { known = false; runs = false; purges = [] }

abbrev pub entry_view : String → Option ExecutorEntry → View
entry_view task none = unknown
entry_view task (some e) = record {
  known = true;
  runs = member task e.running;
  purges = e.purge_jobs;
}

abbrev pub view : Registry → String → String → View
view r id task = entry_view task (lookup id r)

-- What a call is to make of the view.
abbrev pub expected_step : String → String → View → RegistryCall → View
expected_step id task v (registering m res now) =
    if m.id == id then record { known = true; runs = false; purges = [] } else v
expected_step id task v (beating k res now) = if k == id then record v { purges = [] } else v
expected_step id task v (removing k) = if k == id then unknown else v
expected_step id task v (starting k t) =
    if k == id then record v { runs = v.known && task_text t == task || v.runs } else v
expected_step id task v (finishing k t good) =
    if k == id then record v { runs = if task_text t == task then false else v.runs } else v
expected_step id task v (purging job_id) =
    if v.known then record v { purges = v.purges ++ job_id ∷ [] } else v

abbrev pub expected : String → String → View → List RegistryCall → View
expected id task v [] = v
expected id task v (c ∷ cs) = expected id task (expected_step id task v c) cs

abbrev pub calls : Registry → List RegistryCall → Registry
calls r [] = r
calls r (c ∷ cs) = calls (call r c) cs

-- What a heartbeat hands over.
abbrev pub handed : View → Option (List String)
handed v = if v.known then some v.purges else none

member-set_insert :
    (x y : String) (s : List String) → member y (set_insert x s) ≡ (x == y || member y s)
member-set_insert x y s = elim (Bool-cases (member x s)) [
  | inr new ↦ rw new refl
  | inl old ↦ elim (Bool-cases (x == y)) [
    | inr other ↦ rw (old, other) refl
    | inl same ↦
        let path : x ≡ y = (eq_iff x y).0 same in
        rw (old, same) (subst (λ z. member z s ≡ true) path old)
  ]
]

module _ (id task : String) where
  modify-view :
      (k : String) (f : ExecutorEntry → ExecutorEntry) (g : View → View) (r : Registry)
      → ((e : ExecutorEntry) → entry_view task (some (f e)) ≡ g (entry_view task (some e)))
      → unknown ≡ g unknown
      → view (modify k f r) id task ≡ (if k == id then g (view r id task) else view r id task)
  modify-view k f g r each none_yet = elim (Bool-cases (k == id)) [
    | inr other ↦ rw (lookup-modify k id f r, other) refl
    | inl same ↦
        let path : k ≡ id = (eq_iff k id).0 same in
        rw (lookup-modify k id f r, same)
          (rw path (elim (Option-cases (lookup id r)) [
            | inl missing ↦ rw missing none_yet
            | inr (e, found) ↦ rw found (each e)
          ]))
  ]

  schedule_purge-view :
      (r : Registry) (job_id : String)
      → view (schedule_purge r job_id) id task
        ≡ expected_step id task (view r id task) (purging job_id)
  unfolding schedule_purge
  schedule_purge-view [] job_id = refl
  schedule_purge-view ((k, e) ∷ r) job_id = elim (Bool-cases (k == id)) [
    | inl here ↦ rw here refl
    | inr other ↦ rw other (schedule_purge-view r job_id)
  ]

  heartbeat-view :
      (r : Registry) (k : String) (res : Option ExecutorResources) (now : ℕ)
      → view (heartbeat r k res now).0 id task
        ≡ expected_step id task (view r id task) (beating k res now)
  unfolding heartbeat
  heartbeat-view r k res now = elim (Option-cases (lookup k r)) [
    | inr (e, found) ↦
        rw (found, heartbeat)
          (modify-view k (beat res now) (λ v. record v { purges = [] }) r (beats res) refl)
    | inl missing ↦ elim (Bool-cases (k == id)) [
      | inr other ↦ rw (missing, heartbeat, other) refl
      | inl same ↦
          let path : k ≡ id = (eq_iff k id).0 same in
          let absent : lookup id r ≡ none = subst (λ z. lookup z r ≡ none) path missing in
          rw (missing, heartbeat, same, absent) refl
    ]
  ]
    where
      beats :
          (res : Option ExecutorResources) (e : ExecutorEntry)
          → entry_view task (some (beat res now e))
            ≡ record (entry_view task (some e)) { purges = [] }
      beats none e = refl
      beats (some x) e = refl

  finished-view :
      (t : String) (good : Bool) (e : ExecutorEntry)
      → entry_view task (some (finished t good e)) ≡ record (entry_view task (some e)) {
        runs = if t == task then false else member task e.running;
      }
  finished-view t true e = rw (member-set_remove t task e.running) refl
  finished-view t false e = rw (member-set_remove t task e.running) refl

  call-view :
      (r : Registry) (c : RegistryCall)
      → view (call r c) id task ≡ expected_step id task (view r id task) c
  unfolding call register remove_executor task_started task_finished
  call-view r (registering m res now) =
      rw (lookup-insert m.id id (registered m res now) r)
        (elim (Bool-cases (m.id == id)) [ inl here ↦ rw here refl | inr other ↦ rw other refl ])
  call-view r (beating k res now) = heartbeat-view r k res now
  call-view r (removing k) =
      rw (lookup-remove k id r)
        (elim (Bool-cases (k == id)) [ inl here ↦ rw here refl | inr other ↦ rw other refl ])
  call-view r (starting k t) =
      modify-view k (started (task_text t))
        (λ v. record v { runs = v.known && task_text t == task || v.runs }) r
        (λ e. rw (member-set_insert (task_text t) task e.running) refl) refl
  call-view r (finishing k t good) =
      modify-view k (finished (task_text t) good)
        (λ v. record v { runs = if task_text t == task then false else v.runs }) r
        (finished-view (task_text t) good) (unknown_stays (task_text t == task))
    where
      unknown_stays : (b : Bool) → unknown ≡ record unknown { runs = if b then false else false }
      unknown_stays true = refl
      unknown_stays false = refl
  call-view r (purging job_id) = schedule_purge-view r job_id

  calls-expected :
      (r : Registry) (cs : List RegistryCall)
      → view (calls r cs) id task ≡ expected id task (view r id task) cs
  calls-expected r [] = refl
  calls-expected r (c ∷ cs) =
      calls-expected (call r c) cs ∙ ap (λ v. expected id task v cs) (call-view r c)

handed-view :
    (r : Registry) (id task : String) (res : Option ExecutorResources) (now : ℕ)
    → (heartbeat r id res now).1 ≡ handed (view r id task)
unfolding heartbeat
handed-view r id task res now = elim (Option-cases (lookup id r)) [
  | inl missing ↦ rw (missing, heartbeat) refl
  | inr (e, found) ↦ rw (found, heartbeat) refl
]

-- After any calls, which continue what the registry held before, it knows an executor exactly if it
-- is registered and not removed since;
-- a task runs there exactly if it was started there, while it was registered, and neither has it
-- finished nor has the executor registered again or been removed since; and the next heartbeat hands
-- over the jobs to purge that came since the last one or the registration, in their order.
pub calls-view :
    (r : Registry) (cs : List RegistryCall) (id task : String) (res : Option ExecutorResources)
    (now : ℕ)
    → (view (calls r cs) id task ≡ expected id task (view r id task) cs)
      × ((heartbeat (calls r cs) id res now).1 ≡ handed (expected id task (view r id task) cs))
calls-view r cs id task res now =
    let follows = calls-expected id task r cs in
    (follows, handed-view (calls r cs) id task res now ∙ ap handed follows)
