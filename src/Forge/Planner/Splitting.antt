-- ===== src/Forge/Planner/Splitting.antt =====
-- The planner's invariant through `split` and `plan` (crates/forge-scheduler/src/planner.rs): an
-- induction over the plan.
use mathlib.Core.Path.{subst, ap₂}
use lakeforge.Prelude.{
  ℕ, suc, String, ◌+◌, ◌≤◌, ◌<◌, ◌^◌, ◌≡◌, refl, ◌∙◌, Option, none, some, List, [], ◌∷◌, ◌++◌,
  arith, length, append-eq-nil, All, All-append, leb, Bool-cases, inl, inr,
}
use lakeforge.Forge.Proto.{ok, >>=-eq-ok, ok-injective}
use lakeforge.Forge.Plan.{
  Partitioning, hash, round_robin_batch, unknown_partitioning, Exchange, repartition,
  coalesce_partitions, sort_preserving_merge, DataFusion, Plan, Plans, operator, exchange,
  shuffle_writer, unresolved_shuffle, shuffle_reader, nil, cons, shape,
}
use lakeforge.Forge.Planner.{
  unless_refused, QueryStage, Planner, push_stage, Split, split, split_children, plan_stages,
  rebuild_node, rebuild_exchange, rebuild_operator, repartition_stage, merge_stage, split_exchange,
  unresolved_stages, unresolved_below, new_planner,
}
use lakeforge.Forge.Planner.Stages.{
  Between, StageIsOk, PlannerIsOk, exchanges, exchanges_below, AllPass, checks, checks_below,
  Between-le, push_stage-Pushed, NumberedFrom,
}

module _ (E : DataFusion) where
  -- A result of splitting by which at most `k` stages are added.
  record SplitIsOk (k : ℕ) (p : Planner E) (r : Split E) : Type 0 where
    reads : unresolved_stages E r.0 ≡ r.1
    earlier : All (Between r.2.next_stage) r.1
    grows : p.next_stage ≤ r.2.next_stage
    accepted : AllPass (checks E r.0)
    within : r.2.next_stage ≤ p.next_stage + k
    valid : PlannerIsOk E r.2

  record ChildrenAreOk (k : ℕ) (p : Planner E) (r : Plans E × List ℕ × Planner E) : Type 0 where
    reads : unresolved_below E r.0 ≡ r.1
    earlier : All (Between r.2.next_stage) r.1
    grows : p.next_stage ≤ r.2.next_stage
    accepted : AllPass (checks_below E r.0)
    within : r.2.next_stage ≤ p.next_stage + k
    valid : PlannerIsOk E r.2

  rebuild_node-reads :
      (o : E.Operator) (cs : Plans E) {plan : Plan E}
      → rebuild_node E o cs ≡ ok plan
      → unresolved_stages E plan ≡ unresolved_below E cs
  unfolding rebuild_node rebuild_operator unresolved_stages
  rebuild_node-reads o nil h = ground arith
  rebuild_node-reads o (cons c cs) h = ground arith

  rebuild_exchange-reads :
      (x : Exchange E.Expr) (c : Plan E) {plan : Plan E}
      → rebuild_exchange E x c ≡ ok plan
      → unresolved_stages E plan ≡ unresolved_stages E c
  unfolding rebuild_exchange unresolved_stages
  rebuild_exchange-reads x c h = ground arith

  unless_refused-ok :
      (c : Option String) (plan : Plan E) {r : Plan E}
      → unless_refused {E = E} c plan ≡ ok r
      → (c ≡ none) × (plan ≡ r)
  unless_refused-ok none plan {r} h = (refl, ok-injective plan r h)
  unless_refused-ok (some m) plan h = cc

  rebuild_node-AllPass :
      (o : E.Operator) (cs : Plans E) {plan : Plan E}
      → rebuild_node E o cs ≡ ok plan
      → AllPass (checks_below E cs)
      → AllPass (checks E plan)
  unfolding rebuild_node rebuild_operator checks
  rebuild_node-AllPass o nil {plan} h below =
      subst (λ q. AllPass (checks E q)) (ok-injective _ plan h) tt
  rebuild_node-AllPass o (cons c cs) {plan} h below =
      let (passes, same) = unless_refused-ok _ (operator o (cons c cs)) h in
      subst (λ q. AllPass (checks E q)) same (passes, below)

  rebuild_exchange-AllPass :
      (x : Exchange E.Expr) (c : Plan E) {plan : Plan E}
      → rebuild_exchange E x c ≡ ok plan
      → AllPass (checks E c)
      → AllPass (checks E plan)
  unfolding rebuild_exchange checks
  rebuild_exchange-AllPass x c {plan} h below =
      let (passes, same) = unless_refused-ok _ (exchange x c) h in
      subst (λ q. AllPass (checks E q)) same (passes, below)

  -- The end of `split` at an exchange, over an input that is split already.
  module _ (input : Plan E) (deps : List ℕ) (p : Planner E) (room : p.next_stage + 1 < 2 ^ 32)
      (reads : unresolved_stages E input ≡ deps) (earlier : All (Between p.next_stage) deps)
      (v : PlannerIsOk E p) (passes : AllPass (checks E input)) where
    pushed-IsOk :
        (q : Option (Partitioning E.Expr)) (plan : Plan E)
        → unresolved_stages E plan ≡ (push_stage E p input q deps).0.stage_id ∷ []
        → AllPass (checks E plan)
        → SplitIsOk 1 p
            (plan, (push_stage E p input q deps).0.stage_id ∷ [], (push_stage E p input q deps).1)
    pushed-IsOk q plan e ok_plan =
        let pushed = push_stage-Pushed E p input q deps v room reads earlier passes in
        record {
          reads = e;
          earlier = ((omega (arith, pushed.id, v.next), omega (arith, pushed.id, pushed.next)), tt);
          grows = omega (arith, pushed.next);
          accepted = ok_plan;
          within = omega (arith, pushed.next);
          valid = pushed.valid;
        }

    repartition_stage-IsOk :
        (q : Partitioning E.Expr) {r : Split E}
        → repartition_stage E q input deps p ≡ ok r
        → SplitIsOk 1 p r
    unfolding repartition_stage unresolved_stages checks
    repartition_stage-IsOk q {r} h =
        subst (SplitIsOk 1 p) (ok-injective _ r h) (pushed-IsOk (some q) _ refl tt)

    kept-IsOk :
        (plan : Plan E) {r : Split E}
        → unresolved_stages E plan ≡ unresolved_stages E input
        → AllPass (checks E plan)
        → ok (plan, deps, p) ≡ ok r
        → SplitIsOk 1 p r
    kept-IsOk plan {r} same ok_plan h = subst (SplitIsOk 1 p) (ok-injective _ r h) (record {
      reads = same ∙ reads;
      accepted = ok_plan;
      earlier = earlier;
      grows = omega arith;
      within = omega arith;
      valid = v;
    })

    merge_stage-IsOk :
        (x : Exchange E.Expr) (plan : Plan E) {r : Split E}
        → unresolved_stages E plan ≡ unresolved_stages E input
        → AllPass (checks E plan)
        → merge_stage E x input plan deps p ≡ ok r
        → SplitIsOk 1 p r
    unfolding merge_stage unresolved_stages checks
    merge_stage-IsOk x plan {r} same ok_plan h = elim (Bool-cases (leb (shape E input).1 1)) [
      | inl one ↦ kept-IsOk plan same ok_plan (rw one at h)
      | inr more ↦
          let (rewritten, e, h') = >>=-eq-ok _ _ (rw more at h) in
          subst (SplitIsOk 1 p) (ok-injective _ r h') (
            pushed-IsOk none rewritten (rebuild_exchange-reads x _ e)
              (rebuild_exchange-AllPass x _ e tt))
    ]

    split_exchange-IsOk :
        (x : Exchange E.Expr) (plan : Plan E) {r : Split E}
        → unresolved_stages E plan ≡ unresolved_stages E input
        → AllPass (checks E plan)
        → split_exchange E x input plan deps p ≡ ok r
        → SplitIsOk 1 p r
    unfolding split_exchange
    split_exchange-IsOk (repartition (hash ks n)) plan same ok_plan h =
        repartition_stage-IsOk (hash ks n) h
    split_exchange-IsOk (repartition (round_robin_batch n)) plan same ok_plan h =
        repartition_stage-IsOk (round_robin_batch n) h
    split_exchange-IsOk (repartition (unknown_partitioning n)) plan same ok_plan h =
        kept-IsOk plan same ok_plan h
    split_exchange-IsOk coalesce_partitions plan same ok_plan h =
        merge_stage-IsOk coalesce_partitions plan same ok_plan h
    split_exchange-IsOk (sort_preserving_merge ks) plan same ok_plan h =
        merge_stage-IsOk (sort_preserving_merge ks) plan same ok_plan h

  unchanged-IsOk :
      (plan : Plan E) (p : Planner E)
      → unresolved_stages E plan ≡ []
      → AllPass (checks E plan)
      → PlannerIsOk E p
      → SplitIsOk 0 p (plan, [], p)
  unchanged-IsOk plan p fresh passes v = record {
    reads = fresh;
    accepted = passes;
    earlier = tt;
    grows = omega arith;
    within = omega arith;
    valid = v;
  }

  operator-IsOk :
      (o : E.Operator) (k : ℕ) (p : Planner E) (t : Plans E × List ℕ × Planner E) (plan : Plan E)
      → ChildrenAreOk k p t
      → rebuild_node E o t.0 ≡ ok plan
      → SplitIsOk k p (plan, t.1, t.2)
  operator-IsOk o k p t plan below e = record {
    reads = rebuild_node-reads o t.0 e ∙ below.reads;
    accepted = rebuild_node-AllPass o t.0 e below.accepted;
    earlier = below.earlier;
    grows = below.grows;
    within = below.within;
    valid = below.valid;
  }

  exchange-IsOk :
      (x : Exchange E.Expr) (k : ℕ) (p : Planner E) (t : Split E) (plan : Plan E)
      → SplitIsOk k p t
      → p.next_stage + suc k < 2 ^ 32
      → rebuild_exchange E x t.0 ≡ ok plan
      → {r : Split E} → split_exchange E x t.0 plan t.1 t.2 ≡ ok r
      → SplitIsOk (suc k) p r
  exchange-IsOk x k p t plan below room e h =
      let placed =
        split_exchange-IsOk t.0 t.1 t.2 (omega (arith, below.within)) below.reads below.earlier
          below.valid below.accepted x plan (rebuild_exchange-reads x t.0 e)
          (rebuild_exchange-AllPass x t.0 e below.accepted) h in
      record {
        reads = placed.reads;
        accepted = placed.accepted;
        earlier = placed.earlier;
        grows = omega (arith, placed.grows, below.grows);
        within = omega (arith, placed.within, below.within);
        valid = placed.valid;
      }

  writer-IsOk :
      (j : String) (i : ℕ) (q : Option (Partitioning E.Expr)) (w : String) (k : ℕ) (p : Planner E)
      (t : Split E)
      → SplitIsOk k p t
      → SplitIsOk k p (shuffle_writer j i t.0 q w, t.1, t.2)
  unfolding unresolved_stages checks
  writer-IsOk j i q w k p t below = record {
    reads = below.reads;
    accepted = below.accepted;
    earlier = below.earlier;
    grows = below.grows;
    within = below.within;
    valid = below.valid;
  }

  children-IsOk :
      (k l : ℕ) (p : Planner E) (t : Split E) (u : Plans E × List ℕ × Planner E)
      → SplitIsOk k p t
      → ChildrenAreOk l t.2 u
      → ChildrenAreOk (k + l) p (cons t.0 u.0, t.1 ++ u.1, u.2)
  unfolding unresolved_stages checks
  children-IsOk k l p t u first rest = record {
    reads = ap₂ ◌++◌ first.reads rest.reads;
    accepted =
        All-append (λ c. c ≡ none) (checks E t.0) (checks_below E u.0) first.accepted rest.accepted;
    earlier =
        All-append (Between u.2.next_stage) t.1 u.1
          (Between-le t.2.next_stage u.2.next_stage t.1 rest.grows first.earlier) rest.earlier;
    grows = omega (arith, first.grows, rest.grows);
    within = omega (arith, first.within, rest.within);
    valid = rest.valid;
  }

  mutual
    unfolding split exchanges unresolved_stages checks

    split-IsOk :
        (plan : Plan E) (p : Planner E)
        → unresolved_stages E plan ≡ []
        → PlannerIsOk E p
        → p.next_stage + exchanges E plan < 2 ^ 32
        → {r : Split E} → split E plan p ≡ ok r
        → SplitIsOk (exchanges E plan) p r
    split-IsOk (operator o cs) p fresh v room {r} h =
        let (t, e, h') = >>=-eq-ok (split_children E cs p) _ h in
        let (plan, e', h'') = >>=-eq-ok (rebuild_node E o t.0) _ h' in
        subst (SplitIsOk (exchanges_below E cs) p) (ok-injective _ r h'') (
          operator-IsOk o (exchanges_below E cs) p t plan (split_children-IsOk cs p fresh v room e)
            e')
    split-IsOk (exchange x c) p fresh v room {r} h =
        let (t, e, h') = >>=-eq-ok (split E c p) _ h in
        let (plan, e', h'') = >>=-eq-ok (rebuild_exchange E x t.0) _ h' in
        exchange-IsOk x (exchanges E c) p t plan (split-IsOk c p fresh v (omega arith) e) room e'
          h''
    split-IsOk (shuffle_writer j i c q w) p fresh v room {r} h =
        let (t, e, h') = >>=-eq-ok (split E c p) _ h in
        subst (SplitIsOk (exchanges E c) p) (ok-injective _ r h')
          (writer-IsOk j i q w (exchanges E c) p t (split-IsOk c p fresh v room e))
    split-IsOk (unresolved_shuffle i s n) p fresh v room h = cc
    split-IsOk (shuffle_reader j i s ps) p fresh v room {r} h =
        subst (SplitIsOk 0 p) (ok-injective _ r h) (unchanged-IsOk _ p refl tt v)

    split_children-IsOk :
        (cs : Plans E) (p : Planner E)
        → unresolved_below E cs ≡ []
        → PlannerIsOk E p
        → p.next_stage + exchanges_below E cs < 2 ^ 32
        → {r : Plans E × List ℕ × Planner E} → split_children E cs p ≡ ok r
        → ChildrenAreOk (exchanges_below E cs) p r
    split_children-IsOk nil p fresh v room {r} h =
        subst (ChildrenAreOk 0 p) (ok-injective _ r h) (record {
          reads = refl;
          accepted = tt;
          earlier = tt;
          grows = omega arith;
          within = omega arith;
          valid = v;
        })
    split_children-IsOk (cons c cs) p fresh v room {r} h =
        let (none_here, none_below) = append-eq-nil (unresolved_stages E c) _ fresh in
        let (t, e, h') = >>=-eq-ok (split E c p) _ h in
        let (u, e', h'') = >>=-eq-ok (split_children E cs t.2) _ h' in
        let first = split-IsOk c p none_here v (omega arith) e in
        let rest =
          split_children-IsOk cs t.2 none_below first.valid (omega (arith, first.within)) e' in
        subst (ChildrenAreOk (exchanges E c + exchanges_below E cs) p) (ok-injective _ r h'')
          (children-IsOk (exchanges E c) (exchanges_below E cs) p t u first rest)

  -- When a plan without placeholders, of fewer than 2 ^ 32 - 2 exchanges, is planned, there is
  -- a stage, the stages are numbered from 1 in their order, and each is sound: its dependencies
  -- are the placeholders of its plan, all of them earlier stages, it has a task, the root of
  -- its plan is its own writer, and DataFusion accepts the inputs of every operator in it.
  pub plan_stages-IsOk :
      (job_id work_dir : String) (plan : Plan E)
      → unresolved_stages E plan ≡ []
      → exchanges E plan + 2 < 2 ^ 32
      → {stages : List (QueryStage E)}
      → plan_stages E (new_planner E job_id work_dir) plan ≡ ok stages
      → NumberedFrom 1 stages × All (StageIsOk E) stages × (1 ≤ length stages)
  unfolding plan_stages new_planner
  plan_stages-IsOk job_id work_dir plan fresh room {stages} h =
      let start : Planner E = new_planner E job_id work_dir in
      let (r, e, h') = >>=-eq-ok (split E plan start) _ h in
      let below =
        split-IsOk plan start fresh (record { next = refl; numbered = tt; stages_ok = tt })
          (omega (arith, room)) e in
      let last =
        push_stage-Pushed E r.2 r.0 none r.1 below.valid (omega (arith, below.within)) below.reads
          below.earlier below.accepted in
      subst (λ l. NumberedFrom 1 l × All (StageIsOk E) l × (1 ≤ length l))
        (ok-injective _ stages h')
        (
          last.valid.numbered,
          last.valid.stages_ok,
          omega (arith, last.valid.next, last.next, below.grows),
        )
