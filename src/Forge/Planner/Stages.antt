-- ===== src/Forge/Planner/Stages.antt =====
-- What is asked of the stages that the planner of crates/forge-scheduler/src/planner.rs makes,
-- and the push of one stage.
use lakeforge.Prelude.{
  ℕ, suc, ◌+◌, ◌≤◌, ◌<◌, ◌^◌, ◌≡◌, refl, Option, List, [], ◌∷◌, ◌++◌, arith, length, length-append,
  All, All-append, All-map, none, String,
}
use lakeforge.Forge.Plan.{
  Partitioning, DataFusion, Plan, Plans, operator, exchange, shuffle_writer, unresolved_shuffle,
  shuffle_reader, nil, cons, shape, shapes,
}
use lakeforge.Forge.Planner.{QueryStage, Planner, UnresolvedShuffle, push_stage, unresolved_stages}

abbrev pub NumberedFrom : {E : DataFusion} → ℕ → List (QueryStage E) → Type 0
NumberedFrom k [] = Unit
NumberedFrom k (s ∷ ss) = (s.stage_id ≡ k) × NumberedFrom (suc k) ss

-- The root of a stage's plan is its own `ShuffleWriterExec`.
abbrev pub HasWriter : {E : DataFusion} → ℕ → Plan E → Type 0
HasWriter i (shuffle_writer j k c q w) = k ≡ i
HasWriter i _ = ⊥

abbrev pub Between : ℕ → ℕ → Type 0
Between n d = (1 ≤ d) × (d < n)

-- What `with_new_children` answers at each node of a plan, for the inputs that it has there.
abbrev pub own_check : (E : DataFusion) → E.Operator → Plans E → List (Option String)
own_check E o nil = []
own_check E o (cons c cs) = E.operator_refuses o (shapes E (cons c cs)) ∷ []

unfoldable mutual
  pub checks : (E : DataFusion) → Plan E → List (Option String)
  checks E (operator o cs) = own_check E o cs ++ checks_below E cs
  checks E (exchange x c) = E.exchange_refuses x (shape E c) ∷ checks E c
  checks E (shuffle_writer j i c q w) = checks E c
  checks E (unresolved_shuffle i s n) = []
  checks E (shuffle_reader j i s ps) = []

  pub checks_below : (E : DataFusion) → Plans E → List (Option String)
  checks_below E nil = []
  checks_below E (cons c cs) = checks E c ++ checks_below E cs

abbrev pub AllPass : List (Option String) → Type 0
AllPass = All (λ c. c ≡ none)

pub record StageIsOk (E : DataFusion) (s : QueryStage E) : Type 0 where
  pub reads : s.depends_on ≡ unresolved_stages E s.plan
  pub earlier : All (Between s.stage_id) s.depends_on
  pub has_task : 1 ≤ s.num_tasks
  pub writes : HasWriter s.stage_id s.plan
  pub accepted : AllPass (checks E s.plan)

pub record PlannerIsOk (E : DataFusion) (p : Planner E) : Type 0 where
  pub next : p.next_stage ≡ length p.stages + 1
  pub numbered : NumberedFrom 1 p.stages
  pub stages_ok : All (StageIsOk E) p.stages

-- The number of exchanges, which bounds the number of stages that splitting adds.
unfoldable mutual
  pub exchanges : (E : DataFusion) → Plan E → ℕ
  exchanges E (operator o cs) = exchanges_below E cs
  exchanges E (exchange x c) = suc (exchanges E c)
  exchanges E (shuffle_writer j i c q w) = exchanges E c
  exchanges E (unresolved_shuffle i s n) = 0
  exchanges E (shuffle_reader j i s ps) = 0

  pub exchanges_below : (E : DataFusion) → Plans E → ℕ
  exchanges_below E nil = 0
  exchanges_below E (cons c cs) = exchanges E c + exchanges_below E cs

pub Between-le : (a b : ℕ) (ds : List ℕ) → a ≤ b → All (Between a) ds → All (Between b) ds
Between-le a b ds h = All-map (Between a) (Between b) ds (λ x r. omega arith)

module _ {E : DataFusion} where
  NumberedFrom-snoc :
      (k : ℕ) (ss : List (QueryStage E)) (s : QueryStage E)
      → NumberedFrom k ss
      → s.stage_id ≡ length ss + k
      → NumberedFrom k (ss ++ s ∷ [])
  NumberedFrom-snoc k [] s h e = (omega (arith, e), tt)
  NumberedFrom-snoc k (x ∷ ss) s h e = (h.0, NumberedFrom-snoc (suc k) ss s h.1 (omega (arith, e)))

module _ (E : DataFusion) where
  pub record Pushed (p : Planner E) (r : UnresolvedShuffle E × Planner E) : Type 0 where
    pub id : r.0.stage_id ≡ p.next_stage
    pub next : r.1.next_stage ≡ p.next_stage + 1
    pub valid : PlannerIsOk E r.1

  pub push_stage-Pushed :
      (p : Planner E) (input : Plan E) (q : Option (Partitioning E.Expr)) (deps : List ℕ)
      → PlannerIsOk E p
      → p.next_stage + 1 < 2 ^ 32
      → unresolved_stages E input ≡ deps
      → All (Between p.next_stage) deps
      → AllPass (checks E input)
      → Pushed p (push_stage E p input q deps)
  unfolding push_stage unresolved_stages checks
  push_stage-Pushed p input q deps v room reads earlier passes = record {
    id = refl;
    next = omega arith;
    valid = record {
      next = omega (arith, v.next, length-append p.stages (_ ∷ []));
      numbered = NumberedFrom-snoc 1 p.stages _ v.numbered v.next;
      stages_ok = All-append (StageIsOk E) p.stages _ v.stages_ok (
        record {
          reads = cc;
          earlier = earlier;
          has_task = ground arith;
          writes = refl;
          accepted = passes;
        },
        tt,
      );
    };
  }
