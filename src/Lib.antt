-- ===== src/Lib.antt =====
-- A verification library for lakeforge: the distributed query engine, the privileges of the catalog
-- and the statements that change them, and the execution of job runs.
--
-- The engine turns a physical plan into stages (crates/forge-scheduler/src/planner.rs), keeps one
-- state machine for each job (job.rs), knows its executors (executors.rs), and drives the jobs from
-- the calls of clients, the reports of executors and a dispatch loop (scheduler.rs). Stages hand data
-- to each other through shuffle files (crates/forge-shuffle/src).
--
-- Files:
-- - Prelude and its children: Boolean tests, lists, machine words, maps as association lists, text.
-- - Forge/Proto: the messages of crates/forge-proto/proto/forge.proto and the errors of
--   crates/forge-common/src/lib.rs. A generated message is a record with the fields that are used.
-- - Forge/Plan: physical plans. The operators of forge-shuffle and the three exchanges of DataFusion
--   that the planner matches are constructors; every other operator is of a type of the parameter.
-- - Forge/Planner: `DistributedPlanner::plan`, `push_stage`, `split`, `unresolved_stages`.
-- - Forge/Resolve: `resolve_stage`, and the labels of `ShuffleWriterExec::write_partition`.
-- - Forge/Job: State has the data, and Ops, Events and Info the methods of `StageState` and
--   `JobState`.
-- - Forge/Executors: the methods of `ExecutorEntry` and `ExecutorRegistry`.
-- - Forge/Scheduler: State has the handlers of `Scheduler`, Dispatch its loop.
-- - Forge/Samples and Forge/Witnesses: concrete inputs, and the theorems at them.
-- - Uc/Names: operations of `str` on lists of code points. Uc/Securable, Uc/Authorizer, Uc/Grants,
--   Uc/Effective:
--   crates/lakeforge-api/src/uc/privileges.rs, its types of securables, its checks and its changes of
--   grants. Uc/Witnesses: the theorems at a small catalog.
-- - Uc/GrantSql: crates/lakeforge-api/src/uc/grant_sql.rs. Tokens has the tokenizer, Parse and
--   Statements the parsers, Printing and Rendering the texts that are read back.
-- - Uc/SqlAuth: `authorize_sql` of crates/lakeforge-api/src/uc/sqlauth.rs on an analysed statement
--   (sqlguard.rs), with the lookups of crates/lakeforge-api/src/api/catalog.rs that it makes. Spec has
--   the rights without the caches of the authorizer.
-- - Jobs: crates/lakeforge-api/src/api/jobs.rs. Runs has the data, Gate the conditions under which a
--   task runs, Batch one batch of tasks, Execute the rounds of a run (`execute_run_inner`,
--   `spawn_run`), Repair the handlers `repair`, `cancel_run` and `validate_settings`,
--   Tick the scheduler tick. Jobs/Samples and
--   Jobs/Witnesses: two tasks, and the theorems at them.
-- - Permissions: crates/lakeforge-api/src/api/permissions.rs, the lists of levels and their changes;
--   Permissions/Levels has the check and the handlers.
-- The other files prove what the list below says.
--
-- Conventions. A method that mutates returns the new value beside its result, also beside an error.
-- The clock is an argument: one reading, `now`, for each call. `u32` and `u64` are natural numbers,
-- and the arithmetic wraps where it is written, as in a release build. A map is an association list;
-- a BTreeMap keeps its keys in order. The sender `result_tx` is a channel that is open or has sent.
-- Fuel: the decimal text of a number has one unit for each digit, and a number n gets n + 1 units,
-- which is more than its digits; the rounds of a run, the attempts of a task (counted in
-- a `u32`) and the passes over the dependents of `repair` have one unit each, and theorems say how many are enough. All other loops are
-- structural.
--
-- The execution of a run sees the world in rounds: the time, whether the deadline has passed, and how
-- the tasks of the batch join, in any order. A task is what its attempts end in; the cluster API is a
-- record of answers, which may be errors. The run that the store holds is the last that was saved.
--
-- The document store of the catalog is a value: the grants and the owners by document id, the JSON of
-- a document as the list that it spells.
--
-- Parameters. DataFusion is a record: what the schema and the partition count of an operator are for
-- those of its inputs, and whether it refuses new inputs. The codec is a record: the encoder of plans,
-- which may fail, and their text. The answer of an executor to a launch request is an argument of
-- `dispatch`. The text of a DataFusion error is taken to be its message.
-- `cron::Schedule::from_str` is a function from expressions to the texts of errors. No law is assumed of any of them.
--
-- Not modelled: locks and asynchrony (each handler runs as one step), waking of the dispatch loop,
-- logging, the cache of gRPC clients, the sending of cancellations (they are recorded), the reading
-- and writing of shuffle files, errors of the database, and in privileges.rs `can_browse` and the
-- set-up of defaults; the analysis and the rewriting of a SQL statement (sqlguard.rs), so the checks
-- take an analysis; in jobs.rs parameters and their substitution, notifications, the clean-up of
-- clusters, `create_run` and the JSON views. An index that would panic in the code (the final stage in `finish_ok`) leaves
-- the value as it is; the indices are keys of the map that they read.
pub mod Prelude
pub mod Forge
pub mod Uc
pub mod Jobs
pub mod Permissions
