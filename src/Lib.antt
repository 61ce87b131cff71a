-- ===== src/Lib.antt =====
-- The verification library of mlx-swarm: the control plane that plans, admits and releases one model's
-- inference sequences over a mesh of workers.
--
-- The parts, and how they interact. Workers register leases with the registry (internal/registry),
-- whose snapshots are the inventory of the mesh. Placement (internal/placement) puts every worker of a
-- snapshot to the hard constraints of a stage, and selects a worker for each stage of an execution
-- plan (internal/generation). The scheduler (internal/mesh) admits a plan against the same snapshot:
-- it claims request slots, shard slots and bytes on each worker, and gives them back when the sequence
-- ends, with a mark where a cleanup is not confirmed. While a sequence runs, its opens and closes on
-- the workers are tracked by a sequence set (internal/workerproc).
--
-- The files. Base/ has what the parts share: Boolean tests, lists over native numbers, Go's `int`
-- (Base/Int, sums wrapped at 64 bits), `uint64` (Base/Word), maps (Base/GoMap, an association list;
-- Base/Series, what holds of every entry), strings (Base/Text, Base/Trim, Base/Decimal), errors
-- (Base/Results) and comparisons (Base/Order). Fixtures and ScoredFixtures have test data; the Tests
-- module of each part runs its theorems at concrete inputs.
--
-- Registry/ models internal/registry/registry.go and types.go: Types the records, Validate and
-- Normalize the checks and normal forms, Leases the operations `Register`, `Heartbeat`, `Remove`,
-- `Snapshot` and `expireLocked` as functions from a registry to an outcome and a registry; Branches
-- the lemma for their early returns; Index, Sound, Invariant, History, Snapshot, Follows and Revision
-- the proofs.
--
-- Generation/ models internal/generation/execution_plan.go: Types, Plan (`ValidateExecutionPlan`,
-- `BuildExecutionPlan`, `DeriveExecutionShardID`) and Balanced (`BuildBalancedExecutionPlan`); Sound,
-- Pipeline, Agreement, Roundtrip and Split the proofs.
--
-- Placement/ models internal/placement. Of eligibility.go: Types, Eligibility (`EvaluateCandidates`),
-- and Eligible the proof. Of scoring.go: Profiles (`validateProfileSnapshot`), Validate (the other
-- checks of the inputs), Arithmetic (`multiplyDivideCeil`, and `bytesPerSecond` of profile.go),
-- Scoring (the estimates of a stage), ScorePlan (`ScorePlan`) and Compare (`ComparePlanEvaluations`);
-- Estimates, Scored, Sums, Evidence, Results and Guarantees the proofs. Of planner.go: PlanTypes,
-- Ranges, Partial (the options of a partial plan), Planner (the rounds of the search) and Construct
-- (`ConstructPlan`); Work (the operations, counted apart from the counter), RangedPlans, Searches and
-- Constructed the proofs. Of profile.go: Samples (a series and its summary), Observe (the
-- normalization), Store (`ObserveLink`, `ObserveComputeBatch`) and Snapshot (`Snapshot`); Normalized,
-- Kept, SeriesMaps, WellFormed, Batches, StoreHistory, Summaries, Percentiles, Summarized, Current,
-- SnapshotValid and FreshSeries the proofs.
--
-- Mesh/ models internal/mesh/scheduler.go: State the two tables, Reconcile
-- `reconcileReservationsLocked`, Admit `reserveAdmission`, Bindings `selectedTargetBindings`, Finish
-- the observations and `finishReservation`, Session `ScheduledSequence`, where a section under the
-- mutex and the release after it are two steps; Evidence that a scored plan is one that admission
-- takes; Interleaving the step relation of callers that share a scheduler; Capacity, Lookup, Reserved,
-- Admission, Incarnations, Ledger, Balance, Retained, Accounting, Poison and Charged the proofs.
--
-- Worker/ models internal/workerproc/sequence.go: Sequence `OpenSequences` and the closes; Cleanup,
-- Rounds, Ownership and Complete the proofs.
--
-- The bounds. A Go `int` is an integer with the wrap-around of 64 bits where the code adds, a `uint64`
-- a natural number with its wrap-around or its overflow test written out. The scheduler's count of
-- active stages is a natural number: it starts at 0, and the code tests it before it counts down.
-- Times are natural numbers of nanoseconds, 0 the zero time, and a lease's expiry is not bounded. The
-- 128-bit product and quotient of math/bits are exact arithmetic on natural numbers. Loops are
-- structural recursion over the lists that the source ranges over; the search of a plan is structural
-- recursion on the number of stages that its loop counts to, so no fuel is used. A loop over a Go map
-- is a loop over the association list, in its order.
--
-- Parameters. SHA-256 digests of plans, the functions of net/url on an endpoint, and the workers
-- behind the callers are parameters; what is assumed of the workers is the record `WorkerLaws` of
-- Worker/Rounds. It lets a worker apply an open after its answer was lost; a test in Worker/Tests has
-- a worker that meets the laws, where the close of the rollback overtakes such an open and nothing
-- tracks it. A caller is a reference, so that two targets on different callers are different.
--
-- What is not modelled: the texts of errors and rejections, locking itself (each section under a mutex
-- is one step), contexts and time-outs, the difference of a nil and an empty slice under
-- `reflect.DeepEqual`, and these parts: the rest of `Prepare` and the target resolvers, the
-- observations of a planned sample (internal/placement/profile_generation.go), the generation loops,
-- the clients of worker processes, supervision, HTTP, the experiment harnesses, the commands and the
-- Swift worker.

pub mod Base
pub mod Fixtures
pub mod ScoredFixtures
pub mod Registry
pub mod Generation
pub mod Placement
pub mod Mesh
pub mod Worker
