-- ===== src/Lib.antt =====
-- PDX Artifact Engine: a model of the engine's contracts and state machines, with their proofs.
--
-- The engine runs artifact operations for clients. Modelled are its core package,
-- packages/pdx_artifact_core/src/pdx_artifact_core (the states of a run, the lifecycle of external
-- operations, the ordered stream of run events, the context that bounds an execution, the approval
-- of a paused step, the snapshots of a run with their two repositories, continuable extractions,
-- provenance bundles and publication receipts), and of the runtime, runtime/pdx_artifact_engine, the
-- durable store of jobs, the staging of payloads, the service on jobs that clients call, and the
-- worker that has the Kernel process them.
--
-- Which file models which part:
--   Core/State              state.py: RunState, allowed_transitions, can_transition
--   Core/ExternalOperation  external_operations.py: creation, transitions, run state, retry
--   Core/Events             events.py: run_event, run_event_v1, validate_ordered_run_events, sinks
--   Core/Execution          execution.py: contexts, deadlines, cancellation, attempts
--   Core/Approval           approval.py: checkpoints, the approval ledger, the resumed plan
--   Core/Snapshot           snapshots.py: validation, encoding, checkpoint and decision repositories
--   Core/Extraction         continuable_extraction.py: creation, validation, acceptance of ranges,
--                           and the receipts of ended extractions
--   Core/Provenance         provenance.py: bundles of nodes and relations
--   Core/Publication        receipts.py: receipts of publications
--   Core/Validation         validate.py: _graph_has_cycle, and in Plan the semantic tests of plans
--   Jobs                    runtime/pdx_artifact_engine/jobs: __init__.py (JobStore) in Rows and
--                           Store, result_contract.py in Results
--   Staging                 runtime/pdx_artifact_engine/staging/__init__.py: StagingStore
--   JobService              runtime/pdx_artifact_engine/jobs/service.py: create in Create, cancel,
--                           get and _finalize in Finalize, reconcile in Reconcile, retrieve and the
--                           results in Retrieve, the tests of requests in Requests, and the
--                           calls of the stores in World
--   Worker                  runtime/pdx_artifact_engine/worker.py: the writes behind a lease in
--                           Lease, the calls of the Kernel in Kernel, run_once in Process
--   Actions                 code that reads and writes a state, and may raise
--   Core/Book               decisions in two dictionaries, which the approval ledger and the
--                           decision repository both keep
--   Prelude                 library names, lists, dictionaries, results, equality tests, and times
--                           with or without an offset
--
-- How they interact. An approval pauses a step of a plan: create_checkpoint splits the steps into
-- completed and pending ones, a decision is recorded in the ledger, and build_resumed_plan makes
-- the plan of what is left. A snapshot holds the step receipts of a run and is stored under a
-- version. The service stages the payload of a new job and adds its row; a worker claims the row of
-- the job under a lease with a drawn token, names the token in its later calls, reads the staged
-- payload, asks the Kernel, and writes the result back; the service hands results out, cancels jobs and
-- brings stale ones to an end. External operations map their status to a run state.
--
-- Correspondence. Each function of the source is a function here, under its name (but
-- record_decision is ApprovalLedger.record, and insert_job is JobStore.insert), with its tests in
-- the source's order. An exception is a value of a result type, a dictionary is an association
-- list in insertion order, a lock makes a method one step, and a list of error messages is a list
-- of problems in the source's order. Text that only a message carries is left out.
--
-- Concurrency. The service and the worker are actions on a session: the world (the table of jobs, the
-- staged files, the worker's event `lost`) and the number of calls made so far. Each call of a store is
-- one step, before which a function `others` may change the world in any way, and so may they during a
-- call of the Kernel; it stands for other workers, other clients and the thread that renews a lease. A
-- theorem says what it assumes of `others`: that they take a job away at some moment and keep it, that
-- they act once between two calls, or, with `alone`, that nobody acts.
--
-- Parameters. JSON schema validation, canonical JSON with SHA-256, json.loads and json.dumps,
-- datetime.fromisoformat, base64, str.strip, the answers of the Kernel, the order in which Python goes
-- through a set, formatting a number as text, generated identifiers and the clock are not code of the
-- repository: they are fields of a record (`Contract`, `Json`, `Formats`, `Outside`, `KernelClient`) or
-- arguments. Theorems that need a law of one (that equal digests come from equal values, that decoding
-- undoes encoding, that a union has the elements of both lists) take it as a hypothesis, and a concrete
-- instance shows that the law can hold.
--
-- Bounds and fuel. Integers of the source are unbounded and are natural numbers here: the schemas
-- rule negative ones out, and a clock in seconds and a lease's length are not negative. Every loop
-- is over a list. The depth-first search of _graph_has_cycle has as much fuel as the graph has nodes,
-- which is enough because each entered node is white before and never again.
--
-- Not modelled. The runtime's workflows and dispatch, its external operation and extraction services,
-- its HTTP interface, the command line, the adapters and the release scripts; in the job store, opening
-- the file and adding missing columns; in the worker, the endless loop run_forever and the command
-- line; in the core, the tests of tool results, verification and the translation of version 0 documents.
pub mod Prelude
pub mod Core
pub mod Jobs
pub mod Actions
pub mod Staging
pub mod JobService
pub mod Worker
