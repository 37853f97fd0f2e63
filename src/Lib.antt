-- ===== src/Lib.antt =====
-- VOODOO SKILLSET: the fleet's job queue, the control plane, the signed executor bridge, the independent
-- verifier, the governed terminal, the two runners, the evidence ledger and the planner's gate,
-- stages and checks, of the Python package src/voodoo_skillset.
--
-- Fleet (src/voodoo_skillset/fleet.py, DurableFleetStore). A plan is recorded, jobs of a verified plan
-- are queued, a worker claims a lease and delivers a receipt, and another party claims a verification
-- lease and delivers a verdict; every change appends to a hash chain of events. Fleet/Tables.antt has
-- the rows and the tables, Fleet/Validation.antt the tests of inputs, Fleet/Updates.antt each UPDATE of a
-- row, Fleet/Events.antt `_event` and `verify_event_chain`, Fleet/Queue.antt `record_plan`, `enqueue`,
-- `get_job` and `_reap_expired`, Fleet/Execution.antt `claim_execution`, `heartbeat_execution`,
-- `complete_execution` and `fail_execution`, Fleet/Verification.antt `claim_verification` and
-- `complete_verification`, Fleet/Reports.antt `stats` and `events`. Fleet/Lifecycle.antt is the
-- independent description: how one row may change in one step, as a relation, with what holds along it
-- below. Fleet/Refinement.antt and its children
-- tie each operation to that relation; Fleet/Guarantees.antt, Fleet/Chain.antt and Fleet/Selection.antt
-- draw the conclusions for histories of calls. A transaction is one step: BEGIN IMMEDIATE serialises
-- them, and a ROLLBACK gives back the tables as they were.
--
-- Bridge (src/voodoo_skillset/executor_bridge.py). Bridge/Request.antt has `ExecutionRequest`,
-- Bridge/Signing.antt the signatures, Bridge/Replay.antt `ReplayGuard`, Bridge/Service.antt
-- `ExecutorService` with `do_GET` and `do_POST`, Bridge/Client.antt `RemoteExecutorClient`;
-- Bridge/Request/Laws.antt, Bridge/Served.antt, Bridge/Claims.antt, Bridge/Once.antt and Bridge/Trust.antt prove.
--
-- Worker (src/voodoo_skillset/fleet_worker.py, FleetWorker): Worker.antt has `run_once` with the calls of
-- the heartbeat thread and both looks at its error; Worker/Delivery.antt says what a report of success
-- means.
--
-- Verifier (src/voodoo_skillset/fleet_worker.py, IndependentFleetVerifier): Verifier.antt has `_checks`,
-- which compares a receipt with the job's specification, and `run_once` over the fleet store;
-- Verifier/Outcome.antt and Verifier/Soundness.antt say what passing checks mean. The report is its
-- status, job and queue state.
--
-- Terminal (src/voodoo_skillset/governed_terminal.py): Terminal.antt has `parse_command`, `classify`,
-- `grant_allows` and `execute`, Terminal/Safety.antt what it starts.
--
-- Runner (src/voodoo_skillset/execution.py, LinuxNamespaceExecutor): Runner.antt has the guards, the
-- command line and the result; Runner/Confinement.antt says what runs.
--
-- Container (src/voodoo_skillset/container_executor.py, DockerSandboxExecutor): Container/Image.antt has
-- `validate_image` and `_container_name`, Container/Output.antt `drain`, Container/Supervision.antt the
-- loop and the result of `_run_bounded`, Container/Supervision/Cleanup.antt what it leaves behind,
-- Container/Runner.antt `_command` and `execute`;
-- Container/Confinement.antt says what runs. Docker, the files and the processes are parameters.
--
-- Planner: Planner/Policy.antt has `authority_gate` of src/voodoo_skillset/policy.py, Planner/Stages.antt
-- `compose_stages` of src/voodoo_skillset/dag.py, whose loop is on fuel, one unit for each selected id,
-- and Planner/Plans.antt `verify_plan` of src/voodoo_skillset/verifier.py.
--
-- Evidence (src/voodoo_skillset/evidence.py): Evidence.antt has the ledger, Evidence/Integrity.antt what
-- its verification means.
--
-- Control (src/voodoo_skillset/api.py): the control plane, through which workers and verifiers reach the
-- store. Control/App.antt has its state and the token checks, Control/Coordinator.antt the fleet routes,
-- Control/Execution.antt `execute_remote` and `plan`, Control/Handler.antt `do_POST`, Control/Client.antt
-- `FleetCoordinatorClient` of src/voodoo_skillset/fleet_client.py. Control/Scopes.antt and its child
-- prove what the tokens protect, Control/Client/Delivery.antt that a claim of the client gets the
-- store's lease, Control/Histories.antt and its children carry the guarantees of the
-- store over to every sequence of requests. A request is one step: each calls one operation of the store
-- that writes, which is a transaction. The planner, the executor and `str.strip` are parameters.
--
-- Python.antt has exceptions and methods that change a state: what was written before a raise stays
-- written unless a transaction undoes it. Json.antt has JSON values; a column that stores JSON text
-- holds the value itself, and fractional numbers are left out. Platform.antt has what the code takes
-- from Python's standard library: SHA-256, HMAC, `json.dumps` and `json.loads`, `int`, `str` and paths.
-- These, the clock, the tokens and `uuid4` are arguments. Integers are unbounded, as in Python; `enqueue` refuses a priority that
-- SQLite's 64 bits do not hold. All
-- recursion but that of `compose_stages` is structural on a list. Prelude.antt has the shared helpers.
--
-- Not modelled: sockets and the servers' loops, the reports of the control plane (`do_GET`), the command line,
-- the Supabase adapter (its rules are SQL on another server), the choice between the two runners,
-- their copies of files, the router's floating-point scores, and the workers' endless loops.
pub mod Prelude
pub mod Json
pub mod Python
pub mod Platform
pub mod Fleet
pub mod Bridge
pub mod Terminal
pub mod Verifier
pub mod Runner
pub mod Evidence
pub mod Planner
pub mod Control
pub mod Container
pub mod Worker
