-- ===== src/Lib.antt =====
-- The local skill orchestrator (`vibe`) plans, guards and runs coding tasks in a repository. This
-- library models its core as functions and proves what they promise. Paths in this comment are from
-- src/vibe/. The parts meet as follows.
-- A task is classified by its risk (workflows/scenarios.py), and the class fixes the phases of
-- its plan (workflows/task_graph.py). For a plan, the context compiler selects capabilities and
-- their permissions (compiler/context.py); practice packs say what a project requires
-- (practices/), and the resolver chooses, for what a project requires,
-- providers that the policies allow (resolver/). The task runner executes the plan phase by phase
-- (workflows/task_runner.py), exposes to each phase the tools of its capabilities
-- (routing/phase_exposure.py) through a gateway that refuses all other tools (routing/gateway.py),
-- and keeps a checkpoint from which it can go on. Requests of the app server are answered by
-- codex/approvals.py, and they arrive through a JSON-RPC client (codex/jsonrpc.py). What is to be
-- written into a project is a change set that is reviewed and then applied as a whole
-- (materialize/changeset.py, materialize/writer.py); the doctor compares a project with the change
-- set that it would write now (doctor/drift.py). Candidates of remote sources are merged and ranked
-- (remote/), a review of their installation waits for decisions (recommendation/readiness.py), an
-- interview asks what is unknown (conversation/interview.py), and
-- old documents are migrated (migrations/registry.py).
-- The initialization of a repository is a state machine of its own
-- (workflows/init_graph.py) over a table of checkpoints (workflows/checkpoints.py).
--
-- Prelude holds what the parts share: tests, lists, sorted sets, dictionaries as association
-- lists, JSON values, texts and results. An exception is a value of a result type.
-- Capability is models/capability.py.
-- Initialization models workflows/state.py (State), workflows/checkpoints.py (Store, the table as
-- a dictionary by run, every method a function on it) and workflows/init_graph.py (Graph, every
-- method a program of a state and error monad over the store; a side effect is a callback that may
-- itself use the store). Graph/Steps draws the stages and statuses of a run as a relation, one arrow
-- for each kind of change; Graph/Transitions takes the methods but `start` together, `advance`
-- without a side effect, and separates what they compute from the store; Graph/Diagram holds them
-- against the relation; Graph/Runs, Graph/Terminal and Graph/Interleaving are about sequences of
-- calls, failed calls, side effects and stale writers included.
-- Planning models models/risk.py (Risk), workflows/scenarios.py (Scenarios), and
-- workflows/phases.py, models/task.py and workflows/task_graph.py (TaskGraph).
-- Compiler models compiler/intent.py (Intent) and compiler/context.py with models/capsule.py
-- (Context). The digest function sha256 is a parameter.
-- Routing models routing/allowlist.py (Allowlist), routing/gateway.py (Gateway) and
-- routing/phase_exposure.py (Exposure). The upstream MCP session and the host adapter are
-- parameters.
-- Runner models workflows/task_runner.py and models/outcome.py: State holds the checkpoint, World
-- the environment, and Run the methods `run`, `_run_open`, `_verify_phase`, `_pause` and
-- `_record_outcome`. The app server, the providers, the exposure and the recorder are functions of the
-- environment on a state of any type; each of them may answer anything or raise, the closing of the
-- app server included. A task has one plan: its runs and resumptions are of that plan.
-- Approvals models codex/approvals.py.
-- Practices models practices/models.py with resolver/requirements.py (Packs), practices/matcher.py
-- (Matcher), and practices/evaluator.py: the conflicts of packs (Evaluator) and the merge of their
-- requirements (Merge), and practices/calibration.py (Calibration), where the digest of a suggestion
-- is a parameter. The facts of the project are an argument of the evaluation.
-- Resolver models resolver/policy.py with policy/org.py (Policy), resolver/scoring.py (Scoring) and,
-- of resolver/local.py, `_resolve_requirement` (Local), `resolve_local_capabilities` with
-- `_with_mandatory_practice_packs` (Plan) and `_contextual_value` with recommendation/context.py
-- (Context), where `str.casefold`, `int` of a text and `str` of a number or a list are parameters.
-- Local and Plan take the contextual value as a parameter, which Context/Consent fills.
-- Materialize models materialize/changeset.py with ownership.py (Changeset), the calls of the
-- operating system (Disk: a tree of paths, an oracle that says which call fails, and what a failed
-- removal of a directory leaves) and materialize/writer.py (Writer). sha256, the digest of a change
-- set, `escapes`, which says what a symbolic link leads out of the project, and `unreadable`, which
-- says what file cannot be read as text, are parameters; `strays` is `escapes` again during the loop
-- of the writer. Links by which two paths within the project are one file are left out.
-- Jsonrpc models codex/jsonrpc.py: the splitting of the output into lines (Framing) and the client's
-- table of requests (Client), whose steps are events: a call, a message, the last line of an output
-- that does not end with a newline, an expired wait, a failure.
-- Migrations models migrations/registry.py: version numbers as texts of ASCII digits (Versions) and
-- the registry (Registry). A migration is any function that returns a value or raises.
-- Remote models remote/models.py (Models), remote/scoring.py (Scoring), remote/discovery.py
-- (Discovery) and `extract_mcp_permissions` of remote/scan.py (Scan); `str.lower` and `str.casefold`
-- are parameters.
-- Recommendation models recommendation/readiness.py, Repository models/repository.py, and Doctor
-- models doctor/drift.py with compiler/invalidation.py. Conversation models conversation/prompts.py
-- with recommendation/questions.py (Prompts) and conversation/interview.py (Interview).
--
-- Numbers are the native natural numbers; a score that may be negative is an integer over them.
-- Python's integers are unbounded, so there is no overflow. A set or frozenset is a list, sorted
-- where the code sorts it. Most loops are recursions on the list that they run over. Three
-- definitions have fuel: `drain` of Jsonrpc/Framing, which takes the length of the buffer that every
-- round shortens; `show` of Migrations/Versions, which takes the number that every division lowers;
-- and `migrate_loop` of Migrations/Registry, which takes one more than the latest version, to which
-- every round comes nearer.
--
-- Not modelled: the command line, inspection, inventory, the checks of the doctor and persistence,
-- which read files and programs; of the remote sources, what reads the network or installs, and the
-- ranking over several sources, which computes with floating-point numbers; the collection of a
-- project's facts; the templates of generated files; the process and the clock of the JSON-RPC
-- client; the discovery of documents to migrate; the runner of the conversation; of the resolver,
-- the recommendations of gaps, which are arguments here. Validation of
-- models is modelled where a result depends on it. Times are left out, and outside Materialize so
-- are failing writes of files.
pub mod Approvals
pub mod Capability
pub mod Compiler
pub mod Conversation
pub mod Doctor
pub mod Initialization
pub mod Jsonrpc
pub mod Materialize
pub mod Migrations
pub mod Planning
pub mod Practices
pub mod Prelude
pub mod Recommendation
pub mod Remote
pub mod Repository
pub mod Resolver
pub mod Routing
pub mod Runner
