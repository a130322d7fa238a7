-- ===== src/Lib.antt =====
-- Verification library of sassessment, the resumable assessment tool for SAS migrations.
--
-- A graph of steps (src/sassessment/graph/model.py) is driven by an engine (graph/engine.py)
-- that picks a READY step, calls its handler (nodes/base.py) or an agent, stores the outcome in
-- a database (state/repository.py) and routes along the edges whose predicates
-- (graph/predicates.py) hold. A step may wait for material that a human delivers; the operator's
-- commands (cli/main.py) answer such requests and release steps. Material is registered as a
-- batch or taken out of an archive (intake/), and the state is saved in checkpoints
-- (state/checkpoints.py). Logs of the legacy platform (legacy_logs/) are put together to
-- records, which are folded into stages and an outcome. config.py merges and checks the
-- configuration.
--
-- Modules. Common: shared names, lists, sorting by insertion, texts. Errors: the exception
-- classes as a data type, and results. Graph.Model, Graph.Predicates, Graph.Validate: the graph
-- definition, the predicate registry and built-in predicates, validation and reachability.
-- State.*: the tables as lists in insertion order in one record `Db`, with one function per
-- repository operation (State.Nodes, State.Records, State.Requests) and the engine's view of
-- them (State.Snapshot). Node: results, handlers, and the request for human input (Node.Ask).
-- State.Knowledge: findings, data objects and lineage; State.Batches: batches and artifacts;
-- State.Ledger: sessions, gaps, assumptions, risks and checkpoint rows. State.Checkpoints:
-- CheckpointManager over the files of the repository, with SHA-256, YAML and SQLite's backup as
-- fields of `Tools`; State.Migrations: the Migrator of state/database.py. Intake.Registration
-- and Intake.Staging: the files of those names, with what a directory or an archive holds as
-- fields of `Places` and `Archive` and what the file system answers as fields of `Site`. Config:
-- the documents of config.py, and load_config (Config.Load). Agent.*: the envelope that an agent
-- prints (opencode_adapter/envelope.py), the retry loop of the agent nodes, and the call of the
-- agent's command (Agent.Cli, of adapter.py). Engine.*: one module per method of GraphEngine
-- (Select: next_runnable; Execute: run_node; Route: _route_from; Loop: run; Recover:
-- recover_stale_running; Completion: assessment_completion). Graph.Load: graph_from_json and the
-- loader. Audit: the redactor of state/events.py. Ids: the slug of ids.py. Operator: the
-- commands `unblock` and `answer`. Legacy.*: lifecycle.py, status.py and assembler.py of
-- legacy_logs, with the regular expressions of the assembler as matchers (Legacy.Patterns).
-- Samples and Tests: a small graph, and the theorems at it.
--
-- State is passed explicitly: an operation takes a `Db` and returns its result with the new
-- `Db`; an exception is the `err` of a result, with the `Db` as it was left. Handlers, the
-- agent, the registration of a batch (register_answer is the one of the program) and the source
-- of identifiers are fields of `Env` and `Desk`; what a theorem relies on of them is a named
-- hypothesis (IsQuiet: handlers leave the node states alone; KeepsState: registration leaves
-- nodes and requests alone). The loop of `run` recurses on its argument max_steps, so no fuel is
-- chosen there; the search of reachable nodes runs on fuel, one more than the edges and enough
-- for every graph.
--
-- Not modelled: the texts of the files that are written, processes, printing, clocks and display
-- texts; the columns that only reports read; the parsers of log records, which stand on regular
-- expressions; the agent's process; spreadsheets and the demo.
pub mod Common
pub mod Errors
pub mod Graph
pub mod State
pub mod Node
pub mod Engine
pub mod Agent
pub mod Operator
pub mod Legacy
pub mod Intake
pub mod Config
pub mod Audit
pub mod Ids
pub mod Samples
pub mod Tests
