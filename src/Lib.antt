-- ===== src/Lib.antt =====
-- Synode runs tasks with teams of language-model agents. A run is a row of a database: operators start,
-- stop and steer it over HTTP, workers claim it from a queue and execute its agent graph, and the tools
-- of the agents ask for approvals. This library models the parts that keep these rows right, the loop
-- and the graph of the agents, the gateway to their tools, and the fabricator's runs.
--
-- The run life cycle (src/synode/infrastructure/persistence/repository.py and
-- src/synode/application/orchestration.py, with the rows of src/synode/infrastructure/persistence/models.py
-- and the enumerations of src/synode/domain/models.py):
--   Domain            the enumerations, and the tests on them that the code spells out
--   Store             Records: the rows, and the database as tables of rows. Table, Keys, Sweep:
--                     lookups and writes by primary key. Monad: one `async with database.session()`,
--                     which commits or raises and is rolled back, with the proof rules for what a
--                     transaction keeps. Committing: the rules for transactions that do commit.
--   Repository        Threads, Runs, Approvals, Requests, Recovery: the repository's methods, under
--                     their names (`create_run`, `set_run_status`, `claim_queued_run`, ...)
--   Service           Sessions: the transactions inside the service's methods; `execute_run` is
--                     `begin_execution`, `settle`, `record_interrupt`, `await_approval` and
--                     `record_failure`. Control: the methods by which operators and workers steer
--                     runs. Methods: how a method opens several transactions. History: transactions
--                     one after another, in any order.
--   Lifecycle         the theorems on them; Consistent is the invariant of a run row. Onward, Carried
--                     and Outlasts show what every history carries on
-- Agent graphs (the same repository, src/synode/domain/runtime/contracts.py and
-- src/synode/domain/runtime/capabilities.py):
--   Graph             Cycle: `_has_node_cycle`. Contracts: contracts, node kinds and backends.
--                     Config: `_normalize_graph_config` and what it calls. Rows: `create_agent_graph`,
--                     `update_agent_graph` and the change of the default. Reach, Ends, Acyclic,
--                     Bindings, Accepted, Defaults, Stored: the theorems
-- The run queue (src/synode/infrastructure/runtime/queue.py):
--   Queue             InMemory: the transport in memory. Kept: its invariant. Started:
--                     `start_run` over it
-- The native agent loop (src/synode/application/graph/engine.py, `_run_native_loop`, and
-- src/synode/application/graph/native_loop_policy.py):
--   Policy            Loop: phases, offered tools and the gate before a finish. Gate, Offered: the
--                     theorems
--   Native            Action: the loop's state and what it asks of its surroundings (the model, the
--                     tools, the operator, the store of traces). Loop: the loop itself. Once, Finished,
--                     Guarded: the theorems. Connected: the loop over the gateway of Tools
-- Tools (src/synode/infrastructure/tools/base.py, src/synode/domain/roles.py):
--   Tools             Roles: `RoleSpec.allows_tool`. Admission: what `ToolGateway.execute` asks before
--                     it runs a tool. Gateway: the whole of `execute`. Frames: what of the database its
--                     transactions touch. Admits, Approved, Guarded, Granted: the theorems
-- Agent graph (src/synode/application/graph/engine.py):
--   Engine            Order, Workers: `_topological_order` and `_topological_worker_order`. Routes: the
--                     nodes of the graph, the routes between them, and a run of it. Supervisor: the
--                     decision of the supervisor, its sanitizing and its validation. Sorted, Waits,
--                     Ordered, Costs, Complete, Closer, Reaches, Planning, Filtered, Sanitized: the
--                     theorems
-- Patches (src/synode/validation/patches.py, src/synode/domain/runtime/commands.py):
--   Patches           Commands: `is_safe_command`. Proposal: `validate_patch_proposal` and
--                     `patched_content_by_path`. Selected: `_select_verification_commands`
--                     of the graph's engine. Replaced, Validated, Applied: the theorems
-- Fabricator (src/synode/fabricator/lifecycle.py, fabricator.py and resource_guard.py there):
--   Fabricator        Lifecycle: statuses, guards and advice. Agents: the agents of a run and the guard
--                     on resources. Advised, Guarded, Bounded, Stranded: the theorems
-- Prelude holds what the modules share, Samples the rows that the examples use.
--
-- An id is a text and so is a JSON value; a time is a number, and the clock shows one time during
-- a transaction. What `new_id()` returns is an argument. The state that the graph returns is an
-- argument of `settle`, and the queue transport is a parameter of the service's methods, which Queue
-- instantiates by the one in memory. What the nodes of the agent graph find out is a parameter of
-- `run_graph`.
--
-- Fuel: the search for a cycle is cut at a depth of two more than the number of nodes, which is
-- enough since the nodes being visited are distinct. The native loop counts down the steps that the
-- source's `range(1, max_steps + 1)` counts up. The topological order has fuel for one round for each
-- role that is ready at the start and, for each role, one and the number of its targets, since a round
-- takes one role off the queue. A run of the graph has fuel for eight nodes and three for each repair
-- that the setting allows.
--
-- Not modelled: the cutting of payloads to a size limit, message metadata, artifacts, log lines and
-- traces, worker heartbeats, retention and the loop of the workers; what the nodes of the agent graph
-- do beside the routes, the supervisor's decision and the choice of verification commands (prompts,
-- the operator's answers, the catalog of those commands, reviews); the default configuration that
-- `ensure_default_configuration` puts together; a database that fails, and a task that is cancelled
-- while it awaits a session rather than a tool; the tools themselves, their
-- sandbox, workspaces and the sessions of the MCP proxy; the checks of Python code and the repair of
-- patches that do not match; the deadlines, files and responses of the fabricator; the evaluations,
-- which measure agents and are no part of the running system; the model providers, the HTTP routes
-- and the web client, which talk to other programs and pass calls on.
pub mod Prelude
pub mod Domain
pub mod Store
pub mod Repository
pub mod Service
pub mod Lifecycle
pub mod Queue
pub mod Graph
pub mod Policy
pub mod Tools
pub mod Native
pub mod Engine
pub mod Fabricator
pub mod Patches
pub mod Samples
