-- ===== src/Lib.antt =====
-- Universal-Agent, a runtime for agents: a session pursues a goal by a graph of tasks, a model
-- decides on actions, policies permit them, tools carry them out, and failures are recovered from
-- by rules. This library models the deterministic core between those parts; paths are from the
-- repository's root.
--
--   Prelude      Boolean tests and the interface `Eq` for the source's `==`, lists, Python's `dict`
--                with text keys, methods that change an object and may raise, texts and decimals
--   Core         src/universal_agent/core/models.py: enumerations, records, JSON values and
--                `Decision.validate`
--   Policy       src/universal_agent/policy/engine.py: `PolicyRule.evaluate`, `PolicyEngine.check`
--   Queue        src/universal_agent/distributed/queue_models.py and queue_memory.py: the work queue
--                that workers lease items from. Models has the items, Store `enqueue`, `get` and
--                `list`, Leasing `lease` and `expire`, Settling `heartbeat`, `complete`, `fail`,
--                `cancel` and `prune_terminal`; Life and Runs are the transition systems of an item
--                and of the queue
--   Scheduler    src/universal_agent/distributed/scheduler.py: `WorkScheduler`, over Queue
--   Recovery     src/universal_agent/recovery: `classify_failure`, `RecoveryManager.decide` and the
--                default rules
--   Tasks        src/universal_agent/tasks/manager.py and models.py: `TaskManager`
--   Runtime      src/universal_agent/runtime/transitions.py and the part of session.py that they
--                call: `pause`, `fail`, `cancel`, `finish`
--   Session      src/universal_agent/state/session.py and store.py: the stored snapshot, its copies,
--                `InMemorySessionStore` and its pagination
--   Events       src/universal_agent/state/event_store.py: `InMemoryEventStore`, the journal
--   Coordination src/universal_agent/coordination/locks.py: `ResourceLockRegistry` and
--                `ResourceVersionRegistry`
--   Tools        src/universal_agent/tools/runtime.py: `ToolRegistry` and `ToolRuntime.execute`
--   Capability   src/universal_agent/capability/registry.py: `CapabilityRegistry` and the choice of a
--                tool by `CapabilityResolver.resolve_registration`
--   Actions      src/universal_agent/runtime/actions.py: `ActionExecutor`. Identity has the keys of an
--                action, Resources the helpers around locks, versions, sandbox and events, Invoke the
--                call of a tool and `_reconcile_required`, Run the parts of `execute` under the lock, Execute
--                `execute` and Prepare `prepare`, cut at every early return
--   Agent        src/universal_agent/runtime/agent.py: `AgentRuntime`. Choice has the checks of a
--                decision (capabilities.py, controls.py, decision.py), Settle the commits and
--                `_settle`, Process the processing of observations (processing.py), Recover
--                `_observe` with recovery_planning.py, Drive `_drive`, Loop `_loop`, Control
--                `resume`, `pause` and `cancel`
--
-- An object is a record and a method a function from its arguments and the object to a result and
-- the object behind the call (`Method`), so that what was written before an exception stays
-- written. An exception is a value with its message. A `dict` is a list of entries in the order of
-- insertion. A running session and its task graph share the task objects: there the state holds a
-- task by its id in the graph's table (`AgentState String`), while a stored snapshot holds the
-- values (`AgentState Task`).
--
-- Numbers: counts are unbounded, as in Python; a priority and a recovery's limit on attempts may be
-- negative and are integers, while a work item's limit, refused below 1, is a count. A `datetime` and a duration are counts of microseconds, the clock is an
-- argument of every method that reads it, and so is a generated id. A float stands as its shortest
-- decimal text where no arithmetic is done on it.
--
-- What a running agent reads and writes is one `Machine`: the session, the lock and version
-- registries, the idempotency keys, the events (type and action only) and the calls of tools. The
-- store, the event sink, the model, the tools, the plugins of the domains, the clock and the requests
-- of other tasks are functions of the machine, and since every event is in it they may answer
-- differently each time. Each of them may raise where the source lets it; a cancellation is such an
-- exception. Between two steps no other task of the process writes to the machine.
--
-- Bounds: all loops run over a list and end with it, except these. `is_acyclic_from` removes the nodes
-- of a graph in rounds, as many as there are nodes, which is enough since a round that removes none is
-- the last that changes anything. `drive_steps` counts the recovery steps and `decide_with_retries` the
-- retries that are left, as the source's ranges do. `loop` has fuel; one more than the limit of
-- iterations is enough, since every turn raises the count of iterations by one.
--
-- Not modelled: the start of a session and its hydration from a snapshot, `continue_session`, the
-- interruption of a running task, evaluation, evidence, memory, the world model, multi-agent
-- coordination, and everything that is input or output: the tools themselves, model clients, SQL,
-- file and Redis stores, HTTP, command line and user interfaces.
mod Prelude
pub mod Core
pub mod Policy
pub mod Queue
pub mod Recovery
pub mod Tools
pub mod Capability
pub mod Actions
pub mod Agent
pub mod Tasks
pub mod Coordination
pub mod Scheduler
pub mod Events
pub mod Session
pub mod Runtime
