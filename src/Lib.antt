-- ===== src/Lib.antt =====
-- A model of the core of valyria, a coding agent that runs on one machine. Paths are from the
-- repository's root.
--
-- The parts and how they interact. A task (crates/valyria-task) is in one state of the agent's state
-- machine (crates/valyria-types). The task manager alone changes that state: it writes the task's
-- row, then an entry of the journal, and projects each entry onto the event log. A tool runs only
-- with an authorization from the permission engine (crates/valyria-permissions), which asks its
-- grants first and its default table second, and logs each decision. The model's plan is accepted
-- only after its validation (crates/valyria-plan), which computes the waves that the schedule turns
-- into an order and into groups that may run together. The loop detector and the repair ledger
-- (crates/valyria-agent) stop the agent from going round in circles. What a tool changes goes through
-- an edit transaction (crates/valyria-edit), is recorded in the change ledger (crates/valyria-ledger)
-- and can be rolled back from there; the output of a process is capped (crates/valyria-process). The
-- prompt is divided by a token budget (crates/valyria-context), the models are kept in a pool of
-- bounded memory (crates/valyria-orchestrator), and clients follow the work on the event bus
-- (crates/valyria-events).
--
-- Which file models which part.
--   Common: Boolean tests, an equality interface, list and map helpers.
--   State: crates/valyria-types/src/state.rs: `is_terminal`, `domain_edges`, `can_transition_to`,
--     `Display`. State.Graph: walks along its edges.
--   Permissions.Request, Rules, Grants, Authorization, Engine: the files of
--     crates/valyria-permissions/src of these names, with the enums of
--     crates/valyria-types/src/policy.rs. The engine is a record, and each method returns the engine
--     it leaves; the clock's reading is an argument. Rules.Table, Engine.Decisions, Engine.Reuse and
--     Engine.Audit hold the proofs.
--   Task.Types, Kinds, Codec, World, Rows, Append, Journal, Manager, Startup:
--     crates/valyria-task/src
--     (types.rs, codec.rs, error.rs, migrations.rs, manager.rs) with the event kinds of
--     crates/valyria-events/src/kind.rs. `World` is the two tables, the event log and the readings of
--     the clock and the id generator that were drawn; a method is an action of type `Exec`, which
--     keeps what it wrote when it fails, with `?` as `>>=`. `set_state` has the columns of the
--     `UPDATE` of `transition`, `transition_refusal` its tests; `projections` is the match of
--     `project_events`. Journal.ToolCalls and Manager.* hold the proofs; Manager.Calls runs sequences
--     of calls, and Startup is `recover_incomplete_tasks`.
--   Plan.Model, Waves, FindCycle, Validate, Schedule, Repair: crates/valyria-plan/src (model.rs,
--     validate.rs, schedule.rs, repair.rs); the modules below them hold the proofs.
--   Agent.LoopDetect and Agent.Repair: loop_detect.rs and repair.rs of crates/valyria-agent/src.
--   Edit.Strategy and Edit.Transaction: strategy.rs and transaction.rs of crates/valyria-edit/src.
--     `planned` is the part of `apply` that checks, `commit` the part that writes. Edit.Strategy.Exact,
--     Transaction.Atomic and Transaction.Undo hold the proofs; the last ties edits to the ledger.
--   Ledger: crates/valyria-ledger/src/ledger.rs and types.rs, with `put` and `get` of
--     crates/valyria-store/src/blob.rs. `append_entry` is the end that `push_entry` and
--     `push_rehydrated_entry` share; `roll_back`, `restore` and `reverted` are the parts of
--     `rollback_entry`. Ledger.Runs are sequences of operations, and changes by others.
--   Events.Bus: crates/valyria-events/src/bus.rs; `persist` and `send` are the two halves of `append`.
--     `live` lists every message that was sent; what a receiver of the broadcast library returns for
--     them, which depends on the capacity of the channel, is an argument.
--   Process.OutputCap: crates/valyria-process/src/output_cap.rs.
--   Context.Budget: crates/valyria-context/src/budget.rs.
--   Orchestrator.Role and Orchestrator.Pool: crates/valyria-model-registry/src/role.rs and
--     crates/valyria-orchestrator/src/pool.rs; `room_for` is the loop of `admit`.
--   Orchestrator.Structured and Orchestrator.Router: structured.rs and router.rs of
--     crates/valyria-orchestrator/src, with the types of crates/valyria-model/src and the bindings of
--     crates/valyria-model-registry/src/select.rs. The servers are an argument that passes on what
--     they remember; `walk` is the loop over a chain that `generate` and `generate_action` share, and
--     `ladder` the loop of `resolve_action`. Orchestrator.Json: `first_json_value`, on bytes.
--   Examples: concrete inputs.
--
-- Representation. Ids, hashes, times and counters are natural numbers; the counts of the two
-- repair ledgers have 32 bits and wrap, and other counters of 32 bits are taken not to reach
-- their bound. Texts are texts. A `HashMap` or `BTreeMap` is an association list, a set a list of
-- which membership is read. JSON values are a parameter with the calls that the manager makes;
-- the path calls of the validation are fields of its context. Of an edit, the hash, the
-- resolution of a path, the parsers and the patch library are parameters; the theorems on
-- rollback take the hash as injective. A text that is edited is the list of its characters, taken
-- to be ASCII where its length in bytes counts, and a share that the source computes as a float
-- is a whole percent. The greatest `usize` is that of 64 bits; the counters of bytes are taken
-- not to overflow.
--
-- Fuel. `place_all` places at least one step in a round, so it gets one round for each step;
-- `dfs_cycle` colours a white step grey at each level, so it gets one level more than there are
-- steps; `trim` and `forward` get one round for each byte. `make_room` evicts one resident in a
-- round, and gets one round more than there are residents; `recv_all` returns one event in a round,
-- and its theorems ask for more rounds than there are events; `ladder` gets one round more than
-- there are retries; `digits` gets one round more than its number.
--
-- Not modelled. Failures of SQLite, JSON and the event bus, and the locks, since each method is one
-- step; the rendering of messages, hints and feedback; of the task manager the lists of tasks and the
-- signals to a whole tree of tasks; the classification of commands; the driver of the agent; and the
-- other crates, which are input and output or wiring, or are models of their own: configuration,
-- search, memory, sandbox, tools, verification runs. Of the crates with a part that is modelled: the
-- assembly of the prompt, the edits of a syntax tree, the runs of processes, the parsing of JSON and
-- of the wrappers around it, and the decoding of stored rows and of UTF-8.
pub mod Agent
pub mod Common
pub mod Context
pub mod Edit
pub mod Events
pub mod Examples
pub mod Ledger
pub mod Orchestrator
pub mod Permissions
pub mod Plan
pub mod Process
pub mod State
pub mod Task
