-- ===== src/Lib.antt =====
-- Verification library of fleetd, a coordinator of agents: a durable inbox per agent, and managed
-- invocations that fence what a worker does with a delivery.
--
-- The program's parts. The kernel (crates/kernel) stores messages and deliveries: a message that is
-- appended to a channel, shared or of one pair of agents, is snapshotted into one delivery per recipient, and a worker claims
-- deliveries under a lease and settles each one under its lease token. The execution crate
-- (crates/execution) adds a durable invocation to a leased delivery: it is reserved with the lease,
-- armed before anything is dispatched, and completed, settled or reconciled with the delivery in
-- one transaction. A bound session (crates/execution/src/session_binding.rs) is a lane of native
-- sessions of an agent: a controller acquires it under an owner epoch, opens it, arms one turn at a
-- time on it together with the turn's invocation, and completes or abandons both together. What
-- the plugin process of a turn does is observed (crates/execution/src/operations.rs): a generation
-- of the process, and per invocation a digest chain over its events. An operator decides on
-- deliveries that were parked because their outcome is unknown.
--
-- Which file models which part:
--   Base, Base/*      Boolean tests on numbers and texts, lists.
--   Table, Table/Laws SQL statements on a table held as the list of its rows.
--   Error             crates/kernel/src/error.rs.
--   Model, Model/Names
--                     crates/proto/src/model.rs and session.rs: states, their stored names, inputs.
--   Db, Db/Tx, Db/Statements
--                     crates/kernel/migrations and crates/kernel/src/store/mod.rs: the tables, and
--                     transactions (`begin_immediate` … `commit`) over them.
--   Db/Keeps, Db/Demands
--                     how a transaction keeps a relation between the database before and after, and
--                     what it demands of the database before, part by part.
--   Kernel/Delivery, with Validate, Claim and Block
--                     crates/kernel/src/delivery.rs: `mark_acknowledged`, `mark_retry`,
--                     `mark_blocked`, `block_expired_lease`, `lease_claimable`, `leased_batch`,
--                     `settle_miss`, `insert_block_record`, `resolve_delivery_block_transaction`.
--                     Bounds, Settling, Spent, Oldest and Deciding hold the lemmas about them.
--   Kernel/Message    crates/kernel/src/store/message.rs: `append_message_in_transaction`,
--                     `insert_message`, `insert_delivery_snapshot`; Append and Keep hold the
--                     lemmas about them.
--   Kernel/Channel, Kernel/Channel/Direct, Kernel/Membership
--                     crates/kernel/src/store/channel.rs, agent.rs and membership.rs; Opening,
--                     Closing and Cursor hold the lemmas about them.
--   Execution/Session, with Turn, Rows, Acquire, Open, Dispatch, Retire and Listing
--                     crates/execution/src/session_binding.rs, function by function. Stores is the
--                     interface between a relation that every statement keeps and the operations
--                     that are made of them; Apart says which operations leave the sessions alone;
--                     Lifecycle, Bound, Owner and Granted hold what is proved.
--   Execution/Observation, with Events, Generations, Pages and Seats
--                     crates/execution/src/operations.rs. Log, Summary, Repeat and Stop hold the
--                     lemmas about recording and stopping.
--   Execution/Steps   every interleaving of the operations.
--   Execution/Invocation, with Arm, Complete, Recover and Reserve
--                     crates/execution/src/invocation.rs, function by function.
--   Execution/Settlement
--                     crates/execution/src/settlement.rs.
--   Execution/Fence and below
--                     the invocation fence, what each operation does to it (Fence/Sessions for those of a
--                     session), and what holds after every sequence of them (Fence/Steps);
--                     Fence/Arm and Fence/Complete also say what arming and completing leave. Execution/Answers and Execution/Replay are
--                     about what a settlement answers, the first time and again.
--   Example and below concrete databases and runs.
--
-- How state corresponds to the code. `Db` has one list of records per table, in rowid order; an
-- UPDATE is `update`, with `count` for `rows_affected`; `fetch_optional` is `find`, `fetch_all` is
-- `select`, ORDER BY is `order_by`. A transaction is a function from the database to its value and
-- the next database, or an error; `run` commits the first and rolls back the second. SQLite's
-- BEGIN IMMEDIATE lets one writer in at a time, so an interleaving of the daemon's requests is a
-- sequence of whole transactions. A reconciliation of all agents lists the agents before its
-- transaction begins, so the list is read from a database of its own, of any earlier time. A violated UNIQUE or PRIMARY KEY constraint is the error
-- `database`. A rollback inside a settlement, before the replay is read, restores the database.
--
-- Conventions and bounds. Times, attempts and row ids are natural numbers: in the code they are
-- `i64` that are not negative, and a block id below 1 is refused like 0. Where the code converts or
-- adds with a check (`try_from`, `checked_add`) the model compares with the largest `i64`;
-- `saturating_add` is cut at the largest `u64`. Row counters and attempts are not bounded, as
-- SQLite's 2^63 rows are out of reach. A payload is its stored JSON text. A state column is the
-- state itself, since the table's CHECK admits the stored names only. `messages.id` is UNIQUE and
-- `seq` its primary key, so a join on a message's id reads the first row of that id. The values of
-- `Uuid::new_v4` and the clock are arguments of the operations that draw them; a reservation draws
-- its lease token first and then two identifiers for each row. No definition needs fuel: loops go
-- over lists.
--
-- SHA-256 and the big-endian bytes of an integer are a parameter, `Hasher`, of which nothing is
-- assumed. A JSON value is its serialized text, a list of directories the list that its JSON
-- encodes. `u64` generations and epochs are bounded by the largest `i64` where the code converts
-- them, and by the largest `u64` where it adds. A negative clock is no number here.
--
-- Not modelled: read-only lists and projections of the kernel, the query that
-- joins an agent's seat and the trace of an invocation, the timer of the expired-invocation reaper,
-- the hint that a message was committed, triggers, worker and plugin processes, HTTP,
-- MCP, ACP, telemetry, the command line and the TypeScript clients; they are input and output, or
-- build on the operations modelled here.
pub mod Base
pub mod Table
pub mod Error
pub mod Model
pub mod Db
pub mod Kernel
pub mod Execution
pub mod Example
