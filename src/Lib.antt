-- ===== src/Lib.antt =====
-- Verification library of agentq, a durable workflow engine over an in-process job queue.
--
-- The program. `src/queue.rs` has three lanes, each with a bounded channel, a worker loop
-- (`src/worker.rs`) and a semaphore; a state map and a map of waiters (`src/state.rs`) answer a
-- push of a known key from the cache or with a handle of the job in flight. `src/engine.rs` drives
-- the steps of a workflow: it claims a step in a store, appends an event for each thing that
-- happens, pushes the step's body to the queue under the key of the attempt, renews the lease while
-- it waits, and retries by the step's policy. `src/store/sqlite.rs` is the store: a log of events,
-- and a table of steps that each append and each claim updates in its transaction.
-- `src/recovery.rs` re-admits the steps whose lease expired.
--
-- The files.
--   Prelude, Text: helpers; a text is a list of character codes, with `split`, `join`, `replace` and
--     the decimal prints and parses of Rust's unsigned integers.
--   Event, Workflow, Store, Job: the data types of `src/event.rs`, `src/workflow.rs`,
--     `src/store.rs`, `src/job.rs`, `src/handle.rs`, `src/error.rs`, and the interface
--     `DurableStore`, a record of methods that return the store after the call. Store.Spec is what
--     the engine relies on of a store, as laws on a view of it: the log of each workflow, and the
--     steps that a worker may claim.
--   Tokio: the channels, semaphores and one-shot channels of tokio, which is not in the repository,
--     as a record of operations with their documented laws; Tokio.Lists is an instance.
--   Queue: the queue as one state. Queue.Steps has one function for each part of `Queue::push`, of
--     `ClaimGuard::drop`, of the worker loop and of `JobGuard::drop` that the code runs under its
--     locks without waiting; Queue.Run lets them interleave in any order; Invariant, Attended,
--     Still, Completed, Fresh, Permits, Stale, Listed and Handles are about those runs; Wait has
--     `push_and_wait`, `JobHandle` and `Queue::state`.
--   Sqlite: Codec (`encode_event`, `decode_event`), Time, Table (the tables and what each SQL
--     statement does to them), Connection (the lock, transactions, and the errors of rusqlite, which
--     an argument lists), Log (`append_event`, its projection, `load_events`), Lease (`claim_step`,
--     `renew_lease`, `expired_leases`), Open (`SqliteStore::new`), Projection (what the table of
--     steps says against the replay of the log), Spec (the store against Store.Spec).
--   Mem: the in-memory stores of the tests of `src/recovery.rs` and (EventsOnly) `src/engine.rs`.
--   Engine: Replay (what is read off a log), Backoff, Reasons (the marker errors), Key (job keys),
--     State (the engine's data and its programs), Step (`run_step`), Drive (`run`, `resume`,
--     `cancel`, `drive_from`, `recover` and the others), Ensures and Gives (pre- and
--     postconditions); and, by their subject, Mounted (the indices into steps and bodies), Jobs (the
--     pushed jobs), Returns (termination), and Cancel, Closing, Failure, Input and Recover (the log
--     on the SQLite store). Trace tells without a store, a lease or another task what a run amounts
--     to: the events, the jobs, the reply, and what is left; its children relate the methods to it
--     on any store that keeps Store.Spec (Stands: where a run stands; Follows: how methods that do
--     what a trace tells are put together; Wait, Attempt, Step, After, Drive, Run, Rest, Readmit and
--     Resume: the methods, inner ones first; Succeeds, Success and Recovered: the runs whose steps
--     succeed; Forget and Alike: the same run on two stores; Keys, Distinct and Claimed: the keys of
--     the pushed jobs, and what the queue answers).
--   The modules whose names end in Tests hold tests, and each theorem at a concrete input.
--
-- Bounds and recursion. Numbers are natural numbers; `attempt + 1` of `run_step` wraps at 2^32, a
-- `Duration` is at most `Duration::MAX`, and an `i64` column holds its bit pattern. Only the
-- decimal print runs on fuel, one round for each digit; its fuel for `n` is `n + 1`, which is more
-- than the digits of `n`. The loop of `run_step` recurses on the turns of the world, one for each
-- attempt, which say how the queue answers and what the other tasks do at each await; a world
-- without a turn leaves the method waiting. `drive_from` recurses on the rounds of its loop.
--
-- Interleavings. The queue's steps interleave at every lock. What `JobGuard::drop` does behind its
-- second lock, the sends to the waiters that it has taken, and the drop of the permit that follows,
-- are one step with the taking: no other step of the queue has these senders, and a permit that is
-- free later only delays its worker. The engine's methods are interleaved with the other tasks at
-- their awaits, as on a current-thread runtime. The queue is seen by the engine through its answers,
-- which are arbitrary.
--
-- Not modelled: the texts of rusqlite's errors, and the `Debug` print of a timeout, which are
-- arguments; tracing; the tests themselves.
pub mod Prelude
pub mod Text
pub mod Event
pub mod Workflow
pub mod Store
pub mod Job
pub mod Tokio
pub mod Queue
pub mod Sqlite
pub mod Mem
pub mod Engine
