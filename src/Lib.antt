-- ===== src/Lib.antt =====
-- A verification library for acton-reactive, an actor framework in Rust: the supervision of child
-- actors, and of its inter-process communication the subscriptions and the wire protocol.
--
-- A supervisor keeps a registry of its children. A child is registered when it runs already, or
-- with a blueprint (a spawner) from which the supervisor starts it and can start it again. When a
-- child ends, the engine asks the planner for an answer: the restart policy of the child, the
-- strategy of the supervisor and the child's restart limiter decide between doing nothing,
-- forgetting the child, giving up on it, and a plan that restarts it alone, all children, or those
-- after it. A plan is carried out by messages that the supervisor sends itself: stops that land,
-- timers that fall due, and starts that report back. Between them, any other message may come.
-- Actors ask the broker for types of messages; it sends a broadcast to those that are subscribed to
-- its type, and passes it to IPC under the name that the type has in the type registry.
-- Separately, the IPC layer exchanges frames with a version, a message type, a format and a payload.
-- Its connections subscribe to names and to patterns of names; what the broker publishes is forwarded
-- to the connections that are subscribed to its name, for some of which a security policy is asked
-- first. Routes are cached, and every change of a subscription clears the cache.
--
-- Files, and the code that they are about (all under acton-reactive/src):
--   Policy          actor/restart_policy.rs and actor/supervision/strategy.rs
--   Limiter         actor/restart_limiter.rs (`RestartLimiter`); Limiter/Window is about the sliding
--                   window over a run of requests, Limiter/Backoff about the delay
--   Plan            actor/supervision/plan.rs (`plan_restart`, `evaluate`); Plan/Order is about
--                   what a plan holds and in which order, Plan/Verdict about the answers
--   Status          actor/supervision/status.rs and error.rs; Status/Waiting is about the watchers that
--                   wait (`SupervisedChild`)
--   SlotState, Slot, Registry   actor/supervision/registry.rs: `SlotState`, `ChildSlot` and
--                   `SupervisionRegistry`; Registry/Starts has the operations that start a child,
--                   Registry/Ends those that end one; Registry/Invariant has the invariant, Slots and
--                   Kept what the change of one slot does to it, Preserved, Failed, Released and
--                   Settled the lemmas on each operation; Told is about what slots publish,
--                   Published about what then stands in the channel, Reuse about names that are taken again
--   Engine          actor/supervision/engine.rs, escalation.rs, message/signal.rs and
--                   message/supervision_registration.rs: the state of a supervisor, its messages
--                   and its effects; Engine/Group plans and answers, Engine/Handlers has a function
--                   for each handler, with `shutdown_cleanup` of actor/managed_actor/started.rs up
--                   to the end of supervision; Engine/System is the step relation; Planned, Views
--                   and Invariant hold the lemmas; Launch and Stale are about starts and about
--                   messages that come late
--   Subscriptions   common/ipc/subscription_manager.rs, with the connection context of
--                   common/ipc/security.rs: the state; Subscriptions/Patterns has the selectors,
--                   Connections and Changes the operations, Delivery the forwarding in its two
--                   parts, Queries what is only read; System is the step relation. Index and
--                   Choosing are about one index and one connection's keys, Side about an index and
--                   all connections, Routes, Cache, Stamps, Steady and Clears about the cache, Invariant
--                   and Kept about what every operation keeps, Sent and Forwarding about who gets a
--                   notification, Incarnations and Revocation about connections that come back,
--                   Accepted about which batches of selectors are valid, Sorting about the order
--                   of a reply, Effects, Unsubscribing, Batches, Withdrawals and Selectors about
--                   single operations
--   TypeRegistry    common/ipc/registry.rs
--   Broker          common/broker.rs, its messages in message/subscribe_broker.rs,
--                   message/unsubscribe_broker.rs and message/broker_request.rs, and the requests of
--                   traits/subscribable.rs; Broker/Members is about the sets of subscribers, Broadcasts
--                   about whom a broadcast reaches, Forwarded about a broadcast that also goes to IPC
--   RateLimiter     common/ipc/rate_limiter.rs, its settings in common/ipc/config.rs, and the check in
--                   common/ipc/listener.rs that uses it; RateLimiter/Bursts is about how many requests
--                   pass at once, Stalled about a rate of zero
--   Protocol        common/ipc/protocol.rs; Protocol/Frames reads and writes, Version is about
--                   negotiation, RoundTrip, Limits and Broken about frames
--   World           what is taken from outside: see below
--   Shared          helpers: tests on numbers, lists by index, results, tables
--   Examples        a concrete world, tests, and the theorems at concrete inputs
--
-- How state and effects are written: a method that changes its receiver is a function to the new
-- receiver beside its result, with the fields and the order of the source. A handler of the engine
-- returns the new supervisor and the list of its effects (`Effect`: tasks spawned, children
-- stopped, reports sent), in the order of the source. What a task or the outside tells later comes
-- back as a message, so that `Engine.System.Step` may take it at any time, or never.
--
-- Parameters (World): names of actors (`Ern`, of the crate acton_ern), actor handles, spawners,
-- tokio's watch channel, and f64 with the operations that the limiter uses; the receiving end of
-- the channel is a parameter of Status/Waiting. What a theorem needs of f64 is `F64Laws`, what it
-- needs of the channel is `WatchLaws` and `Accepts`; Examples has an instance of each.
-- Readings of the clock are arguments, one for each call of `Instant::now`. Of the subscriptions, the
-- queues, admitted identities, policies and type identifiers are parameters (Outside); what a queue or
-- a policy answers is an argument. The identity of an `Arc` or of a cancellation token is a number,
-- and which tokens are cancelled is part of the state. Messages, JSON values and serde's functions for
-- a type are parameters too (Serde of TypeRegistry, and what a type comes with when it is registered);
-- so is the f64 arithmetic of the rate limiter, with FloatsLaws.
--
-- Numbers and bounds: instants and durations are numbers of nanoseconds. A generation and a counter
-- of restarts wrap at 2 ^ 64. A byte is a number below 256, and the length of a payload is tested
-- against 2 ^ 32 where the source converts it to u32. A hash map is an association list. The
-- loop of `launch_pending_starts` runs on fuel, one more than the queue is long; each turn takes an
-- entry off the queue, so the fuel never runs out before the queue does. A hash set is a list without
-- repetition; the entry that leaves a full cache of routes, which the source leaves open, is the first.
-- Each part of a subscription manager that runs under its lock is one step; the two parts of a
-- forwarding are separate steps. The counters of subscriptions and notifications wrap at 2 ^ 64.
--
-- Not modelled: the bodies of spawned tasks, which await a spawner; the message loop and the
-- handlers of actors; the start of the broker and its flush, the runtime, handles, replies and
-- timers; IPC beyond the protocol and the parts above (listener, client, security); serialization,
-- which is serde's and rmp-serde's; errors of writing; the texts of errors and of logs; the macros,
-- the test harness, the command line tool and the documentation site.
pub mod Shared
pub mod World
pub mod Policy
pub mod Limiter
pub mod Plan
pub mod Status
pub mod SlotState
pub mod Slot
pub mod Registry
pub mod Engine
pub mod Subscriptions
pub mod TypeRegistry
pub mod Broker
pub mod RateLimiter
pub mod Protocol
mod Examples
