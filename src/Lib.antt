-- ===== src/Lib.antt =====
-- A verification library for the Quorum job orchestrator (a Go server that queues jobs, hands them
-- to workers, retries failures and recovers the jobs of dead workers).
--
-- Parts and files, with the sources from the repository's root:
--   Common and below: helpers (maps as association lists, outcomes with panic and missing fuel,
--     64-bit integers, slices, strings.TrimSpace);
--   Job: the record Job, Status, Result, NewJob and IsValidTransition (internal/job/job.go,
--     result.go). Job/Retry: ShouldRetry, Backoff, NextRetryTime (internal/retry/policy.go).
--     Job/Lease: the lease table (internal/job/lease.go);
--   Store: the interface JobStore as a record of operations, with the laws its clients rely on
--     (internal/store/store.go). Store/Memory: MemoryStore (internal/store/memory_store.go).
--     Store/Bolt: BoltStore over bbolt (internal/store/bolt_store.go), with the calls that it
--     makes in Store/Bbolt;
--   Heap: container/heap's loops over the methods of internal/queue/heap.go. Queue: JobQueue and
--     its two comparators (internal/queue/queue.go, priority.go, delay.go);
--   Broker: topics of workers and the choice of a worker (internal/broker/broker.go);
--   Dlq: the dead-letter queue (internal/dlq/dlq.go);
--   Scheduler: dispatch, and the rounds of the loops of internal/scheduler/scheduler.go
--     (Scheduler/Rounds: results, delays, dead workers; Scheduler/DelayLoop: delayLoop);
--   Consensus: the Raft state machine over the store (internal/consensus/fsm.go). Consensus/Raft:
--     proposals to the cluster (internal/consensus/raft.go);
--   WorkerManager: the registry of workers and the monitor of their heartbeats
--     (internal/workermanager/manager.go);
--   Executor: the circuit breaker and the token bucket (internal/executor/breaker.go,
--     token_bucket.go, ratelimited.go);
--   Engine: the API's calls on jobs and the restart (internal/engine/engine.go);
--   Events: the broadcaster of events to its subscribers (internal/events/broadcaster.go);
--   Runner: the execution of a job on a worker, and a worker's Submit (internal/runner/runner.go,
--     internal/worker/worker.go);
--   Cron: recurring jobs, their schedule and one tick (internal/cron/cron.go). Engine/Crons: the
--     engine's calls on them. Engine/Leadership: what a node does when it gains or loses
--     leadership;
--   Auth: tokens and roles (internal/auth/jwt.go). Middleware: the check of a request's token
--     (internal/middleware/auth.go);
--   Handlers: the HTTP handlers on jobs and recurring jobs (internal/handlers/jobs.go, cron.go,
--     cancel.go);
--   Rpc: the messages between control node and worker node (internal/rpc, cmd/worker/main.go);
--   Handlers/Cluster: the pages on the cluster (internal/handlers/cluster.go);
--   Server: which handler serves a request and behind which roles (cmd/server/server.go), with
--     Middleware/Wrapped, the outer handlers (internal/middleware/logging.go, tracing.go,
--     requestid.go);
--   Config, Node: the settings (internal/config/config.go), and how a worker node reads them and
--     is built (cmd/worker/main.go);
--   Runner/Loop: the loop of a local worker as a step relation (internal/worker/worker.go);
--   Engine/Start: New, Start and Stop (internal/engine/engine.go); Engine/Lifecycle: a job's way
--     through the parts. Consensus/Node: the Raft node;
--   Storage: the write-ahead log and the snapshot file (internal/storage/wal.go, snapshot.go).
--
-- How they interact: the scheduler keeps the queues, the leases, the dead-letter queue and the
-- channel of available workers, and reads and writes jobs through the store interface, which is a
-- parameter of its definitions; MemoryStore and BoltStore are two values of it. The queues hold
-- ids and compare the stored jobs. The state machine writes to any store that fulfils the
-- interface. The worker manager owns the channel that the scheduler takes workers from, and its
-- signal of a dead worker is what recoveryLoop receives. A method that holds a mutex is one step;
-- a loop's body is a function from the state before to the state after, and what other parts do
-- between two rounds is any change of the state.
--
-- Code from outside the repository that is written out: container/heap (up, down, Push, Pop) and
-- strings.TrimSpace, strings.Fields, strings.Split, strings.TrimPrefix, strings.EqualFold,
-- strconv.Atoi, strconv.Itoa, the verb %d of fmt and the lines of bufio.Scanner, from Go's
-- documented library. Times are nanoseconds as natural numbers, a time.Duration is an integer with
-- the wrap-around of 64 bits. The outcome of a worker's Submit and whether the context is done are
-- arguments, and so are what encoding/json, encoding/base64 and crypto/hmac make of bytes, what
-- package time makes of a time in its location, what a proposal to the Raft node does, and whether
-- the sink of a snapshot takes its bytes and closes.
--
-- Fuel: the sift loops of the heap run on the slice's length plus one, ProcessDelayedJobs on the
-- length of the delay queue plus one: each step of a sift moves to another level of the heap, and
-- each round of ProcessDelayedJobs takes an id off the delay queue. strconv.Itoa runs on the
-- number plus one: each step divides it by ten.
--
-- Not modelled: goroutines and timers themselves, logging, metrics and tracing, the HTTP server
-- with its choice of a pattern and its static pages, gRPC with its generated protobuf code, bbolt
-- itself, hashicorp/raft, the load generator, and the web pages.
mod Common
pub mod Job
pub mod Cron
pub mod Store
pub mod Heap
pub mod Queue
pub mod Broker
pub mod Dlq
pub mod Scheduler
pub mod Consensus
pub mod WorkerManager
pub mod Executor
pub mod Engine
pub mod Events
pub mod Runner
pub mod Storage
pub mod Auth
pub mod Middleware
pub mod Handlers
pub mod Rpc
pub mod Config
pub mod Node
pub mod Server
