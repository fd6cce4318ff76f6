-- ===== src/Lib.antt =====
-- A model of the distributed task scheduler (the Go packages under internal/ and the two commands
-- under cmd/).
--
-- Types models internal/types/types.go: tasks, their priorities and statuses (Go integers, so
-- values outside the named constants exist), and the information that nodes report. An instant is
-- a natural number of nanoseconds, a duration is a signed integer.
--
-- Heap models the algorithms of Go's container/heap over a type that implements heap.Interface;
-- its contract is the record Behaves in Heap/Order. Queue models internal/queue/priority_queue.go,
-- an implementation of that interface: pointers to a TaskItem are addresses into a store of cells,
-- so that the slice, the map from ids and the index inside an item share what the program shares.
-- The read-write mutex is part of the state: a call that asks for the read lock while its own
-- goroutine holds the write lock never returns, which is the outcome `hangs`. The loops of
-- container/heap run on fuel, one more than the index for `up` and than the number of elements for
-- `down`; the outcome `out_of_fuel` is proved not to arise. For each method that writes, the code
-- between Lock and Unlock is a definition of its own (`add_locked` and so on), and the method is
-- that code between the two calls. Queue/Bag is the specification, a bag of tasks as a quotient of
-- the lists by permutation with the calls that it allows; Queue/Refine runs the code of the
-- methods against it, and Queue/Sorting compares what goes in with the order in which it comes
-- out.
--
-- The loops of the form `for { select { case <-ctx.Done(): ...; case <-ticker.C: ... } }` run over
-- the list of what the select takes (Prelude/Ticks): ticks at instants, and the end of the
-- context. They stop with the list, so no fuel is needed.
--
-- Coordinator models internal/cluster/distributed_coordinator.go: each method is one step, since
-- it holds the lock throughout; time is an argument; the order in which a map is visited is the
-- order of an association list, and the theorems hold for every order. What only writes to the log
-- is modelled by the list of ids that it reports.
--
-- Storage models internal/storage: the interface Storage is a record of calls, each of which
-- returns a value or an error and a new state. Storage/Redis models RedisStorage (storage.go) over
-- the interface RedisClient (redis_client.go); the client and the JSON encoding are parameters,
-- and Storage/Redis/Server says what a server that answers does for each command.
-- Storage/Redis/Client models RedisClientImpl over the client of go-redis, which is a parameter,
-- and Storage/Redis/Commands says what go-redis makes of each command at such a server.
-- Storage/Redis/Model says what it promises for tasks, a map from ids to tasks and a list of the
-- pending ones; Storage/Redis/View is what a server's keys show of that, and Storage/Redis/Refine
-- compares the two. Storage/Postgres models PostgresStorage (postgres_storage.go): each SQL text
-- is a constructor of Statement, TaskQuery or NodeQuery, and the database and the conversions of
-- Scan are parameters; Storage/Postgres/Contract says what a database that answers does for each
-- statement (VARCHAR refuses what is too long, JSONB refuses what is no JSON and may write it
-- anew, TIMESTAMP rounds) and what Scan makes of each column. Storage/Hybrid models HybridStorage
-- (hybrid_storage.go) over any two storages, the state being the pair of theirs.
--
-- Worker models internal/worker/worker_pool.go: the sections under the lock of the metrics are
-- definitions of their own, processTask is their sequence for one worker, and Worker/Counters lets
-- any number of workers interleave them. The int64 counters wrap at 2 ^ 64, as bit patterns. The
-- processor, the storage and the queue are interfaces in the code and parameters in the model.
-- Worker/Rounds has the loop of a worker, over its rounds, and Worker/Process what it does with
-- one task. Scheduler/Crew has the goroutines of a pool at the one queue, which take their turns
-- in any order, and Stop of the pool, which returns if all of them have returned within the turns
-- that are given; a worker that waits for ever in a call keeps the lock that it holds.
-- Scheduler/Shutdown and Scheduler/Stopping are about when Stop returns.
--
-- Scheduler models internal/scheduler/scheduler.go: Scheduler has the state and the ways to submit
-- a task, Scheduler/Queries the queries, and Scheduler/Duties what the background goroutines do at
-- each tick. Scheduler/Loops has Start and the loops of the goroutines, and Scheduler/Lifecycle
-- every order of the calls and of the ticks. The storage is any Storage. The queue is the one of
-- Queue, mutex and pointers included, so that a call of it that never returns makes its caller
-- never return; Scheduler/Stalls and Scheduler/Returns are about that. The utilization of the
-- queue, a float64 in the code, is compared as a fraction of natural numbers.
--
-- Api models internal/api/api.go: a handler is a function from what gin makes of the request's
-- body, and from the state of the scheduler and the counters, to a response and a new state;
-- Api/Serve has the routes. Api/Tasks is about a task that is changed and read, Api/Posts about
-- one that is submitted, and Api/Progress about any sequence of requests. Binding JSON, with the
-- `binding` tags, is gin's part and a parameter. A handler that panics has the outcome `panics`;
-- gin answers in its place.
--
-- Grpc models internal/grpc/server.go: the conversions between the types of the program and the
-- messages of proto/scheduler.proto, and the handlers, over the scheduler (Grpc/Cluster has those
-- that tell of the cluster, the statistics and the node).
--
-- Cli models cmd/cli/main.go: each command from the answer of the server to the lines that are
-- printed (Cli/Print) or the message with which the command ends. The verbs of fmt and the names
-- of the enums are parameters.
--
-- Election models the loop of internal/cluster/leader_election.go that reports changes of the
-- leader, and the state machine that is handed to the raft library. Election/Fsm has that state
-- machine: maps lie at addresses in a store, so that a snapshot shares the map of the state
-- machine, and JSON and the sink are parameters; Election/Replay is about restoring one.
-- Election/Raft has Start, Stop and the queries over the raft library, which is a parameter, and
-- Election/Setup what Start does when peers are given.
--
-- Node puts the scheduler, its election and the goroutines of its pool together: Start and Stop of
-- internal/scheduler/scheduler.go as a whole. Node/Lifecycle has every order of Start, Stop, the
-- calls, the ticks and the turns of the workers, and Node/Ending what is left after Stop. The
-- contexts that Stop cancels are flags.
--
-- Main models cmd/scheduler/main.go: from the flags, the ping and the choice of the storage to the
-- signal and the shutdown. The command ends by log.Fatalf, by its return, or not at all. What the
-- servers and the signal do is a list of events, all that happen before the process ends, so that
-- an error of a server ends the command also if it comes after the signal; what the node has
-- become by the signal is a function of the node that was started, and what the handlers in flight
-- and the workers do during the shutdown are arguments. Main/Events tells such lists apart.
--
-- Not modelled: the listening sockets, the reading of the flags and the Prometheus registry, which
-- are libraries; contexts other than as flags, which the calls of the libraries alone look at
-- while they run; and the log.
pub mod Prelude
pub mod Types
pub mod Heap
pub mod Queue
pub mod Coordinator
pub mod Storage
pub mod Worker
pub mod Scheduler
pub mod Api
pub mod Grpc
pub mod Cli
pub mod Election
pub mod Node
pub mod Main
