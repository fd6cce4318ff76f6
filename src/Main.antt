-- ===== src/Main.antt =====
-- cmd/scheduler/main.go: the command that runs a node. What the libraries give is a parameter; what the
-- goroutines do until the signal, and what the handlers in flight and the workers do while the
-- command shuts down, are arguments.
pub mod Events
pub mod Exits
pub mod Returns
mod Tests
use distributed_grpc_task_ma.Prelude.{
  ℕ, String, Bool, true, false, List, [], ◌∷◌, Option, none, some, str_eq, if◌then◌else◌,
}
use distributed_grpc_task_ma.Prelude.Effects.{Error, new, wrap, Result, ok, err}
use distributed_grpc_task_ma.Prelude.Outcome.{Outcome, done, panics, hangs, out_of_fuel, ◌>>=◌}
use distributed_grpc_task_ma.Queue.{PriorityQueue, TaskItem, new_priority_queue}
use distributed_grpc_task_ma.Storage.{Storage}
use distributed_grpc_task_ma.Storage.Redis.{RedisClient, Json, redis_storage}
use distributed_grpc_task_ma.Storage.Redis.Client.{Options, GoRedis, new_redis_client}
use distributed_grpc_task_ma.Storage.Hybrid.{hybrid_storage}
use distributed_grpc_task_ma.Storage.Postgres.{postgres_storage}
use distributed_grpc_task_ma.Storage.Postgres.Sql.{Database, Scanner}
use distributed_grpc_task_ma.Storage.Postgres.Setup.{new_hybrid_storage}
use distributed_grpc_task_ma.Worker.{TaskProcessor, TaskStorage}
use distributed_grpc_task_ma.Scheduler.{Scheduler, new_scheduler}
use distributed_grpc_task_ma.Scheduler.Crew.{Turn}
use distributed_grpc_task_ma.Election.Raft.{RaftLibrary}
use distributed_grpc_task_ma.Node.{Node, new_node, start_node, stop_node}

pub record Flags : Type 0 where
  pub node_id : String
  pub http_addr : String
  pub grpc_addr : String
  pub redis_addr : String
  pub postgres_dsn : String
  pub peers : String

-- the values of the flags that are not given
abbrev pub default_flags : Flags
default_flags = record {
  node_id = "node-1";
  http_addr = "localhost:8080";
  grpc_addr = "localhost:9090";
  redis_addr = "localhost:6379";
  postgres_dsn = "";
  peers = "";
}

-- how main ends: by log.Fatalf, by its return, or not at all
pub data Exit : Type 0 where
  fatal : String → Error → Exit
  returned waiting : Exit

-- what main waits for: the end of a server, which was given an error or not, and the signal
pub data ServerEvent : Type 0 where
  http_ended grpc_ended : Result (Unit {0}) → ServerEvent
  signalled : ServerEvent

-- `err == http.ErrServerClosed`
abbrev pub is_server_closed : Error → Bool
is_server_closed (new text) = str_eq text "http: Server closed"
is_server_closed (wrap text e) = false

-- Start of the gRPC server, from what net.Listen and Serve give
unfoldable pub start_grpc : Result (Unit {0}) → Result (Unit {0}) → Result (Unit {0})
start_grpc (err e) served = err e
start_grpc (ok u) served = served

-- Stop of the gRPC server, GracefulStop: it waits for the handlers in flight
unfoldable pub all_returned : {A : Type 0} → List (Outcome A) → Bool
all_returned [] = true
all_returned (done a ∷ rest) = all_returned rest
all_returned (panics ∷ rest) = false
all_returned (hangs ∷ rest) = false
all_returned (out_of_fuel ∷ rest) = false

-- what a server that ended in this way makes the process end with
unfoldable pub fatal_end : ServerEvent → Option (String × Error)
fatal_end (http_ended (ok u)) = none
fatal_end (http_ended (err e)) =
    if is_server_closed e then none else some ("Failed to start HTTP server", e)
fatal_end (grpc_ended (ok u)) = none
fatal_end (grpc_ended (err e)) = some ("Failed to start gRPC server", e)
fatal_end signalled = none

-- the goroutines of the two servers: the first log.Fatalf, before the signal or after it
unfoldable pub first_fatal : List ServerEvent → Option (String × Error)
unfolding fatal_end
first_fatal [] = none
first_fatal (x ∷ rest) =
    let later = first_fatal rest in elim (fatal_end x) [ none ↦ later | some f ↦ some f ]

-- whether `<-sigChan` returns
unfoldable pub is_signalled : List ServerEvent → Bool
is_signalled [] = false
is_signalled (signalled ∷ rest) = true
is_signalled (http_ended r ∷ rest) = is_signalled rest
is_signalled (grpc_ended r ∷ rest) = is_signalled rest

-- the flag as a list
unfoldable pub peer_list : String → List String
peer_list peers = if str_eq peers "" then [] else peers ∷ []

module _ {W S A : Type 0} (lib : RaftLibrary W) (decimal : ℕ → String) (storage : Storage S)
    (in_flight : List (Outcome A)) (during : List Turn) where
  -- from the signal on: grpcServer.Stop and sched.Stop
  unfoldable pub shut_down : Node lib S → Exit
  unfolding all_returned stop_node
  shut_down n =
      if all_returned in_flight
      then (elim (stop_node lib decimal storage during n) [ none ↦ waiting | some m ↦ returned ])
      else waiting

  -- `events` are all that happen before the process ends; a log.Fatalf of a server ends it, whatever the
  -- command waits for
  unfoldable pub run_servers : List ServerEvent → Node lib S → Exit
  unfolding shut_down first_fatal is_signalled
  run_servers events n = elim (first_fatal events) [
    | some (text, e) ↦ fatal text e
    | none ↦ if is_signalled events then shut_down n else waiting
  ]

  module _ (evolve : Node lib S → Node lib S) (events : List ServerEvent) where
    -- from the result of Start of the scheduler on
    unfoldable pub after_start : Result (Unit {0}) × Node lib S → Exit
    unfolding run_servers
    after_start (err e, n) = fatal "Failed to start scheduler" e
    after_start (ok u, n) = run_servers events (evolve n)

    -- from NewScheduler on, over the storage that was chosen, in the state `s`
    unfoldable pub serve : (ℕ → TaskItem) → Flags → S → W → Outcome Exit
    unfolding after_start start_node new_scheduler new_priority_queue peer_list
    serve cells f s w = new_priority_queue cells >>= λ q. done (
        after_start (
          start_node lib
            (new_node (new_scheduler f.node_id f.http_addr s q (peer_list f.peers)) w)))

-- the client of the address in the flags
abbrev pub client : {R : Type 0} → (Options → GoRedis R) → Flags → RedisClient R
unfolding new_redis_client
client connect f = new_redis_client connect f.redis_addr "" 0

module _ {R D W A : Type 0} (connect : Options → GoRedis R) (j : Json) (db : Database D)
    (scanner : Scanner) (opened : Result (Unit {0})) (lib : RaftLibrary W) (decimal : ℕ → String)
    (evolve_redis : Node lib R → Node lib R) (evolve_hybrid : Node lib (R × D) → Node lib (R × D))
    (events : List ServerEvent) (in_flight : List (Outcome A)) (during : List Turn)
    (cells : ℕ → TaskItem) (f : Flags) where
  unfoldable pub with_hybrid : Result (Unit {0}) × D → R → W → Outcome Exit
  unfolding serve client
  with_hybrid (err e, d) r w = done (fatal "Failed to create hybrid storage" e)
  with_hybrid (ok u, d) r w =
      serve lib decimal
        (hybrid_storage (redis_storage (client connect f) j) (postgres_storage db scanner))
        in_flight during evolve_hybrid events cells f (r, d) w

  -- from the result of the ping on
  unfoldable pub with_redis : Result (Unit {0}) × R → D → W → Outcome Exit
  unfolding with_hybrid serve client
  with_redis (err e, r) d w = done (fatal "Failed to connect to Redis" e)
  with_redis (ok u, r) d w =
      if str_eq f.postgres_dsn ""
      then serve lib decimal (redis_storage (client connect f) j) in_flight during evolve_redis
          events cells f r w
      else with_hybrid (new_hybrid_storage db opened d) r w

  -- `opened` is what sql.Open returns for the connection string
  unfoldable pub main : R → D → W → Outcome Exit
  unfolding with_redis client
  main r d w = with_redis ((client connect f).ping r) d w
