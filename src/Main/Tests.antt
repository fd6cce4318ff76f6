-- ===== src/Main/Tests.antt =====
-- The theorem about the command, at a node that is given the signal at once.
use distributed_grpc_task_ma.Prelude.{◌↔◌, ◌≡◌, refl, ℕ, String, List, [], ◌∷◌, none}
use distributed_grpc_task_ma.Prelude.Effects.{ok}
use distributed_grpc_task_ma.Prelude.Outcome.{Outcome, done}
use distributed_grpc_task_ma.Queue.Tests.{blank}
use distributed_grpc_task_ma.Queue.{len}
use distributed_grpc_task_ma.Heap.{init}
use distributed_grpc_task_ma.Election.Raft.{start_raft, launch}
use distributed_grpc_task_ma.Storage.Tests.{json}
use distributed_grpc_task_ma.Storage.Redis.Client.{Options, GoRedis, Command}
use distributed_grpc_task_ma.Storage.Postgres.Tests.{memory, scanner, blank as no_rows}
use distributed_grpc_task_ma.Scheduler.Crew.{Turn}
use distributed_grpc_task_ma.Election.Tests.{library, open_node}
use distributed_grpc_task_ma.Main.{default_flags, signalled, client, main, returned}
use distributed_grpc_task_ma.Main.Exits.{Ends}
use distributed_grpc_task_ma.Main.Returns.{main-returns}

abbrev answer : {A : Type 0} → A → ℕ → Command A × ℕ
answer a n = (record { val = a; err = none }, n)

-- a server that answers every command, and keeps nothing
abbrev connect : Options → GoRedis ℕ
connect o = record {
  set = λ k d e. answer "OK";
  get = λ k. answer "";
  del = λ ks. answer 0;
  exists = λ ks. answer 0;
  keys = λ p. answer [];
  lpush = λ k ds. answer 1;
  rpop = λ k. answer "";
  lrange = λ k i j. answer [];
  lrem = λ k i d. answer 0;
  ping = answer "PONG";
  close = λ n. (ok tt, n);
}

abbrev decimal : ℕ → String
decimal n = "1"

abbrev turn_of : ℕ → Turn
turn_of i = record { index = i; started = 1; finished = 2 }

abbrev during : List Turn
during =
    turn_of 0
    ∷ turn_of 1
    ∷ turn_of 2
    ∷ turn_of 3
    ∷ turn_of 4
    ∷ turn_of 5
    ∷ turn_of 6
    ∷ turn_of 7
    ∷ turn_of 8
    ∷ turn_of 9
    ∷ []

abbrev handlers : List (Outcome ℕ)
handlers = done 0 ∷ []

main-returns_example :
    main connect json memory scanner
        (ok tt)
        library
        decimal
        (λ n. n)
        (λ n. n)
        (signalled ∷ [])
        handlers
        during
        blank
        default_flags
        0
        no_rows
        open_node
      ≡ done returned
    ↔ ((((client connect default_flags).ping 0).0 ≡ ok tt)
        × Ends connect json memory scanner
            (ok tt)
            library
            decimal
            (λ n. n)
            (λ n. n)
            (signalled ∷ [])
            handlers
            during
            blank
            default_flags
            0
            no_rows
            open_node)
unfolding client
main-returns_example =
    main-returns connect json memory scanner (ok tt) library decimal (λ n. n) (λ n. n)
      (signalled ∷ []) handlers during blank default_flags 0 no_rows open_node

-- the command does return
main_run :
    main connect json memory scanner
      (ok tt)
      library
      decimal
      (λ n. n)
      (λ n. n)
      (signalled ∷ [])
      handlers
      during
      blank
      default_flags
      0
      no_rows
      open_node
    ≡ done returned
unfolding main init len start_raft launch
main_run = refl
