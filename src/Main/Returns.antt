-- ===== src/Main/Returns.antt =====
-- Whether the command returns.
use mathlib.Core.Path.{subst}
use distributed_grpc_task_ma.Prelude.{
  ℕ, ◌≡◌, ◌≢◌, refl, ap, String, true, List, none, arith, inl, inr, ◌↔◌, Option-cases,
}
use distributed_grpc_task_ma.Prelude.Effects.{Result, ok, err}
use distributed_grpc_task_ma.Prelude.Outcome.{Outcome, done}
use distributed_grpc_task_ma.Queue.{TaskItem}
use distributed_grpc_task_ma.Storage.{Storage}
use distributed_grpc_task_ma.Scheduler.{new_scheduler}
use distributed_grpc_task_ma.Storage.Redis.{Json, redis_storage}
use distributed_grpc_task_ma.Storage.Redis.Client.{Options, GoRedis}
use distributed_grpc_task_ma.Storage.Hybrid.{hybrid_storage}
use distributed_grpc_task_ma.Storage.Postgres.{postgres_storage}
use distributed_grpc_task_ma.Storage.Postgres.Sql.{Database, Scanner}
use distributed_grpc_task_ma.Storage.Postgres.Setup.{new_hybrid_storage}
use distributed_grpc_task_ma.Scheduler.Crew.{Turn}
use distributed_grpc_task_ma.Election.Raft.{RaftLibrary}
use distributed_grpc_task_ma.Node.{Node, new_node, start_node, stop_node}
use distributed_grpc_task_ma.Node.Ending.{stop_node-Finish}
use distributed_grpc_task_ma.Main.{
  returned, Flags, ServerEvent, all_returned, shut_down, run_servers, after_start, serve, client,
  peer_list, with_redis, with_hybrid, main,
}
use distributed_grpc_task_ma.Main.Events.{
  quiet-first_fatal, Among-is_signalled, done-all_returned, IsPeers-peer_list,
}
use distributed_grpc_task_ma.Main.Exits.{IsClean, Serves, Ends, main-returned}

module _ {W S A : Type 0} (lib : RaftLibrary W) (decimal : ℕ → String) (storage : Storage S)
    (in_flight : List (Outcome A)) (during : List Turn) (evolve : Node lib S → Node lib S)
    (events : List ServerEvent) where
  shut_down-returns :
      (n : Node lib S)
      → all_returned in_flight ≡ true
      → stop_node lib decimal storage during n ≢ none
      → shut_down lib decimal storage in_flight during n ≡ returned
  unfolding shut_down
  shut_down-returns n e o = elim (Option-cases (stop_node lib decimal storage during n)) [
    | inl k ↦ absurd (o k)
    | inr (m, k) ↦ rw (e, k) refl
  ]

  after_start-returns :
      (m n : Node lib S)
      → IsClean lib decimal storage in_flight during evolve events m n
      → after_start lib decimal storage in_flight during evolve events (start_node lib m) ≡ returned
  unfolding after_start run_servers
  after_start-returns m n i =
      rw
        (
          i.started,
          after_start,
          run_servers,
          quiet-first_fatal events i.quiet,
          Among-is_signalled events i.signal,
        )
        (shut_down-returns (evolve n) (done-all_returned in_flight i.served)
          ((stop_node-Finish lib decimal storage (evolve n) during).1 i.finishes))

  serve-returns :
      (cells : ℕ → TaskItem) (f : Flags) (s : S) (w : W)
      → Serves lib decimal storage in_flight during evolve events cells f s w
      → serve lib decimal storage in_flight during evolve events cells f s w ≡ done returned
  unfolding serve
  serve-returns cells f s w (q, peers, n, e, p, i) =
      let same = IsPeers-peer_list f.peers peers p in
      rw (serve, e)
        (ap done (
          after_start-returns
            (new_node (new_scheduler f.node_id f.http_addr s q (peer_list f.peers)) w) n
            (subst
              (λ ps.
                IsClean lib decimal storage in_flight during evolve events
                  (new_node (new_scheduler f.node_id f.http_addr s q ps) w) n)
              same i)))

module _ {R D W A : Type 0} (connect : Options → GoRedis R) (j : Json) (db : Database D)
    (scanner : Scanner) (opened : Result (Unit {0})) (lib : RaftLibrary W) (decimal : ℕ → String)
    (evolve_redis : Node lib R → Node lib R) (evolve_hybrid : Node lib (R × D) → Node lib (R × D))
    (events : List ServerEvent) (in_flight : List (Outcome A)) (during : List Turn)
    (cells : ℕ → TaskItem) (f : Flags) where
  with_hybrid-returns :
      (o : Result (Unit {0}) × D) (r : R) (w : W)
      → o.0 ≡ ok tt
      → Serves lib decimal
          (hybrid_storage (redis_storage (client connect f) j) (postgres_storage db scanner))
          in_flight
          during
          evolve_hybrid
          events
          cells
          f
          (r, o.1)
          w
      → with_hybrid connect j db scanner opened lib decimal evolve_redis evolve_hybrid events
          in_flight during cells f o r w
        ≡ done returned
  unfolding with_hybrid
  with_hybrid-returns (err x, d) r w e s = absurd (ground (arith))
  with_hybrid-returns (ok u, d) r w e s =
      serve-returns lib decimal
        (hybrid_storage (redis_storage (client connect f) j) (postgres_storage db scanner))
        in_flight during evolve_hybrid events cells f (r, d) w s

  with_redis-returns :
      (o : Result (Unit {0}) × R) (d : D) (w : W)
      → o.0 ≡ ok tt
      → Ends connect j db scanner opened lib decimal evolve_redis evolve_hybrid events in_flight
          during cells f o.1 d w
      → with_redis connect j db scanner opened lib decimal evolve_redis evolve_hybrid events
          in_flight during cells f o d w
        ≡ done returned
  unfolding with_redis
  with_redis-returns (err x, r) d w e s = absurd (ground (arith))
  with_redis-returns (ok u, r) d w e (inl (k, s)) = rw (k) (
      serve-returns lib decimal (redis_storage (client connect f) j) in_flight during evolve_redis
        events cells f r w s)
  with_redis-returns (ok u, r) d w e (inr (k, o, s)) =
      rw (k) (with_hybrid-returns (new_hybrid_storage db opened d) r w o s)

  -- The command returns exactly if Redis answers the ping, the hybrid storage is made if a connection
  -- string is given, the node is started, with a new queue, the flags and at most one peer, the whole text
  -- of the flag, a signal comes, no server ever ends with an error, but for the one that says that the
  -- HTTP server was closed, every handler of the gRPC server returns, and no worker waits for ever and
  -- each that is running at the signal takes a turn after it.
  pub main-returns :
      (r : R) (d : D) (w : W)
      → main connect j db scanner opened lib decimal evolve_redis evolve_hybrid events in_flight
            during cells f r d w
          ≡ done returned
        ↔ ((((client connect f).ping r).0 ≡ ok tt)
            × Ends connect j db scanner opened lib decimal evolve_redis evolve_hybrid events
                in_flight during cells f
                ((client connect f).ping r).1
                d
                w)
  unfolding main
  main-returns r d w = (
    main-returned connect j db scanner opened lib decimal evolve_redis evolve_hybrid events
        in_flight during cells f r d w,
    λ (e, s). with_redis-returns ((client connect f).ping r) d w e s,
  )
