-- ===== src/Main/Exits.antt =====
-- What has happened if the command has returned.
use distributed_grpc_task_ma.Prelude.{
  ℕ, ◌≡◌, ◌≢◌, refl, sym, ap, ◌∙◌, String, true, false, List, none, some, str_eq, Option-cases,
  arith, Bool-cases, inl, inr, ◌⊎◌,
}
use distributed_grpc_task_ma.Prelude.Effects.{Result, ok, err}
use distributed_grpc_task_ma.Prelude.Outcome.{
  Outcome, done, Yields, yields, Yields-weaken, Yields-if, Yields-value,
}
use distributed_grpc_task_ma.Queue.{PriorityQueue, TaskItem, new_priority_queue}
use distributed_grpc_task_ma.Queue.Reads.{new_priority_queue_lem}
use distributed_grpc_task_ma.Storage.{Storage}
use distributed_grpc_task_ma.Storage.Redis.{Json, redis_storage}
use distributed_grpc_task_ma.Storage.Redis.Client.{Options, GoRedis}
use distributed_grpc_task_ma.Storage.Hybrid.{hybrid_storage}
use distributed_grpc_task_ma.Storage.Postgres.{postgres_storage}
use distributed_grpc_task_ma.Storage.Postgres.Sql.{Database, Scanner}
use distributed_grpc_task_ma.Storage.Postgres.Setup.{new_hybrid_storage}
use distributed_grpc_task_ma.Scheduler.{new_scheduler}
use distributed_grpc_task_ma.Scheduler.Crew.{Turn}
use distributed_grpc_task_ma.Election.Raft.{RaftLibrary}
use distributed_grpc_task_ma.Node.{Node, new_node, start_node, stop_node}
use distributed_grpc_task_ma.Worker.{WorkerPool}
use distributed_grpc_task_ma.Scheduler.Stopping.{Finish}
use distributed_grpc_task_ma.Node.Ending.{stop_node-Finish}
use distributed_grpc_task_ma.Main.{
  returned, Flags, ServerEvent, signalled, first_fatal, is_signalled, all_returned, shut_down,
  run_servers, after_start, serve, client, peer_list, with_redis, with_hybrid, main,
}
use distributed_grpc_task_ma.Main.Events.{
  Among, IsQuiet, IsPeers, is_signalled-Among, first_fatal-http, first_fatal-grpc,
  all_returned-done, peer_list-IsPeers,
}

module _ {W S A : Type 0} (lib : RaftLibrary W) (decimal : ℕ → String) (storage : Storage S)
    (in_flight : List (Outcome A)) (during : List Turn) (evolve : Node lib S → Node lib S)
    (events : List ServerEvent) where
  -- what has happened if the command has returned: the scheduler of the node `m` was started, as the node
  -- `n`, which has become `evolve n` by the time of the signal
  pub record IsClean (m n : Node lib S) : Type 0 where
    pub started : start_node lib m ≡ (ok tt, n)
    pub signal : Among signalled events
    pub quiet : IsQuiet events
    pub served : (o : Outcome A) → Among o in_flight → (a : A) × (o ≡ done a)
    pub finishes :
        (p : WorkerPool)
        → (evolve n).scheduler.worker_pool ≡ some p
        → Finish (evolve n).members during

  shut_down-returned :
      (n : Node lib S)
      → shut_down lib decimal storage in_flight during n ≡ returned
      → (all_returned in_flight ≡ true) × (stop_node lib decimal storage during n ≢ none)
  unfolding shut_down
  shut_down-returned n e = elim (Bool-cases (all_returned in_flight)) [
    | inl k ↦ (k, λ o. ground (arith))
    | inr k ↦ absurd (ground (arith))
  ]

  run_servers-returned :
      (n : Node lib S)
      → run_servers lib decimal storage in_flight during events n ≡ returned
      → (first_fatal events ≡ none)
        × (is_signalled events ≡ true)
        × (shut_down lib decimal storage in_flight during n ≡ returned)
  unfolding run_servers
  run_servers-returned n e = elim (Option-cases (first_fatal events)) [
    | inr (f, k) ↦ let e' = rw (k, run_servers) at e in absurd (ground (arith))
    | inl k ↦ elim (Bool-cases (is_signalled events)) [
      | inl b ↦ (k, b, rw (k, run_servers, b) at e)
      | inr b ↦ let e' = rw (k, run_servers, b) at e in absurd (ground (arith))
    ]
  ]

  after_start-returned :
      (o : Result (Unit {0}) × Node lib S) (m : Node lib S)
      → start_node lib m ≡ o
      → after_start lib decimal storage in_flight during evolve events o ≡ returned
      → (n : Node lib S) × IsClean m n
  unfolding after_start
  after_start-returned (err x, n) m k e = absurd (ground (arith))
  after_start-returned (ok u, n) m k e =
      let (f, b, e') = run_servers-returned (evolve n) e in
      let (c, o) = shut_down-returned (evolve n) e' in
      (
        n,
        record {
          started = k;
          signal = is_signalled-Among events b;
          quiet = record {
            http = λ x. first_fatal-http events x f;
            grpc = λ x. first_fatal-grpc events x f;
          };
          served = λ x. all_returned-done in_flight x c;
          finishes = (stop_node-Finish lib decimal storage (evolve n) during).0 o;
        },
      )

  -- a node that is made over the state `s`, with a new queue, is started and stopped
  abbrev pub Serves : (ℕ → TaskItem) → Flags → S → W → Type 0
  Serves cells f s w =
      (q : PriorityQueue) × (peers : List String) × (n : Node lib S) × (new_priority_queue cells
        ≡ done q)
      × IsPeers f.peers peers
      × IsClean (new_node (new_scheduler f.node_id f.http_addr s q peers) w) n

  pub serve-returned :
      (cells : ℕ → TaskItem) (f : Flags) (s : S) (w : W)
      → Yields
          (λ x. x ≡ returned → Serves cells f s w)
          (serve lib decimal storage in_flight during evolve events cells f s w)
  unfolding serve
  serve-returned cells f s w =
      let (q, e, l) = Yields-value (new_priority_queue_lem cells) in
      let m : Node lib S =
        new_node (new_scheduler f.node_id f.http_addr s q (peer_list f.peers)) w in
      rw (serve, e)
        (yields λ k.
          let (n, i) = after_start-returned (start_node lib m) m refl k in
          (q, peer_list f.peers, n, refl, peer_list-IsPeers f.peers, i))

module _ {R D W A : Type 0} (connect : Options → GoRedis R) (j : Json) (db : Database D)
    (scanner : Scanner) (opened : Result (Unit {0})) (lib : RaftLibrary W) (decimal : ℕ → String)
    (evolve_redis : Node lib R → Node lib R) (evolve_hybrid : Node lib (R × D) → Node lib (R × D))
    (events : List ServerEvent) (in_flight : List (Outcome A)) (during : List Turn)
    (cells : ℕ → TaskItem) (f : Flags) where
  abbrev redis : Storage R
  redis = redis_storage (client connect f) j

  -- from the states `r`, `d` and `w` on, after the ping
  abbrev pub Ends : R → D → W → Type 0
  Ends r d w =
      ((str_eq f.postgres_dsn "" ≡ true)
        × Serves lib decimal redis in_flight during evolve_redis events cells f r w)
      ⊎ ((str_eq f.postgres_dsn "" ≡ false)
          × ((new_hybrid_storage db opened d).0 ≡ ok tt)
          × Serves lib decimal (hybrid_storage redis (postgres_storage db scanner)) in_flight during
              evolve_hybrid events cells f (r, (new_hybrid_storage db opened d).1) w)

  with_hybrid-returned :
      (o : Result (Unit {0}) × D) (d : D) (r : R) (w : W)
      → str_eq f.postgres_dsn "" ≡ false
      → new_hybrid_storage db opened d ≡ o
      → Yields
          (λ x. x ≡ returned → Ends r d w)
          (with_hybrid connect j db scanner opened lib decimal evolve_redis evolve_hybrid events
            in_flight during cells f o r w)
  unfolding with_hybrid
  with_hybrid-returned (err x, d') d r w e k = yields λ n. absurd (ground (arith))
  with_hybrid-returned (ok u, d') d r w e k =
      Yields-weaken
        (serve-returned lib decimal (hybrid_storage redis (postgres_storage db scanner)) in_flight
          during evolve_hybrid events cells f (r, d') w)
        λ x c n.
          let (q, peers, m, l, b, i) = c n in
          inr (e, ap (λ o. o.0) k, rw (k) (q, peers, m, l, b, i))

  with_redis-returned :
      (o : Result (Unit {0}) × R) (d : D) (w : W)
      → Yields
          (λ x. x ≡ returned → (o.0 ≡ ok tt) × Ends o.1 d w)
          (with_redis connect j db scanner opened lib decimal evolve_redis evolve_hybrid events
            in_flight during cells f o d w)
  unfolding with_redis
  with_redis-returned (err x, r) d w = yields λ n. absurd (ground (arith))
  with_redis-returned (ok u, r) d w =
      Yields-if (str_eq f.postgres_dsn "")
        (λ e.
          Yields-weaken
            (serve-returned lib decimal redis in_flight during evolve_redis events cells f r w)
            λ x c n. (refl, inl (e, c n)))
        λ e.
          Yields-weaken (with_hybrid-returned (new_hybrid_storage db opened d) d r w e refl)
            λ x c n. (refl, c n)

  pub main-returned :
      (r : R) (d : D) (w : W)
      → main connect j db scanner opened lib decimal evolve_redis evolve_hybrid events in_flight
          during cells f r d w
        ≡ done returned
      → (((client connect f).ping r).0 ≡ ok tt) × Ends ((client connect f).ping r).1 d w
  unfolding main
  main-returned r d w k =
      let (x, e, c) = Yields-value (with_redis-returned ((client connect f).ping r) d w) in
      c (let l = sym e ∙ k in ground (arith))
