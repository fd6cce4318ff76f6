-- ===== src/Api/Progress.antt =====
-- Every request that is no submission to a leader is answered, if the storage returns.
use distributed_grpc_task_ma.Prelude.{
  ◌≡◌, ◌≢◌, refl, sym, ap, ◌∙◌, suc, ◌==◌, Bool, true, false, ◌||◌, List, [], ◌∷◌, length, Option,
  none, some, String, arith,
}
use distributed_grpc_task_ma.Prelude.Effects.{Result, ok, err}
use distributed_grpc_task_ma.Prelude.Outcome.{done, ◌>>=◌, Yields, yields, Yields-bind}
use distributed_grpc_task_ma.Types.{Task}
use distributed_grpc_task_ma.Storage.{Storage}
use distributed_grpc_task_ma.Scheduler.{Scheduler, submit}
use distributed_grpc_task_ma.Scheduler
use distributed_grpc_task_ma.Scheduler.Returns.{
  IsReady, is_refused, submit-hangs, get_worker_metrics-returns, get_queue_stats-returns,
}
use distributed_grpc_task_ma.Scheduler.Queries
use distributed_grpc_task_ma.Api
use distributed_grpc_task_ma.Api.{
  Api as ApiState, Context, Response, created, listed, fetched, replaced, removed,
}
use distributed_grpc_task_ma.Api.Serve
use distributed_grpc_task_ma.Api.Serve.{Request, serve, serve_all}

-- a request with a task in it that can be read
abbrev pub is_post : Request → Bool
is_post (Serve.post_task (ok r)) = true
is_post (Serve.post_dependencies (ok r)) = true
is_post (Serve.post_timeout (ok r)) = true
is_post _ = false

abbrev pub any_post : List (Context × Request) → Bool
any_post [] = false
any_post ((c, q) ∷ rest) = is_post q || any_post rest

abbrev pub any_created : List Response → Bool
any_created [] = false
any_created (r ∷ rs) = r.status == 201 || any_created rs

-- one answer to a request, which creates no task
pub record IsAnswer {S : Type 0} (before : ApiState S) (r : Response) (after : ApiState S)
    : Type 0 where
  pub ready : IsReady after.scheduler
  pub leads : after.scheduler.is_leader ≡ before.scheduler.is_leader
  pub plain : (r.status == 201) ≡ false
  pub submitted : after.tasks_submitted ≡ before.tasks_submitted
  pub completed : after.tasks_completed ≡ before.tasks_completed
  pub failed : after.tasks_failed ≡ before.tasks_failed

fetched-plain : (r : Result (Option Task)) → ((fetched r).status == 201) ≡ false
fetched-plain (ok t) = refl
fetched-plain (err e) = refl

replaced-plain : (t : Task) (u : Result (Unit {0})) → ((replaced t u).status == 201) ≡ false
replaced-plain t (ok x) = refl
replaced-plain t (err e) = refl

removed-plain : (u : Result (Unit {0})) → ((removed u).status == 201) ≡ false
removed-plain (ok x) = refl
removed-plain (err e) = refl

module _ {S : Type 0} (api : ApiState S) (h : IsReady api.scheduler) where
  -- only the storage may have changed
  plain-IsAnswer :
      (r : Response) (w : S)
      → (r.status == 201) ≡ false
      → IsAnswer api r (record api { scheduler = record api.scheduler { world = w } })
  plain-IsAnswer r w e = record {
    ready = record { free = h.free; started = h.started };
    leads = refl;
    plain = e;
    submitted = refl;
    completed = refl;
    failed = refl;
  }

  listed-answers :
      (r : Result (List Task)) (w : S)
      → let a = listed (r, record api.scheduler { world = w }) api in IsAnswer api a.0 a.1
  listed-answers (ok ts) w = plain-IsAnswer _ w refl
  listed-answers (err e) w = plain-IsAnswer _ w refl

  get_stats-answers : Yields (λ q. IsAnswer api q.0 q.1) (Api.get_stats api)
  unfolding Api.get_stats
  get_stats-answers = Yields-bind (get_queue_stats-returns api.scheduler h) λ a _.
      Yields-bind (get_worker_metrics-returns api.scheduler h) λ m (k, l). yields (record {
        ready = k;
        leads = l;
        plain = refl;
        submitted = refl;
        completed = refl;
        failed = refl;
      })

  module _ (storage : Storage S) where
    -- a scheduler that does not lead refuses a task
    submit-answers :
        (t : Task)
        → api.scheduler.is_leader ≡ false
        → Yields
            (λ a. IsAnswer api a.0 a.1)
            (submit storage t api.scheduler >>= λ q. done (created q api))
    unfolding created
    submit-answers t follows =
        let no : is_refused api.scheduler ≡ true = ground (arith) in
        rw (submit-hangs storage t api.scheduler h.free, no)
          (yields (plain-IsAnswer _ api.scheduler.world refl))

    module _ (finds : (id : String) (s : S) → (storage.get_task id s).0 ≢ ok none) where
      update_found-answers :
          (r : Api.UpdateRequest) (u : Result (Option Task)) (w : S)
          → u ≢ ok none
          → Yields
              (λ a. IsAnswer api a.0 a.1)
              (Api.update_found storage r (u, record api.scheduler { world = w }) api)
      unfolding Api.update_found Queries.update_task
      update_found-answers r (err e) w n = yields (plain-IsAnswer _ w refl)
      update_found-answers r (ok none) w n = elim (n refl) [ ]
      update_found-answers r (ok (some t)) w n = yields (plain-IsAnswer _ _ (replaced-plain _ _))

      update_task-answers :
          (id : String) (r : Result Api.UpdateRequest)
          → Yields (λ q. IsAnswer api q.0 q.1) (Api.update_task storage id r api)
      unfolding Api.update_task Queries.get_task
      update_task-answers id (err e) = yields (plain-IsAnswer _ api.scheduler.world refl)
      update_task-answers id (ok r) = update_found-answers r _ _ (finds id api.scheduler.world)

      serve-answers :
          (c : Context) (q : Request)
          → (api.scheduler.is_leader ≡ true → is_post q ≡ false)
          → Yields (λ a. IsAnswer api a.0 a.1) (serve storage c q api)
      unfolding serve Api.submit_task Api.submit_task_with_dependencies Api.submit_task_with_timeout
          Scheduler.submit_task Scheduler.submit_task_with_dependencies
          Scheduler.submit_task_with_timeout Api.health_handler Api.get_task Api.delete_task
          Api.get_cluster_info Api.list_tasks Api.get_tasks_by_status Queries.get_all_tasks
          Queries.get_tasks_by_status Queries.get_cluster_info Queries.get_task Queries.delete_task
      serve-answers c Serve.get_health k = yields (plain-IsAnswer _ api.scheduler.world refl)
      serve-answers c (Serve.post_task (err e)) k =
          yields (plain-IsAnswer _ api.scheduler.world refl)
      serve-answers c (Serve.post_task (ok r)) k = submit-answers _ (ground (arith))
      serve-answers c (Serve.post_dependencies (err e)) k =
          yields (plain-IsAnswer _ api.scheduler.world refl)
      serve-answers c (Serve.post_dependencies (ok r)) k = submit-answers _ (ground (arith))
      serve-answers c (Serve.post_timeout (err e)) k =
          yields (plain-IsAnswer _ api.scheduler.world refl)
      serve-answers c (Serve.post_timeout (ok r)) k = submit-answers _ (ground (arith))
      serve-answers c Serve.get_tasks k = yields (listed-answers _ _)
      serve-answers c (Serve.get_task id) k = yields (plain-IsAnswer _ _ (fetched-plain _))
      serve-answers c (Serve.get_status status) k = yields (listed-answers _ _)
      serve-answers c (Serve.put_task id r) k = update_task-answers id r
      serve-answers c (Serve.delete_task id) k = yields (plain-IsAnswer _ _ (removed-plain _))
      serve-answers c Serve.get_info k = yields (plain-IsAnswer _ _ refl)
      serve-answers c Serve.get_stats k = get_stats-answers

module _ {S : Type 0} (storage : Storage S)
    (finds : (id : String) (s : S) → (storage.get_task id s).0 ≢ ok none) where
  -- If the storage never answers without an error that there is no task, the scheduler was started, no
  -- writer holds the lock of its queue, and it does not lead or is sent no task that can be read, then
  -- any sequence of requests is answered, each once, none with 201, and the counters of submitted,
  -- completed and failed tasks stay as they were.
  pub serve_all-answers :
      (rest : List (Context × Request)) (api : ApiState S)
      → IsReady api.scheduler
      → (api.scheduler.is_leader ≡ true → any_post rest ≡ false)
      → Yields
          (λ (rs, api').
            (length rs ≡ length rest)
            × (any_created rs ≡ false)
            × (api'.tasks_submitted ≡ api.tasks_submitted)
            × (api'.tasks_completed ≡ api.tasks_completed)
            × (api'.tasks_failed ≡ api.tasks_failed))
          (serve_all storage rest api)
  unfolding serve_all
  serve_all-answers [] api h k = yields {a = ([], api)} (refl, refl, refl, refl, refl)
  serve_all-answers ((c, q) ∷ rest) api h k =
      Yields-bind (serve-answers api h storage finds c q λ l. let m = k l in ground (arith))
        λ (r, api') a.
          Yields-bind
            (serve_all-answers rest api' a.ready λ l. let m = k (sym a.leads ∙ l) in ground (arith))
            λ (rs, api'') (e, x, n, d, f).
              yields {a = (r ∷ rs, api'')}
                (ap suc e, rw (a.plain, x) refl, n ∙ a.submitted, d ∙ a.completed, f ∙ a.failed)
