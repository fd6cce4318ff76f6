-- ===== src/Api/Tests.antt =====
-- The theorems about the HTTP server, at a concrete one.
use distributed_grpc_task_ma.Prelude.{
  ◌≡◌, refl, sym, true, false, List, [], ◌∷◌, none, some, pos, length, arith, str_eq, if◌then◌else◌,
}
use distributed_grpc_task_ma.Prelude.Effects.{ok, err, new}
use distributed_grpc_task_ma.Prelude.Outcome.{Yields}
use distributed_grpc_task_ma.Types.{
  Task, new_task, new_task_with_dependencies, new_task_with_timeout,
}
use distributed_grpc_task_ma.Queue.Tests.{pair, pair-free}
use distributed_grpc_task_ma.Storage.Redis
use distributed_grpc_task_ma.Storage.Redis.{Json, redis_storage}
use distributed_grpc_task_ma.Storage.Redis.Model.{RoundTrips}
use distributed_grpc_task_ma.Storage.Redis.Tasks.{get_task-finds}
use distributed_grpc_task_ma.Storage.Tests.{
  Memory, client, client-IsServer, json, store, named, empty,
}
use distributed_grpc_task_ma.Worker.{new_worker_pool}
use distributed_grpc_task_ma.Scheduler.{Scheduler, new_scheduler}
use distributed_grpc_task_ma.Api.{
  Api as ApiState, Context, UpdateRequest, TaskRequest, DependenciesRequest, TimeoutRequest,
  new_api, get_task, update_task, submit_task, submit_task_with_dependencies,
  submit_task_with_timeout, task, seconds_of,
}
use distributed_grpc_task_ma.Api.Serve
use distributed_grpc_task_ma.Api.Serve.{Request, serve_all}
use distributed_grpc_task_ma.Api.Progress.{any_created, serve_all-answers}
use distributed_grpc_task_ma.Api.Tasks.{IsChanged, get_task-update_task}
use distributed_grpc_task_ma.Api.Posts.{answer, submit_task-answer}

abbrev started : Scheduler Memory
unfolding new_scheduler new_worker_pool
started = record (new_scheduler "n" ":1" empty pair []) { worker_pool = some (new_worker_pool 5) }

abbrev server : ApiState Memory
unfolding new_api
server = new_api started

abbrev context : Context
context = record { id = "c"; now = 3; leader = "n" }

abbrev requests : List (Context × Request)
requests =
    (context, Serve.post_task (ok (record { priority = pos 2; payload = [] })))
    ∷ (context, Serve.get_task "c")
    ∷ (context, Serve.put_task "c" (err (new "EOF")))
    ∷ []

serve_all-answers_example :
    Yields
      (λ (rs, api').
        (length rs ≡ length requests)
        × (any_created rs ≡ false)
        × (api'.tasks_submitted ≡ server.tasks_submitted)
        × (api'.tasks_completed ≡ server.tasks_completed)
        × (api'.tasks_failed ≡ server.tasks_failed))
      (serve_all store requests server)
unfolding redis_storage Redis.get_task server started
serve_all-answers_example =
    serve_all-answers store (get_task-finds client json) requests server
      (record { free = pair-free; started = λ e. ground (arith) }) λ e. ground (arith)

abbrev change : UpdateRequest
change = record {
  priority = none;
  payload = none;
  status = some (pos 3);
  dependencies = none;
  timeout = none;
}

-- the text "old" for a task, and another for the one with its status changed
abbrev coding : Json
coding = record json {
  marshal_task = λ t. ok "new";
  unmarshal_task =
      λ d. ok (if str_eq d "old" then named "a" else record (named "a") { status = pos 3 });
}

any_back : (u : Task) → IsChanged change (named "a") u → RoundTrips client coding u
any_back u c = (
  "new",
  refl,
  sym (λ i. ok (record {
    id = c.same_id i;
    priority = c.priority i;
    payload = c.payload i;
    created_at = c.same_created_at i;
    status = c.status i;
    started_at = c.same_started_at i;
    completed_at = c.same_completed_at i;
    worker_id = c.same_worker_id i;
    error = c.same_error i;
    dependencies = c.dependencies i;
    timeout = c.same_timeout i;
    max_duration = c.max_duration i;
  })),
)

abbrev holding : ApiState Memory
unfolding new_api
holding = new_api (record started { world = record empty { texts = λ k. some "old" } })

get_task-update_task_example :
    Yields
      (λ (a, api').
        (u : Task) × IsChanged change (named "a") u
        × (a ≡ record { status = 200; body = task (some u) })
        × ((get_task (redis_storage client coding) "a" api').0 ≡ a))
      (update_task (redis_storage client coding) "a" (ok change) holding)
unfolding holding
get_task-update_task_example =
    get_task-update_task client coding client-IsServer change (named "a") "old" holding refl refl
      any_back

abbrev post : TaskRequest
post = record { priority = pos 0; payload = [] }

abbrev dependent : DependenciesRequest
dependent = record { priority = pos 0; payload = []; dependencies = "a" ∷ [] }

abbrev timed : TimeoutRequest
timed = record { priority = pos 0; payload = []; timeout = pos 5 }

abbrev leading : ApiState Memory
unfolding new_api
leading = new_api (record started { is_leader = true })

submit_task-answer_example :
    (submit_task store context (ok post) leading ≡ answer store (new_task "c" 3 (pos 0) []) leading)
    × (submit_task_with_dependencies store context (ok dependent) leading
        ≡ answer store (new_task_with_dependencies "c" 3 (pos 0) [] ("a" ∷ [])) leading)
    × (submit_task_with_timeout store context (ok timed) leading
        ≡ answer store (new_task_with_timeout "c" 3 (pos 0) [] (seconds_of (pos 5))) leading)
unfolding leading started
submit_task-answer_example = submit_task-answer store context post dependent timed leading pair-free
