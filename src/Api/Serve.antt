-- ===== src/Api/Serve.antt =====
-- The routes of internal/api/api.go, and one request after the other.
use distributed_grpc_task_ma.Prelude.{String, List, [], ◌∷◌}
use distributed_grpc_task_ma.Prelude.Effects.{Result}
use distributed_grpc_task_ma.Prelude.Outcome.{Outcome, done, ◌>>=◌}
use distributed_grpc_task_ma.Storage.{Storage}
use distributed_grpc_task_ma.Api
use distributed_grpc_task_ma.Api.{
  Context, TaskRequest, DependenciesRequest, TimeoutRequest, UpdateRequest, Response,
}

-- a route with its parameter, and what ShouldBindJSON makes of the body
pub data Request : Type 0 where
  -- GET /health
  get_health : Request
  -- POST /api/v1/tasks/
  post_task : Result TaskRequest → Request
  -- POST /api/v1/tasks/dependencies
  post_dependencies : Result DependenciesRequest → Request
  -- POST /api/v1/tasks/timeout
  post_timeout : Result TimeoutRequest → Request
  -- GET /api/v1/tasks/
  get_tasks : Request
  -- GET /api/v1/tasks/:id
  get_task : String → Request
  -- GET /api/v1/tasks/status/:status
  get_status : String → Request
  -- PUT /api/v1/tasks/:id
  put_task : String → Result UpdateRequest → Request
  -- DELETE /api/v1/tasks/:id
  delete_task : String → Request
  -- GET /api/v1/cluster/info
  get_info : Request
  -- GET /api/v1/cluster/stats
  get_stats : Request

module _ {S : Type 0} (storage : Storage S) where
  unfoldable pub serve : Context → Request → Api.Api S → Outcome (Response × Api.Api S)
  unfolding Api.submit_task Api.submit_task_with_dependencies Api.submit_task_with_timeout
  serve c get_health api = done (Api.health_handler c api)
  serve c (post_task r) api = Api.submit_task storage c r api
  serve c (post_dependencies r) api = Api.submit_task_with_dependencies storage c r api
  serve c (post_timeout r) api = Api.submit_task_with_timeout storage c r api
  serve c get_tasks api = done (Api.list_tasks storage api)
  serve c (get_task id) api = done (Api.get_task storage id api)
  serve c (get_status status) api = done (Api.get_tasks_by_status storage status api)
  serve c (put_task id r) api = Api.update_task storage id r api
  serve c (delete_task id) api = done (Api.delete_task storage id api)
  serve c get_info api = done (Api.get_cluster_info storage c api)
  serve c get_stats api = Api.get_stats api

  unfoldable pub serve_all :
      List (Context × Request) → Api.Api S → Outcome (List Response × Api.Api S)
  unfolding serve
  serve_all [] api = done ([], api)
  serve_all ((c, q) ∷ rest) api =
      serve c q api >>= λ (r, api'). serve_all rest api' >>= λ (rs, api''). done (r ∷ rs, api'')
