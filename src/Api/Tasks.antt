-- ===== src/Api/Tasks.antt =====
-- What a client reads back of a task that it put, with tasks in Redis.
use distributed_grpc_task_ma.Prelude.{
  ◌≡◌, refl, ap, ◌∙◌, ◌+◌, ◌*◌, ◌≤◌, ◌<◌, String, Option, none, some, ℤ, pos, negsuc, sub_ℕ, arith,
}
use distributed_grpc_task_ma.Prelude.Effects.{ok, Answers-result}
use distributed_grpc_task_ma.Prelude.Outcome.{done, Yields, yields}
use distributed_grpc_task_ma.Types.{Task, Duration}
use distributed_grpc_task_ma.Storage.{Storage}
use distributed_grpc_task_ma.Storage.Redis.{RedisClient, Json, redis_storage, task_key, queue_key}
use distributed_grpc_task_ma.Storage.Redis
use distributed_grpc_task_ma.Storage.Redis.Server.{IsServer}
use distributed_grpc_task_ma.Storage.Redis.Model.{RoundTrips}
use distributed_grpc_task_ma.Storage.Redis.Tasks.{get_task-stored, save_task-written, written-same}
use distributed_grpc_task_ma.Scheduler.Queries
use distributed_grpc_task_ma.Api.{
  Api as ApiState, UpdateRequest, task, merged, get_task, update_task, update_found, or_old,
  seconds_of,
}

-- what becomes of a field for which the request may give a value
abbrev pub Becomes : {A : Type 0} → Option A → A → A → Type 0
Becomes none old now = now ≡ old
Becomes (some a) old now = now ≡ a

-- the longest duration, for a number of seconds whose nanoseconds an int64 holds
abbrev pub Lasts : Option ℤ → Option Duration → Option Duration → Type 0
Lasts none old now = now ≡ old
Lasts (some (pos n)) old now = n ≤ 9223372036 → now ≡ some (pos (n * 1000000000))
Lasts (some (negsuc n)) old now = n < 9223372036 → now ≡ some (sub_ℕ 0 ((n + 1) * 1000000000))

-- the task `u` is `t` but for the fields that the request gives
pub record IsChanged (q : UpdateRequest) (t u : Task) : Type 0 where
  pub priority : Becomes q.priority t.priority u.priority
  pub payload : Becomes q.payload t.payload u.payload
  pub status : Becomes q.status t.status u.status
  pub dependencies : Becomes q.dependencies t.dependencies u.dependencies
  pub max_duration : Lasts q.timeout t.max_duration u.max_duration
  pub same_id : u.id ≡ t.id
  pub same_created_at : u.created_at ≡ t.created_at
  pub same_started_at : u.started_at ≡ t.started_at
  pub same_completed_at : u.completed_at ≡ t.completed_at
  pub same_worker_id : u.worker_id ≡ t.worker_id
  pub same_error : u.error ≡ t.error
  pub same_timeout : u.timeout ≡ t.timeout

or_old-Becomes : {A : Type 0} (o : Option A) (a : A) → Becomes o a (or_old a o)
or_old-Becomes none a = refl
or_old-Becomes (some b) a = refl

lasts : Option Duration → Option ℤ → Option Duration
unfolding seconds_of
lasts old o = elim o [ none ↦ old | some n ↦ some (seconds_of n) ]

lasts-Lasts : (o : Option ℤ) (old : Option Duration) → Lasts o old (lasts old o)
unfolding lasts seconds_of
lasts-Lasts none old = refl
lasts-Lasts (some (pos n)) old = λ h. ground (arith)
lasts-Lasts (some (negsuc n)) old = λ h. ground (arith)

merged-IsChanged : (q : UpdateRequest) (t : Task) → IsChanged q t (merged q t)
unfolding merged lasts
merged-IsChanged q t = record {
  priority = or_old-Becomes q.priority t.priority;
  payload = or_old-Becomes q.payload t.payload;
  status = or_old-Becomes q.status t.status;
  dependencies = or_old-Becomes q.dependencies t.dependencies;
  max_duration = lasts-Lasts q.timeout t.max_duration;
  same_id = refl;
  same_created_at = refl;
  same_started_at = refl;
  same_completed_at = refl;
  same_worker_id = refl;
  same_error = refl;
  same_timeout = refl;
}

update_task-found :
    {S : Type 0} (storage : Storage S) (id : String) (q : UpdateRequest) (t : Task) (w w' : S)
    (api : ApiState S)
    → storage.get_task id api.scheduler.world ≡ (ok (some t), w)
    → storage.update_task (merged q t) w ≡ (ok tt, w')
    → update_task storage id (ok q) api
      ≡ done (
        record { status = 200; body = task (some (merged q t)) },
        record api { scheduler = record api.scheduler { world = w' } },
      )
unfolding update_task update_found Queries.get_task Queries.update_task
update_task-found storage id q t w w' api e e' = rw (e, e', Queries.update_task) refl

module _ {R : Type 0} (r : RedisClient R) (j : Json) (server : IsServer r) where
  api_get_task-stored :
      (id d : String) (t : Task) (api : ApiState R)
      → server.texts api.scheduler.world (task_key id) ≡ some d
      → j.unmarshal_task d ≡ ok t
      → (get_task (redis_storage r j) id api).0 ≡ record { status = 200; body = task (some t) }
  unfolding get_task Queries.get_task redis_storage
  api_get_task-stored id d t api e e' =
      let (u, s, q, k) =
        Answers-result (get_task-stored r j server id d t api.scheduler.world e e') in
      rw (q, k.0) refl

  -- If Redis answers and holds a text that decodes to the task with this id, and JSON decodes what it
  -- encodes for every task that differs from it in exactly the given fields, then the PUT is answered 200
  -- with a task that does, and a GET of the id gives the same answer.
  pub get_task-update_task :
      (q : UpdateRequest) (t : Task) (d : String) (api : ApiState R)
      → server.texts api.scheduler.world (task_key t.id) ≡ some d
      → j.unmarshal_task d ≡ ok t
      → ((u : Task) → IsChanged q t u → RoundTrips r j u)
      → Yields
          (λ (a, api').
            (u : Task) × IsChanged q t u
            × (a ≡ record { status = 200; body = task (some u) })
            × ((get_task (redis_storage r j) t.id api').0 ≡ a))
          (update_task (redis_storage r j) t.id (ok q) api)
  unfolding redis_storage Redis.update_task merged
  get_task-update_task q t d api e u back =
      let (d', m, u') = back (merged q t) (merged-IsChanged q t) in
      let (o, s, k, p) =
        Answers-result (get_task-stored r j server t.id d t api.scheduler.world e u) in
      let (x, s', k', w) = Answers-result (save_task-written r j server (merged q t) d' s m) in
      rw (update_task-found (redis_storage r j) t.id q t s s' api (k ∙ ap (λ u. (ok u, s)) p.0) k')
        (yields (
          merged q t,
          merged-IsChanged q t,
          refl,
          api_get_task-stored t.id d' (merged q t) _
              (ap (λ f. f (task_key t.id)) w.0
                ∙ written-same (task_key t.id) (some d') (server.texts s))
              u',
        ))
