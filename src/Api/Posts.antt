-- ===== src/Api/Posts.antt =====
-- What a POST of a task comes to, with the queue of the program.
use Prim.Native.String.{◌++◌}
use distributed_grpc_task_ma.Prelude.{
  ◌≡◌, ◌≢◌, refl, not, length, leb, String, Bool-cases, inl, inr, if◌then◌else◌,
}
use distributed_grpc_task_ma.Prelude.Effects.{ok, err, error_text, Result-cases}
use distributed_grpc_task_ma.Prelude.Outcome.{Outcome, done, hangs, ◌>>=◌}
use distributed_grpc_task_ma.Types.{
  Task, new_task, new_task_with_dependencies, new_task_with_timeout,
}
use distributed_grpc_task_ma.Queue.{locked}
use distributed_grpc_task_ma.Queue.Linked.{tasks}
use distributed_grpc_task_ma.Storage.{Storage}
use distributed_grpc_task_ma.Scheduler
use distributed_grpc_task_ma.Scheduler.{submit}
use distributed_grpc_task_ma.Scheduler.Returns.{submit-hangs}
use distributed_grpc_task_ma.Api.{
  Api as ApiState, Context, Response, TaskRequest, DependenciesRequest, TimeoutRequest, failure,
  submit_task, submit_task_with_dependencies, submit_task_with_timeout, created, seconds_of,
}

abbrev pub failed : String → Response
failed text = record { status = 500; body = failure text }

module _ {S : Type 0} (storage : Storage S) where
  -- the answer to the submission of a task, if there is one
  abbrev pub answer : Task → ApiState S → Outcome (Response × ApiState S)
  answer t api =
      let s = api.scheduler in
      if leb s.max_queue_size (length (tasks s.queue))
      then done (failed "queue is full, cannot accept new tasks", api)
      else if not s.is_leader
      then done (failed "only leader can submit tasks", api)
      else elim (storage.save_task t s.world).0 [
        | ok u ↦ hangs
        | err e ↦ done (
          failed ("failed to save task" ++ ": " ++ error_text e),
          record api { scheduler = record s { world = (storage.save_task t s.world).1 } },
        )
      ]

  submit-answer :
      (t : Task) (api : ApiState S)
      → api.scheduler.queue.mu ≢ locked
      → (submit storage t api.scheduler >>= λ q. done (created q api)) ≡ answer t api
  unfolding created error_text
  submit-answer t api free =
      let s = api.scheduler in
      rw (submit-hangs storage t s free)
        (elim (Bool-cases (leb s.max_queue_size (length (tasks s.queue)))) [
          | inl e ↦ simp (e) refl
          | inr e ↦ elim (Bool-cases s.is_leader) [
            | inr k ↦ simp (e, k) refl
            | inl k ↦ elim (Result-cases (storage.save_task t s.world).0) [
              | inl (u, o) ↦ simp (e, k, o) refl
              | inr (x, o) ↦ simp (e, k, o) refl
            ]
          ]
        ])

  -- While no writer holds the lock of the queue, a POST of a task, in any of the three forms, is answered
  -- 500 if the queue is full, if the scheduler does not lead, or if the storage does not take the task;
  -- else it is never answered.
  pub submit_task-answer :
      (c : Context) (q : TaskRequest) (q' : DependenciesRequest) (q'' : TimeoutRequest)
      (api : ApiState S)
      → api.scheduler.queue.mu ≢ locked
      → (submit_task storage c (ok q) api ≡ answer (new_task c.id c.now q.priority q.payload) api)
        × (submit_task_with_dependencies storage c (ok q') api
            ≡ answer
                (new_task_with_dependencies c.id c.now q'.priority q'.payload q'.dependencies)
                api)
        × (submit_task_with_timeout storage c (ok q'') api
            ≡ answer
                (new_task_with_timeout c.id c.now q''.priority q''.payload (seconds_of q''.timeout))
                api)
  unfolding submit_task submit_task_with_dependencies submit_task_with_timeout Scheduler.submit_task
      Scheduler.submit_task_with_dependencies Scheduler.submit_task_with_timeout
  submit_task-answer c q q' q'' api free =
      (submit-answer _ api free, submit-answer _ api free, submit-answer _ api free)
