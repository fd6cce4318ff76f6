-- ===== src/Storage/Redis/Model.antt =====
-- What RedisStorage promises for tasks: a map from ids to tasks and a list of the pending ones. The same
-- operations stand here on that model and on the storage.
use distributed_grpc_task_ma.Prelude.{
  String, Bool, true, false, List, [], ◌∷◌, Option, none, some, ◌≡◌,
}
use distributed_grpc_task_ma.Prelude.Effects.{Result, ok, err}
use distributed_grpc_task_ma.Types.{Task}
use distributed_grpc_task_ma.Storage.Redis.{
  RedisClient, Json, save_task, update_task, get_task, delete_task, save_to_queue,
  remove_from_queue, get_queue_tasks,
}
use distributed_grpc_task_ma.Storage.Redis.Server.{written}
use distributed_grpc_task_ma.Storage.Redis.Pending.{drop_named}

pub data Op : Type 0 where
  saves updates queues : Task → Op
  reads deletes unqueues : String → Op
  lists : Op

-- what a caller sees of an operation
pub data Seen : Type 0 where
  finished : Bool → Seen
  found : Option Task → Seen
  listed : Option (List Task) → Seen

pub record Model : Type 0 where
  pub tasks : String → Option Task
  pub queue : List Task

unfoldable pub act : Op → Model → Seen × Model
act (saves t) m = (finished true, record m { tasks = written t.id (some t) m.tasks })
act (updates t) m = (finished true, record m { tasks = written t.id (some t) m.tasks })
act (queues t) m = (finished true, record m { queue = t ∷ m.queue })
act (reads id) m = (found (m.tasks id), m)
act (deletes id) m = (finished true, record m { tasks = written id none m.tasks })
act (unqueues id) m = (finished true, record m { queue = drop_named id m.queue })
act lists m = (listed (some m.queue), m)

unfoldable pub run_model : List Op → Model → List Seen
run_model [] m = []
run_model (o ∷ ops) m = (act o m).0 ∷ run_model ops (act o m).1

abbrev succeeds : {A : Type 0} → Result A → Bool
succeeds (ok a) = true
succeeds (err e) = false

abbrev pub or_none : Result (Option Task) → Option Task
or_none (ok u) = u
or_none (err e) = none

abbrev value : {A : Type 0} → Result A → Option A
value (ok a) = some a
value (err e) = none

module _ {R : Type 0} (r : RedisClient R) (j : Json) where
  unfoldable pub step : Op → R → Seen × R
  step (saves t) s = let (u, s') = save_task r j t s in (finished (succeeds u), s')
  step (updates t) s = let (u, s') = update_task r j t s in (finished (succeeds u), s')
  step (queues t) s = let (u, s') = save_to_queue r j t s in (finished (succeeds u), s')
  step (reads id) s = let (u, s') = get_task r j id s in (found (or_none u), s')
  step (deletes id) s = let (u, s') = delete_task r j id s in (finished (succeeds u), s')
  step (unqueues id) s = let (u, s') = remove_from_queue r j id s in (finished (succeeds u), s')
  step lists s = let (u, s') = get_queue_tasks r j s in (listed (value u), s')

  unfoldable pub run : List Op → R → List Seen
  run [] s = []
  run (o ∷ ops) s = (step o s).0 ∷ run ops (step o s).1

  -- JSON decodes what it encodes for the task
  abbrev pub RoundTrips : Task → Type 0
  RoundTrips t = (d : String) × (j.marshal_task t ≡ ok d) × (j.unmarshal_task d ≡ ok t)

  -- for the task that the operation writes, if it writes one
  abbrev pub IsEncodable : Op → Type 0
  IsEncodable (saves t) = RoundTrips t
  IsEncodable (updates t) = RoundTrips t
  IsEncodable (queues t) = RoundTrips t
  IsEncodable (reads id) = Unit {0}
  IsEncodable (deletes id) = Unit {0}
  IsEncodable (unqueues id) = Unit {0}
  IsEncodable lists = Unit {0}

  abbrev pub AreEncodable : List Op → Type 0
  AreEncodable [] = Unit {0}
  AreEncodable (o ∷ ops) = IsEncodable o × AreEncodable ops
