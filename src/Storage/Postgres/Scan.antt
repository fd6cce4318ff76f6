-- ===== src/Storage/Postgres/Scan.antt =====
-- rows.Scan of internal/storage/postgres_storage.go: the columns of a row go into the destinations one
-- after the other, and the first conversion that fails is the error.
use distributed_grpc_task_ma.Prelude.{◌≡◌, refl, ℕ, String, List, [], ◌∷◌, none}
use distributed_grpc_task_ma.Prelude.Effects.{Result, ok, err}
use distributed_grpc_task_ma.Types.{Task, NodeInfo, parse_priority, parse_status}
use distributed_grpc_task_ma.Storage.Postgres.Sql.{Scanner, TaskColumns, NodeColumns}

infixl 5 ◌>>=◌
abbrev pub ◌>>=◌ : {A B : Type 0} → Result A → (A → Result B) → Result B
ok a >>= f = f a
err e >>= f = err e

module _ (s : Scanner) where
  -- the last five columns, and what is made of the texts
  unfoldable pub scan_rest : String → String → List ℕ → String → TaskColumns → Result Task
  unfolding parse_priority parse_status
  scan_rest id priority payload status c = do
    created_at ← s.to_time c.created_at
    started_at ← s.to_null_time c.started_at
    completed_at ← s.to_null_time c.completed_at
    worker_id ← s.to_string c.worker_id
    error ← s.to_string c.error
    ok (record {
      id = id;
      priority = parse_priority priority;
      payload = payload;
      created_at = created_at;
      status = parse_status status;
      started_at = started_at;
      completed_at = completed_at;
      worker_id = worker_id;
      error = error;
      dependencies = [];
      timeout = none;
      max_duration = none;
    })

  unfoldable pub scan_task : TaskColumns → Result Task
  unfolding scan_rest
  scan_task c = do
    id ← s.to_string c.id
    priority ← s.to_string c.priority
    payload ← s.to_raw_message c.payload
    status ← s.to_string c.status
    scan_rest id priority payload status c

  -- in GetTasksByStatus the third destination is the status and the fourth the payload
  unfoldable pub scan_task_by_status : TaskColumns → Result Task
  unfolding scan_rest
  scan_task_by_status c = do
    id ← s.to_string c.id
    priority ← s.to_string c.priority
    status ← s.to_string c.payload
    payload ← s.to_raw_message c.status
    scan_rest id priority payload status c

  -- the status of a node has no column
  unfoldable pub scan_node : NodeColumns → Result NodeInfo
  scan_node c = do
    id ← s.to_string c.id
    address ← s.to_string c.address
    last_seen ← s.to_time c.last_seen
    is_leader ← s.to_bool c.is_leader
    ok (record {
      id = id;
      address = address;
      is_leader = is_leader;
      last_seen = last_seen;
      status = "";
    })

-- the loop over rows.Next
unfoldable pub scan_all : {C A : Type 0} → (C → Result A) → List C → Result (List A)
scan_all scan [] = ok []
scan_all scan (c ∷ cs) = do a ← scan c; as' ← scan_all scan cs; ok (a ∷ as')

-- the result, if there is one, satisfies `P`
abbrev pub Ensures : {A : Type 0} → (A → Type 0) → Result A → Type 0
Ensures P (ok a) = P a
Ensures P (err e) = Unit {0}

pub Ensures-bind :
    {A B : Type 0} (P : B → Type 0) (m : Result A) (f : A → Result B)
    → ((a : A) → m ≡ ok a → Ensures P (f a))
    → Ensures P (m >>= f)
Ensures-bind P (ok a) f k = k a refl
Ensures-bind P (err e) f k = tt
