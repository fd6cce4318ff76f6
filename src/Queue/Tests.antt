-- ===== src/Queue/Tests.antt =====
-- Runs of the queue, and the theorems about it at concrete queues.
use distributed_grpc_task_ma.Prelude.{
  ℕ, ◌≡◌, ◌≢◌, ◌<◌, zero, suc, refl, eq_iff, length, String, List, [], ◌∷◌, pos, some, none, arith,
  Perm, ◌==◌, if◌then◌else◌,
}
use distributed_grpc_task_ma.Prelude.Maps.{find, put, remove as map_remove}
use distributed_grpc_task_ma.Prelude.Outcome.{Outcome, done, hangs, ◌>>=◌, Yields}
use distributed_grpc_task_ma.Types.{Task, Priority, Time}
use distributed_grpc_task_ma.Heap
use distributed_grpc_task_ma.Queue.Linked.{address, item_at, IsValid, IsOrdered, IsFirst, tasks}
use distributed_grpc_task_ma.Queue.Insert.{IsAdded, add_locked_lem}
use distributed_grpc_task_ma.Queue.Take.{
  IsWithout, TakesNamed, remove_locked_lem, remove_by_id_locked_lem,
}
use distributed_grpc_task_ma.Queue.Change.{IsUpdated, update_locked_lem}
use distributed_grpc_task_ma.Queue.Locking.{add-hangs, remove-hangs}
use distributed_grpc_task_ma.Queue.Bag.{Call, adds, takes, peeks, counts, Runs, bag_of}
use distributed_grpc_task_ma.Queue.Refine.{run, view, run-Runs}
use distributed_grpc_task_ma.Queue.Sorting.{fill, drain, IsInOrder, drain-fill}
use distributed_grpc_task_ma.Queue.{
  precedes, locked, add, remove, PriorityQueue, TaskItem, unlocked, len, less, swap, push, pop,
  new_priority_queue, add_locked, remove_locked, get_all, remove_by_id_locked, update_locked,
}

abbrev pub task : String → Priority → Time → Task
task id p at = record {
  id = id;
  priority = p;
  payload = [];
  created_at = at;
  status = pos 0;
  started_at = none;
  completed_at = none;
  worker_id = "";
  error = "";
  dependencies = [];
  timeout = none;
  max_duration = none;
}

abbrev pub blank : ℕ → TaskItem
blank p = record { task = task "" (pos 0) 0; priority = pos 0; index = none }

abbrev session : Outcome (List Task)
session = do
  q ← new_priority_queue blank
  q ← add_locked q (task "a" (pos 0) 1)
  q ← add_locked q (task "b" (pos 2) 2)
  q ← add_locked q (task "c" (pos 2) 1)
  q ← add_locked q (task "d" (pos 1) 0)
  (t, q) ← remove_locked q
  q ← update_locked q (task "a" (pos 2) 0)
  (u, q) ← remove_by_id_locked q "d"
  get_all q

session_result : session ≡ done (task "a" (pos 2) 0 ∷ task "b" (pos 2) 2 ∷ [])
unfolding new_priority_queue add_locked remove_locked update_locked remove_by_id_locked get_all
    Heap.init Heap.push Heap.pop Heap.fix Heap.remove len less swap push pop precedes find put
    map_remove
session_result = refl

-- a queue of two tasks, the one at the root added last
abbrev pub pair : PriorityQueue
pair = record {
  mu = unlocked;
  items = 1 ∷ 0 ∷ [];
  task_map = ("a", 0) ∷ ("b", 1) ∷ [];
  cells = λ p.
      if p == 0
      then record { task = task "a" (pos 0) 1; priority = pos 0; index = some 1 }
      else record { task = task "b" (pos 2) 2; priority = pos 2; index = some 0 };
  next = 2;
}

pair-mapped :
    (id : String) (p : ℕ)
    → find id pair.task_map ≡ some p
    → (i : ℕ) × (i < length pair.items) × (address pair i ≡ p) × ((pair.cells p).task.id ≡ id)
unfolding find
pair-mapped id zero e = (1, omega arith, refl, ground (arith, eq_iff "a" id, eq_iff "b" id))
pair-mapped id (suc zero) e = (0, omega arith, refl, ground (arith, eq_iff "a" id, eq_iff "b" id))
pair-mapped id (suc (suc p)) e = absurd (ground (arith, eq_iff "a" id, eq_iff "b" id))

pair-positions :
    (i : ℕ)
    → i < 2
    → ((item_at pair i).index ≡ some i)
      × ((item_at pair i).priority ≡ (item_at pair i).task.priority)
      × (address pair i < 2)
pair-positions zero h = (refl, refl, omega arith)
pair-positions (suc zero) h = (refl, refl, omega arith)
pair-positions (suc (suc i)) h = absurd (omega arith)

pair-IsOrdered : IsOrdered pair
unfolding precedes
pair-IsOrdered zero p lt le = absurd (omega arith)
pair-IsOrdered (suc zero) p lt le = refl
pair-IsOrdered (suc (suc c)) p lt le = absurd (omega arith)

pub pair-IsValid : IsValid pair
pair-IsValid = record {
  linked = record {
    indexed = λ i h. (pair-positions i h).0;
    ranked = λ i h. (pair-positions i h).1;
    allocated = λ i h. (pair-positions i h).2;
    mapped = pair-mapped;
  };
  ordered = pair-IsOrdered;
}

pub pair-free : pair.mu ≢ locked
pair-free = λ e. cc

add_locked_lem_example :
    Yields (IsAdded pair (task "c" (pos 1) 3) pair-IsValid) (add_locked pair (task "c" (pos 1) 3))
add_locked_lem_example = add_locked_lem pair (task "c" (pos 1) 3) pair-IsValid pair-free

remove_locked_lem_example :
    Yields
      (λ r. (r.0 ≡ some (task "b" (pos 2) 2)) × IsFirst pair × IsWithout pair 0 r.1)
      (remove_locked pair)
remove_locked_lem_example = remove_locked_lem pair pair-IsValid pair-free (omega arith)

remove_by_id_locked_lem_example : Yields (TakesNamed pair "b" 1) (remove_by_id_locked pair "b")
unfolding find
remove_by_id_locked_lem_example = remove_by_id_locked_lem pair pair-IsValid pair-free "b" 1 refl

update_locked_lem_example :
    Yields (IsUpdated pair (task "a" (pos 5) 1) 0) (update_locked pair (task "a" (pos 5) 1))
unfolding find
update_locked_lem_example =
    update_locked_lem pair (task "a" (pos 5) 1) 0 pair-IsValid pair-free refl

add-hangs_example : add pair (task "c" (pos 1) 3) ≡ hangs
add-hangs_example = add-hangs pair (task "c" (pos 1) 3)

remove-hangs_example : remove pair ≡ (if length pair.items == 0 then done (none, pair) else hangs)
remove-hangs_example = remove-hangs pair refl

abbrev calls : List Call
calls = adds (task "a" (pos 0) 1) ∷ adds (task "b" (pos 2) 2) ∷ peeks ∷ takes ∷ counts ∷ []

run-Runs_example :
    Yields
      (λ (xs, r). Runs (bag_of []) calls xs (view r))
      (new_priority_queue blank >>= λ q. run calls q)
run-Runs_example = run-Runs blank calls

abbrev three : List Task
three = task "a" (pos 0) 1 ∷ task "b" (pos 2) 2 ∷ task "c" (pos 2) 1 ∷ []

drain-fill_example :
    Yields
      (λ (us, r). Perm us three × IsInOrder us × (tasks r ≡ []))
      (do q ← new_priority_queue blank; r ← fill three q; drain 3 r)
drain-fill_example = drain-fill blank three
