-- ===== src/Queue/Change.antt =====
-- What Update does between Lock and Unlock.
use mathlib.Core.List.Perm
use mathlib.Core.Path.{fun_ext, ap₂, subst}
use distributed_grpc_task_ma.Prelude.{
  ℕ, ◌<◌, ◌≡◌, ◌≢◌, refl, ap, sym, ◌∙◌, String, ◌∷◌, Perm, Option, none, some, length, set, map,
  arith, if◌then◌else◌, str_eq, eq_iff, length-perm, trade, map-set, length-map, get_or-map,
}
use distributed_grpc_task_ma.Prelude.Maps.{find}
use distributed_grpc_task_ma.Prelude.Outcome.{Yields, Yields-weaken}
use distributed_grpc_task_ma.Types.{Task}
use distributed_grpc_task_ma.Heap
use distributed_grpc_task_ma.Heap.{parent}
use distributed_grpc_task_ma.Heap.Order.{IsHeap, IsOpenState, Shuffled}
use distributed_grpc_task_ma.Heap.Ops.{settle_restores}
use distributed_grpc_task_ma.Queue.{
  PriorityQueue, rank, locked, methods, write, update_locked, heap_fix,
}
use distributed_grpc_task_ma.Queue.Ordering.{precedes-IsOrder}
use distributed_grpc_task_ma.Queue.Linked.{
  address, item_at, queue-Behaves, IsLinked, Shuffled-IsKept, IsValid, task_of, tasks, tasks-perm,
  deref, named, named-IsSame,
}
use distributed_grpc_task_ma.Queue.Insert.{len-done}
use distributed_grpc_task_ma.Queue.Drop.{address-distinct}

-- `r` is `q` with `task` in place of the task of the item at `p`
pub record IsUpdated (q : PriorityQueue) (task : Task) (p : ℕ) (r : PriorityQueue) : Type 0 where
  pub valid : IsValid r
  pub replaced : Perm (task_of q p ∷ tasks r) (task ∷ tasks q)
  pub found : (id : String) → named r id ≡ (if str_eq task.id id then some task else named q id)
  pub mutex : r.mu ≡ q.mu

module _ (q : PriorityQueue) (v : IsValid q) (task : Task) (i : ℕ) (hi : i < length q.items) where
  abbrev p : ℕ
  p = address q i

  abbrev changed : PriorityQueue
  changed = record q {
    cells = write q.cells p (record (q.cells p) { task = task; priority = task.priority });
  }

  distinct : (c : ℕ) → c < length q.items → address q c ≡ p → c ≡ i
  distinct c hc = address-distinct q c i v.linked hc hi

  changed-IsOpenState : IsOpenState queue-Behaves (length q.items) changed i
  changed-IsOpenState =
      let key = λ (c : ℕ). rank (item_at q c) in
      record {
        inside = hi;
        edges = λ c pos lt ne ne'. ground (arith, distinct c, distinct (parent c), v.ordered c);
        bridged = λ c pos lt e below le. ground (
          arith,
          distinct c,
          distinct (parent i),
          v.ordered c,
          v.ordered i,
          precedes-IsOrder.trans (key (parent i)) (key i) (key c),
        );
      }

  tasks-changed : Perm (task_of q p ∷ tasks changed) (task ∷ tasks q)
  tasks-changed =
      let written : tasks changed ≡ set (tasks q) i task =
        ap₂ map (fun_ext λ a. ground arith) refl ∙ map-set q.items (task_of q) i task hi distinct in
      rw written (
        rw (get_or-map (task_of q) q.items i task hi) at
          (trade (tasks q) i task task (rw length-map hi)))

  module _ (mapped : find task.id q.task_map ≡ some p) where
    name_of_p : (q.cells p).task.id ≡ task.id
    name_of_p = (v.linked.mapped task.id p mapped).3

    deref-changed :
        (id : String) (o : Option ℕ)
        → find id q.task_map ≡ o
        → deref (task_of changed) o ≡ (if str_eq task.id id then some task else deref (task_of q) o)
    deref-changed id none e = ground (arith, eq_iff task.id id, mapped)
    deref-changed id (some a) e =
        let (c, hc, live, name) = v.linked.mapped id a e in
        ground (arith, eq_iff task.id id, name_of_p)

    named-changed :
        (id : String) → named changed id ≡ (if str_eq task.id id then some task else named q id)
    named-changed id = deref-changed id (find id q.task_map) refl

    changed-IsLinked : IsLinked changed
    changed-IsLinked = record {
      indexed = λ c h. ground (arith, v.linked.indexed c h);
      ranked = λ c h. ground (arith, v.linked.ranked c h);
      allocated = v.linked.allocated;
      mapped = λ id a e.
          let (c, hc, live, name) = v.linked.mapped id a e in
          (c, hc, live, ground (arith, name_of_p));
    }

    Shuffled-IsUpdated :
        (r : PriorityQueue)
        → IsHeap queue-Behaves (length q.items) r
        → Shuffled queue-Behaves (length q.items) changed r
        → IsUpdated q task p r
    Shuffled-IsUpdated r heap shuffled =
        let kept = Shuffled-IsKept (omega arith) shuffled in
        record {
          valid = record {
            linked = kept.linked changed-IsLinked;
            ordered = rw (length-perm kept.perm) heap;
          };
          replaced =
              Perm.trans (Perm.cons (task_of q p) (tasks-perm kept.same kept.perm)) tasks-changed;
          found = λ id. named-IsSame id kept.same ∙ named-changed id;
          mutex = kept.same.mu;
        }

    fix_lem : q.mu ≢ locked → Yields (IsUpdated q task p) (Heap.fix methods changed i)
    unfolding Heap.fix
    fix_lem free = rw (len-done changed free) (
        Yields-weaken
          (settle_restores precedes-IsOrder queue-Behaves (length q.items) changed i (omega arith)
            changed-IsOpenState)
          λ r t. Shuffled-IsUpdated r t.0 t.1)

    update_mapped : q.mu ≢ locked → Yields (IsUpdated q task p) (update_locked q task)
    unfolding update_locked
    update_mapped free =
        rw (mapped, update_locked)
          (subst (λ o. Yields (IsUpdated q task p) (heap_fix changed o))
            (sym (v.linked.indexed i hi)) (fix_lem free))

-- Where no caller holds the lock, what Update does between Lock and Unlock puts the task in the place
-- of the one that its id is mapped to: the queue is valid again and holds exactly the other tasks and
-- the new one, which is found under the id, and the other ids lead where they did.
pub update_locked_lem :
    (q : PriorityQueue) (task : Task) (p : ℕ)
    → IsValid q
    → q.mu ≢ locked
    → find task.id q.task_map ≡ some p
    → Yields (IsUpdated q task p) (update_locked q task)
update_locked_lem q task p v free e =
    let (i, hi, live, name) = v.linked.mapped task.id p e in
    subst (λ a. Yields (IsUpdated q task a) (update_locked q task)) live
      (update_mapped q v task i hi (e ∙ ap some (sym live)) free)
