-- ===== src/Storage/Redis/View.antt =====
-- What RedisStorage shows of a server's texts and lists: its tasks and the list of the pending ones.
use mathlib.Core.Path.{fun_ext}
use text.Mathlib.TextEquality.{eq_iff}
use text.Mathlib.TextLemmas.{append_cancel_left}
use distributed_grpc_task_ma.Prelude.{
  ◌≡◌, refl, ap, ◌∙◌, String, List, [], Option, none, some, str_eq, arith, Bool-cases, inl, inr,
}
use distributed_grpc_task_ma.Prelude.Effects.{ok, err}
use distributed_grpc_task_ma.Types.{Task}
use distributed_grpc_task_ma.Storage.Redis.{RedisClient, Json, task_key, queue_key, decode_all}
use distributed_grpc_task_ma.Storage.Redis.Server.{IsServer, written}
use distributed_grpc_task_ma.Storage.Redis.Tasks.{written-other, task_key-queue_key}
use distributed_grpc_task_ma.Storage.Redis.Pending.{stored}
use distributed_grpc_task_ma.Storage.Redis.Model.{Model}

task_key-eq : (a b : String) → str_eq (task_key a) (task_key b) ≡ str_eq a b
task_key-eq a b = elim (Bool-cases (str_eq a b)) [
  | inl q ↦ rw (q, (eq_iff (task_key a) (task_key b)).1 (ap task_key ((eq_iff a b).0 q))) refl
  | inr q ↦
      ground (arith, eq_iff (task_key a) (task_key b), eq_iff a b, append_cancel_left "task:" a b)
]

module _ {R : Type 0} (r : RedisClient R) (j : Json) where
  unfoldable pub decoded : Option String → Option Task
  decoded none = none
  decoded (some d) = elim (j.unmarshal_task d) [ ok t ↦ some t | err e ↦ none ]

  module _ (server : IsServer r) where
    abbrev pub contents : R → String → Option Task
    contents s id = decoded (server.texts s (task_key id))

    abbrev pub view : R → Model
    view s = record { tasks = contents s; queue = stored r j server s }

    pub contents-written :
        (s s' : R) (id : String) (o : Option String)
        → server.texts s' ≡ written (task_key id) o (server.texts s)
        → contents s' ≡ written id (decoded o) (contents s)
    contents-written s s' id o e = fun_ext λ k.
        rw (e, task_key-eq)
          (elim (Bool-cases (str_eq id k)) [ inl q ↦ rw (q) refl | inr q ↦ rw (q) refl ])

    pub contents-kept : (s s' : R) → server.texts s' ≡ server.texts s → contents s' ≡ contents s
    contents-kept s s' e = ap (λ f k. decoded (f (task_key k))) e

    pub stored-kept :
        (s s' : R)
        → server.lists s' queue_key ≡ server.lists s queue_key
        → stored r j server s' ≡ stored r j server s
    stored-kept s s' e = ap (decode_all j.unmarshal_task) e

    pub view_lem :
        (s : R) (f : String → Option Task) (ts : List Task)
        → contents s ≡ f
        → stored r j server s ≡ ts
        → view s ≡ record { tasks = f; queue = ts }
    view_lem s f ts p q = rw (p, q) refl

    pub view-kept :
        (s s' : R)
        → server.texts s' ≡ server.texts s
        → server.lists s' ≡ server.lists s
        → view s' ≡ view s
    view-kept s s' p p' =
        view_lem s' _ _ (contents-kept s s' p) (stored-kept s s' (ap (λ f. f queue_key) p'))

    -- a command that writes or deletes the text of a task
    pub view-written :
        (s s' : R) (id : String) (o : Option String)
        → server.texts s' ≡ written (task_key id) o (server.texts s)
        → server.lists s' ≡ written (task_key id) [] (server.lists s)
        → view s' ≡ record (view s) { tasks = written id (decoded o) (contents s) }
    view-written s s' id o p q = view_lem s' _ _ (contents-written s s' id o p) (
        stored-kept s s' (
          ap (λ f. f queue_key) q
          ∙ written-other (task_key id) queue_key [] (server.lists s) (task_key-queue_key id)))

    pub free-written :
        (s s' : R) (id : String) (o : Option String)
        → server.texts s queue_key ≡ none
        → server.texts s' ≡ written (task_key id) o (server.texts s)
        → server.texts s' queue_key ≡ none
    free-written s s' id o free p =
        ap (λ f. f queue_key) p
        ∙ written-other (task_key id) queue_key o (server.texts s) (task_key-queue_key id)
        ∙ free
