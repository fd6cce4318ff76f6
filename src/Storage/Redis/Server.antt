-- ===== src/Storage/Redis/Server.antt =====
-- What a Redis server that answers does for the commands that RedisStorage uses, as its manual says.
-- A key holds a text or a list; what is kept here are the texts that do not expire. A command for lists
-- is an error at a key that holds a text, and SET and DEL drop a list that the key holds.
use Prim.Native.String.{String}
use distributed_grpc_task_ma.Prelude.{
  ◌≡◌, List, [], ◌∷◌, Option, none, some, pos, negsuc, str_eq, if◌then◌else◌,
}
use distributed_grpc_task_ma.Prelude.Effects.{Answers, Error, err}
use distributed_grpc_task_ma.Storage.Redis.{RedisClient}

abbrev pub written : {A : Type 0} → String → A → (String → A) → String → A
written k a f j = if str_eq k j then a else f j

-- `LREM key 1 d`
unfoldable pub drop_first : String → List String → List String
drop_first d [] = []
drop_first d (e ∷ es) = let rest = drop_first d es in if str_eq e d then es else e ∷ rest

pub record IsServer {R : Type 0} (r : RedisClient R) : Type 0 where
  pub texts : R → String → Option String
  pub lists : R → String → List String
  pub set_law :
      (k d : String) (s : R)
      → Answers
          (λ _ s'. (texts s' ≡ written k (some d) (texts s)) × (lists s' ≡ written k [] (lists s)))
          (r.set k d (pos 0) s)
  pub get_law :
      (k d : String) (s : R)
      → texts s k ≡ some d
      → Answers (λ d' s'. (d' ≡ d) × (texts s' ≡ texts s) × (lists s' ≡ lists s)) (r.get k s)
  -- the reply nil, or an error for a list, which go-redis both returns as errors
  pub missing_law :
      (k : String) (s : R)
      → texts s k ≡ none
      → (e : Error) × (s' : R) × (r.get k s ≡ (err e, s'))
        × (texts s' ≡ texts s)
        × (lists s' ≡ lists s)
  pub del_law :
      (k : String) (s : R)
      → Answers
          (λ _ s'. (texts s' ≡ written k none (texts s)) × (lists s' ≡ written k [] (lists s)))
          (r.del k s)
  pub lpush_law :
      (k d : String) (s : R)
      → texts s k ≡ none
      → Answers
          (λ _ s'. (texts s' ≡ texts s) × (lists s' ≡ written k (d ∷ lists s k) (lists s)))
          (r.lpush k d s)
  pub lrange_law :
      (k : String) (s : R)
      → texts s k ≡ none
      → Answers
          (λ ds s'. (ds ≡ lists s k) × (texts s' ≡ texts s) × (lists s' ≡ lists s))
          (r.lrange k (pos 0) (negsuc 0) s)
  pub lrem_law :
      (k d : String) (s : R)
      → texts s k ≡ none
      → Answers
          (λ _ s'.
            (texts s' ≡ texts s) × (lists s' ≡ written k (drop_first d (lists s k)) (lists s)))
          (r.lrem k (pos 1) d s)
