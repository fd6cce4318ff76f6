-- ===== src/Queue/Bag.antt =====
-- What a priority queue is to its caller: tasks without an order, of which one is given back that no other
-- comes before. Of equal tasks, and of tasks that were made at the same time, it may be any.
use mathlib.Core.List.Perm
use mathlib.Core.List.{Perm-prop}
use mathlib.Core.Quot
use mathlib.Core.Quot.Quotient
use mathlib.Core.Quot.Setoid.{Setoid}
use mathlib.Core.Quot.{Quot, Quot-set}
use native.Mathlib.Nat.{ℕ_set}
use distributed_grpc_task_ma.Prelude.{
  ℕ, ◌≡◌, false, List, [], ◌∷◌, Perm, Option, none, some, length, length-perm,
}
use distributed_grpc_task_ma.Types.{Task}
use distributed_grpc_task_ma.Queue.{precedes}
use distributed_grpc_task_ma.Queue.Linked.{task_rank}

abbrev same_tasks : Setoid {0, 0} (List Task)
same_tasks = record {
  r = Perm;
  iseqv = record {
    refl = Perm.refl;
    symm = λ a b p. Perm.symm p;
    trans = λ a b c p q. Perm.trans p q;
  };
}

abbrev pub Bag : Type 0
Bag = Quot (Perm {A = Task})

abbrev pub bag_of : List Task → Bag
bag_of = Quot.mk

unfoldable pub put : Task → Bag → Bag
put t = Quot.lift Quot-set (λ ts. bag_of (t ∷ ts)) λ ts us p. Quot.sound (Perm.cons t p)

unfoldable pub size : Bag → ℕ
size = Quot.lift ℕ_set length λ ts us p. length-perm p

pub exact : (ts us : List Task) → bag_of ts ≡ bag_of us → Perm ts us
exact ts us e = Quotient.exact same_tasks (λ a b. Perm-prop) e

-- the bag holds the task, with `rest` besides, and no task of the bag comes before it
pub record IsTop (t : Task) (b rest : Bag) : Type 0 where
  pub holds : b ≡ put t rest
  pub first :
      (u : Task) (others : Bag) → b ≡ put u others → precedes (task_rank u) (task_rank t) ≡ false

pub data Call : Type 0 where
  adds : Task → Call
  takes peeks counts : Call

pub data Seen : Type 0 where
  added : Seen
  gave : Option Task → Seen
  counted : ℕ → Seen

-- what a call may answer at the bag `b`, with the bag `c` after it
pub data Allows (b c : Bag) : Call → Seen → Type 0 where
  add : (t : Task) → c ≡ put t b → Allows b c (adds t) added
  take : (t : Task) → IsTop t b c → Allows b c takes (gave (some t))
  take_none : b ≡ bag_of [] → c ≡ b → Allows b c takes (gave none)
  peek : (t : Task) (rest : Bag) → IsTop t b rest → c ≡ b → Allows b c peeks (gave (some t))
  peek_none : b ≡ bag_of [] → c ≡ b → Allows b c peeks (gave none)
  count : (n : ℕ) → n ≡ size b → c ≡ b → Allows b c counts (counted n)

pub data Runs : Bag → List Call → List Seen → Bag → Type 0 where
  stop : {b : Bag} → Runs b [] [] b
  next :
      {b c d : Bag} {o : Call} {x : Seen} {os : List Call} {xs : List Seen}
      → Allows b c o x
      → Runs c os xs d
      → Runs b (o ∷ os) (x ∷ xs) d
