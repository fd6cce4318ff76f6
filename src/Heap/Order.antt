-- ===== src/Heap/Order.antt =====
-- The contract of heap.Interface, and the heap order over a prefix of the elements.
use distributed_grpc_task_ma.Prelude.{
  ℕ, zero, suc, ◌≤◌, ◌<◌, ◌≡◌, inl, inr, Bool, true, false, Bool-cases, arith, ◌==◌, if◌then◌else◌,
}
use distributed_grpc_task_ma.Prelude.Outcome.{done}
use distributed_grpc_task_ma.Heap.{Interface, parent}

-- `before a b`: `a` must leave the heap before `b`
pub record IsOrder {K : Type 0} (before : K → K → Bool) : Type 0 where
  pub asym : (a b : K) → before a b ≡ true → before b a ≡ false
  pub trans : (a b c : K) → before b a ≡ false → before c b ≡ false → before c a ≡ false

-- What Less and Swap do, within bounds, to the keys that the elements are compared by.
pub record Behaves {S X K : Type 0} (h : Interface S X) (before : K → K → Bool) : Type 0 where
  pub size : S → ℕ
  pub key : S → ℕ → K
  pub exchange : S → ℕ → ℕ → S
  pub less-done :
      (s : S) (i j : ℕ) → i < size s → j < size s → h.less s i j ≡ done (before (key s i) (key s j))
  pub swap-done : (s : S) (i j : ℕ) → i < size s → j < size s → h.swap s i j ≡ done (exchange s i j)
  pub size-exchange : (s : S) (i j : ℕ) → size (exchange s i j) ≡ size s
  pub key-exchange :
      (s : S) (i j c : ℕ)
      → i < size s
      → j < size s
      → key (exchange s i j) c ≡ (if j == c then key s i else if i == c then key s j else key s c)

module _ {S X K : Type 0} {h : Interface S X} {before : K → K → Bool} (b : Behaves h before) where
  open b use {size, key, exchange}

  -- the element at `i` may stand above the one at `j`
  abbrev pub Above : S → ℕ → ℕ → Type 0
  Above s i j = before (key s j) (key s i) ≡ false

  -- among the first `n` elements, every edge whose parent is at `lo` or later is in order
  abbrev pub IsHeapFrom : ℕ → ℕ → S → Type 0
  IsHeapFrom lo n s = (c : ℕ) → 0 < c → c < n → lo ≤ parent c → Above s (parent c) c

  abbrev pub IsHeap : ℕ → S → Type 0
  IsHeap n s = IsHeapFrom 0 n s

  -- the edges past `i`, from its parent to its children, are in order
  abbrev pub IsBridged : ℕ → ℕ → S → ℕ → Type 0
  IsBridged lo n s i =
      (c : ℕ) → 0 < c → c < n → parent c ≡ i → 0 < i → lo ≤ parent i → Above s (parent i) c

  -- only the edge above `i` may be out of order
  pub record IsUpState (n : ℕ) (s : S) (i : ℕ) : Type 0 where
    pub inside : i < n
    pub edges : (c : ℕ) → 0 < c → c < n → (c ≡ i → ⊥) → Above s (parent c) c
    pub bridged : IsBridged 0 n s i

  -- only the edges below `i` may be out of order
  pub record IsDownState (lo n : ℕ) (s : S) (i : ℕ) : Type 0 where
    pub edges : (c : ℕ) → 0 < c → c < n → lo ≤ parent c → (parent c ≡ i → ⊥) → Above s (parent c) c
    pub bridged : IsBridged lo n s i

  -- only the edges above and below `i` may be out of order
  pub record IsOpenState (n : ℕ) (s : S) (i : ℕ) : Type 0 where
    pub inside : i < n
    pub edges : (c : ℕ) → 0 < c → c < n → (c ≡ i → ⊥) → (parent c ≡ i → ⊥) → Above s (parent c) c
    pub bridged : IsBridged 0 n s i

  -- `s'` comes from `s` by exchanges among the first `n` elements
  pub data Shuffled (n : ℕ) : S → S → Type 0 where
    still : {s : S} → Shuffled n s s
    moved : {s s' : S} (i j : ℕ) → i < n → j < n → Shuffled n (exchange s i j) s' → Shuffled n s s'

  pub Shuffled-size : {n : ℕ} {s s' : S} → Shuffled n s s' → size s' ≡ size s
  Shuffled-size still = omega arith
  Shuffled-size (moved {s = t} i j hi hj more) =
      omega (arith, Shuffled-size more, b.size-exchange t i j)

  pub Shuffled-trans : {n : ℕ} {s t u : S} → Shuffled n s t → Shuffled n t u → Shuffled n s u
  Shuffled-trans still q = q
  Shuffled-trans (moved i j hi hj p) q = moved i j hi hj (Shuffled-trans p q)

  pub Shuffled-weaken : {m n : ℕ} {s t : S} → m ≤ n → Shuffled m s t → Shuffled n s t
  Shuffled-weaken le still = still
  Shuffled-weaken le (moved i j hi hj p) =
      moved i j (omega arith) (omega arith) (Shuffled-weaken le p)

  -- the elements from `n` on stay in place
  pub Shuffled-key :
      {n : ℕ} {s s' : S} (c : ℕ) → n ≤ c → n ≤ size s → Shuffled n s s' → key s' c ≡ key s c
  Shuffled-key c hc hn still = ground arith
  Shuffled-key {n} c hc hn (moved {s = t} i j hi hj more) = ground (
    arith,
    b.size-exchange t i j,
    b.key-exchange t i j c (omega arith) (omega arith),
    Shuffled-key c hc (omega (arith, b.size-exchange t i j)) more,
  )

  module _ (o : IsOrder before) where
    irrefl : (k : K) → before k k ≡ false
    irrefl k = elim (Bool-cases (before k k)) [ inl e ↦ o.asym k k e | inr e ↦ e ]

    root_first_below :
        (k n : ℕ) (s : S) (i : ℕ) → IsHeap n s → i < k → i < n → before (key s i) (key s 0) ≡ false
    root_first_below zero n s i hp f p = absurd (omega arith)
    root_first_below (suc k) n s zero hp f p = irrefl (key s 0)
    root_first_below (suc k) n s (suc i) hp f p =
        let up = parent (suc i) in
        o.trans (key s 0) (key s up) (key s (suc i))
          (root_first_below k n s up hp (omega arith) (omega arith))
          (hp (suc i) (omega arith) p (omega arith))

    -- no element leaves a heap before its root
    pub root_first :
        (n : ℕ) (s : S) (i : ℕ) → IsHeap n s → i < n → before (key s i) (key s 0) ≡ false
    root_first n s i hp p = root_first_below (suc i) n s i hp (omega arith) p
