-- ===== src/Election/Replay.antt =====
-- What a node holds that restores another's snapshot and applies the log again.
use distributed_grpc_task_ma.Prelude.{
  ℕ, ◌+◌, ◌≡◌, refl, sym, ap, ◌∙◌, String, List, [], ◌∷◌, ◌++◌, Option, none, some, str_eq,
  if◌then◌else◌, arith,
}
use distributed_grpc_task_ma.Prelude.Maps.{StrMap, find, put, find-put}
use distributed_grpc_task_ma.Prelude.Effects.{ok}
use distributed_grpc_task_ma.Prelude.Outcome.{
  ◌>>=◌, done, panics, Yields, yields, Yields-bind, Yields-weaken,
}
use distributed_grpc_task_ma.Election.Fsm.{
  Maps, ClusterFsm, Entry, Json, SnapshotSink, new_cluster_fsm, contents, apply, apply_all,
  snapshot, restore, restored, persist, ended, write,
}

-- the map after the entries, without the store
unfoldable pub put_all : (ℕ → String) → List Entry → StrMap String → StrMap String
put_all decimal [] m = m
put_all decimal (e ∷ es) m = put_all decimal es (put (decimal e.index) e.text m)

-- the text that the entries put last under a key
last_put : (ℕ → String) → String → List Entry → Option String
last_put decimal k [] = none
last_put decimal k (e ∷ es) = elim (last_put decimal k es) [
  | some v ↦ some v
  | none ↦ if str_eq (decimal e.index) k then some e.text else none
]

abbrev or_else : Option String → Option String → Option String
or_else (some v) o = some v
or_else none o = o

find-put_all :
    (decimal : ℕ → String) (k : String) (es : List Entry) (m : StrMap String)
    → find k (put_all decimal es m) ≡ or_else (last_put decimal k es) (find k m)
unfolding put_all last_put
find-put_all decimal k [] m = refl
find-put_all decimal k (e ∷ es) m = ground (
  arith,
  find-put_all decimal k es (put (decimal e.index) e.text m),
  find-put (decimal e.index) k e.text m,
)

put_all-append :
    (decimal : ℕ → String) (es fs : List Entry) (m : StrMap String)
    → put_all decimal (es ++ fs) m ≡ put_all decimal fs (put_all decimal es m)
unfolding put_all
put_all-append decimal [] fs m = refl
put_all-append decimal (e ∷ es) fs m = put_all-append decimal es fs (put (decimal e.index) e.text m)

-- To apply entries again that the map has already had changes nothing that is found.
put_all_again :
    (decimal : ℕ → String) (k : String) (es fs : List Entry) (m m' : StrMap String)
    → find k m' ≡ find k (put_all decimal es m)
    → find k (put_all decimal (es ++ fs) m') ≡ find k (put_all decimal fs (put_all decimal es m))
put_all_again decimal k es fs m m' e = ground (
  arith,
  put_all-append decimal es fs m',
  find-put_all decimal k fs (put_all decimal es m'),
  find-put_all decimal k fs (put_all decimal es m),
  find-put_all decimal k es m',
  find-put_all decimal k es m,
)

apply-done :
    (decimal : ℕ → String) (x : Entry) (c : ClusterFsm) (p : ℕ) (h : Maps)
    → c.state ≡ some p
    → apply decimal x c h
      ≡ done (record h { cells = write h.cells p (put (decimal x.index) x.text (h.cells p)) })
unfolding apply
apply-done decimal x c p h e = rw (e, apply) refl

apply_all_lem :
    (decimal : ℕ → String) (es : List Entry) (c : ClusterFsm) (p : ℕ) (h : Maps)
    → c.state ≡ some p
    → Yields (λ h'. h'.cells p ≡ put_all decimal es (h.cells p)) (apply_all decimal es c h)
unfolding apply_all put_all
apply_all_lem decimal [] c p h e = yields refl
apply_all_lem decimal (x ∷ es) c p h e =
    let there = put (decimal x.index) x.text (h.cells p) in
    let h' = record h { cells = write h.cells p there } in
    let same : h'.cells p ≡ there = ground (arith) in
    rw (apply-done decimal x c p h e)
      (Yields-weaken (apply_all_lem decimal es c p h' e) λ g k. k ∙ ap (put_all decimal es) same)

restore-map :
    (j : Json) (d : String) (c : ClusterFsm) (g : Maps) (m : StrMap String)
    → j.decode d ≡ (ok tt, some m)
    → restore j d c g ≡ (
      ok tt,
      (
        record { state = some g.next },
        record { cells = write g.cells g.next m; next = g.next + 1 },
      ),
    )
unfolding restore restored
restore-map j d c g m e = rw (e) refl

restore-null :
    (j : Json) (d : String) (c : ClusterFsm) (g : Maps)
    → j.decode d ≡ (ok tt, none)
    → restore j d c g ≡ (ok tt, (record { state = none }, record g { next = g.next + 1 }))
unfolding restore restored
restore-null j d c g e = rw (e) refl

-- what the state machine holds under a key
abbrev pub lookup : String → ClusterFsm → Maps → Option String
lookup k c h = elim (contents h c.state) [ none ↦ none | some m ↦ find k m ]

module _ {W : Type 0} (j : Json) (sink : SnapshotSink W) (decimal : ℕ → String) where
  -- An entry that is applied to the new state machine panics. If JSON decodes the nil map as it encodes
  -- it, then so does one that is applied after a restore of a snapshot of the new state machine, though
  -- Persist writes that snapshot and Restore succeeds.
  pub apply-new_cluster_fsm :
      (e : Entry) (c : ClusterFsm) (h g : Maps) (w : W) (text : String)
      → j.encode none ≡ ok text
      → j.decode text ≡ (ok tt, none)
      → (apply decimal e new_cluster_fsm h ≡ panics)
        × (persist j sink (snapshot new_cluster_fsm) h w ≡ ended j sink (sink.write text w))
        × ((restore j text c g).0 ≡ ok tt)
        × (apply decimal e (restore j text c g).1.0 (restore j text c g).1.1 ≡ panics)
  unfolding apply persist snapshot
  apply-new_cluster_fsm e c h g w text n n' =
      let k = restore-null j text c g n' in (refl, rw (n) refl, rw (k) refl, rw (k) refl)

  -- A snapshot of a state machine with a map may be persisted after further entries were applied. If
  -- JSON decodes what it encodes for the map as it is by then, up to the order of the keys, then a node
  -- that restores the snapshot succeeds, and once it has applied these entries again and then the same
  -- others as the first node, it holds the same texts under every key.
  pub lookup-restore :
      (c d : ClusterFsm) (p : ℕ) (h g : Maps) (before after : List Entry) (w : W) (text : String)
      (m : StrMap String)
      → c.state ≡ some p
      → j.encode (some (put_all decimal before (h.cells p))) ≡ ok text
      → j.decode text ≡ (ok tt, some m)
      → ((k : String) → find k m ≡ find k (put_all decimal before (h.cells p)))
      → Yields
          (λ h'.
            (persist j sink (snapshot c) h' w ≡ ended j sink (sink.write text w))
            × ((restore j text d g).0 ≡ ok tt)
            × Yields
                (λ (last, last').
                  (k : String) → lookup k (restore j text d g).1.0 last' ≡ lookup k c last)
                (do
                  h'' ← apply_all decimal after c h'
                  g' ←
                      apply_all decimal
                        (before ++ after)
                        (restore j text d g).1.0
                        (restore j text d g).1.1
                  done (h'', g')))
          (apply_all decimal before c h)
  unfolding persist snapshot
  lookup-restore c d p h g before after w text m e n n' f =
      let back = restore-map j text d g m n' in
      let there : write g.cells g.next m g.next ≡ m = ground (arith) in
      Yields-weaken (apply_all_lem decimal before c p h e) λ h' k. (
        rw (e, k, n) refl,
        rw (back) refl,
        rw (back) (
            Yields-bind (apply_all_lem decimal after c p h' e) λ h'' q.
              Yields-bind
                (apply_all_lem decimal (before ++ after) (record { state = some g.next }) g.next
                  (record { cells = write g.cells g.next m; next = g.next + 1 }) refl)
                λ g' q'. yields λ x. rw (e) (
                  ap (find x) q'
                  ∙ ap (λ m'. find x (put_all decimal (before ++ after) m')) there
                  ∙ put_all_again decimal x before after (h.cells p) m (f x)
                  ∙ ap (λ m'. find x (put_all decimal after m')) (sym k)
                  ∙ sym (ap (find x) q))),
      )
