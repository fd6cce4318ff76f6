-- ===== src/Election/Fsm.antt =====
-- internal/cluster/leader_election.go: the state machine that is handed to the raft library, and its
-- snapshots. A Go map is a pointer: the state and a snapshot of it hold an address, and the maps are in a
-- store. The values are the texts that Apply writes. encoding/json and the sink of a snapshot are parameters.
use distributed_grpc_task_ma.Prelude.{
  ℕ, ◌+◌, String, List, [], ◌∷◌, Option, none, some, ◌==◌, if◌then◌else◌,
}
use distributed_grpc_task_ma.Prelude.Maps.{StrMap, put}
use distributed_grpc_task_ma.Prelude.Effects.{Result, ok, err, M, ◌>>=◌, lift}
use distributed_grpc_task_ma.Prelude.Outcome.{Outcome, done, panics, ◌>>=◌ as and_then}

pub record Maps : Type 0 where
  pub cells : ℕ → StrMap String
  pub next : ℕ

abbrev pub write : (ℕ → StrMap String) → ℕ → StrMap String → ℕ → StrMap String
write cells p m q = if p == q then m else cells q

-- an address, or `none` for a nil map
pub record ClusterFsm : Type 0 where
  pub state : Option ℕ

pub record ClusterSnapshot : Type 0 where
  pub state : Option ℕ

-- `&ClusterFSM{}`
abbrev pub new_cluster_fsm : ClusterFsm
new_cluster_fsm = record { state = none }

-- the map at an address
abbrev pub contents : Maps → Option ℕ → Option (StrMap String)
contents h none = none
contents h (some p) = some (h.cells p)

-- raft.Log
pub record Entry : Type 0 where
  pub index : ℕ
  pub text : String

-- json.Encoder and json.Decoder, at maps of texts; `none` is `null`. What is decoded before an error is
-- in the map.
pub record Json : Type 0 where
  pub encode : Option (StrMap String) → Result String
  pub decode : String → Result (Unit {0}) × Option (StrMap String)

-- raft.SnapshotSink, with the state `W` of the disk
pub record SnapshotSink (W : Type 0) : Type 0 where
  pub write : String → M W (Unit {0})
  pub cancel : M W (Unit {0})
  pub close : M W (Unit {0})

-- Apply; `decimal` is the verb %d of fmt.Sprintf, and a write to a nil map panics
unfoldable pub apply : (ℕ → String) → Entry → ClusterFsm → Maps → Outcome Maps
apply decimal e c h = elim c.state [
  | none ↦ panics
  | some p ↦ done (record h { cells = write h.cells p (put (decimal e.index) e.text (h.cells p)) })
]

unfoldable pub snapshot : ClusterFsm → ClusterSnapshot
snapshot c = record { state = c.state }

-- what Decode leaves of the map that Restore made
unfoldable pub restored :
    Result (Unit {0}) × Option (StrMap String)
    → ClusterFsm
    → Maps
    → Result (Unit {0}) × (ClusterFsm × Maps)
restored (r, none) c h = (r, (record c { state = none }, record h { next = h.next + 1 }))
restored (r, some m) c h = (
  r,
  (
    record c { state = some h.next },
    record h { cells = write h.cells h.next m; next = h.next + 1 },
  ),
)

-- Restore: a new map, into which the text is decoded; `null` makes the map nil
unfoldable pub restore : Json → String → ClusterFsm → Maps → Result (Unit {0}) × (ClusterFsm × Maps)
unfolding restored
restore j text c h = restored (j.decode text) c h

module _ {W : Type 0} (j : Json) (sink : SnapshotSink W) where
  -- `encoder.Encode(c.state)`
  abbrev pub encoded : ClusterSnapshot → Maps → M W (Unit {0})
  encoded s h = lift (j.encode (contents h s.state)) >>= sink.write

  -- `sink.Cancel`, whose error is dropped, or `sink.Close`
  abbrev pub ended : Result (Unit {0}) × W → Result (Unit {0}) × W
  ended (err e, w) = (err e, (sink.cancel w).1)
  ended (ok u, w) = sink.close w

  -- Persist, at the maps as they are by then
  unfoldable pub persist : ClusterSnapshot → Maps → M W (Unit {0})
  persist s h w = ended (encoded s h w)

-- the library applies the entries of the log in order
unfoldable pub apply_all : (ℕ → String) → List Entry → ClusterFsm → Maps → Outcome Maps
unfolding apply
apply_all decimal [] c h = done h
apply_all decimal (e ∷ es) c h = and_then (apply decimal e c h) λ h'. apply_all decimal es c h'
