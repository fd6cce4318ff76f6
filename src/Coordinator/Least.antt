-- ===== src/Coordinator/Least.antt =====
-- GetLeastLoadedPeer.
use distributed_grpc_task_ma.Prelude.{
  String, ◌≡◌, refl, Bool, true, false, Bool-cases, ◌&&◌, List, [], ◌∷◌, Option, none, some, ltb_ℤ,
  inl, inr, arith, ◌⊎◌,
}
use distributed_grpc_task_ma.Prelude.Maps.{values}
use distributed_grpc_task_ma.Coordinator.{
  Peer, DistributedCoordinator, is_online, least_loaded, id_or_empty, get_least_loaded_peer,
}

-- what holds of every peer of a list
abbrev pub All : (Peer → Type 0) → List Peer → Type 0
All P [] = Unit {0}
All P (p ∷ ps) = P p × All P ps

-- `p` stands in the list
abbrev pub In : Peer → List Peer → Type 0
In p [] = ⊥
In p (x ∷ ps) = (x ≡ p) ⊎ In p ps

-- no online peer has a lower load than `l`
abbrev pub IsLeast : Peer → List Peer → Type 0
IsLeast l ps = All (λ p. is_online p ≡ true → ltb_ℤ p.load l.load ≡ false) ps

-- `l` has no higher load than the `least` that the loop started from
abbrev NotAbove : Option Peer → Peer → Type 0
NotAbove none l = Unit {0}
NotAbove (some m) l = ltb_ℤ m.load l.load ≡ false

-- what the loop returns from a given `least`
abbrev Result : List Peer → Option Peer → Option Peer → Type 0
Result ps least none = (least ≡ none) × All (λ p. is_online p ≡ false) ps
Result ps least (some l) =
    ((least ≡ some l) ⊎ (In l ps × (is_online l ≡ true))) × IsLeast l ps × NotAbove least l

-- whether the loop takes `p` in the place of `least`
abbrev beats : Peer → Option Peer → Bool
beats p least = is_online p && (elim least [ none ↦ true | some l ↦ ltb_ℤ p.load l.load ])

taken :
    (p : Peer) (ps : List Peer) (least r : Option Peer)
    → beats p least ≡ true
    → Result ps (some p) r
    → Result (p ∷ ps) least r
taken p ps least none e h = absurd (ground arith)
taken p ps none (some l) e (from, least_rest, above) = (ground arith, (λ _. above, least_rest), tt)
taken p ps (some m) (some l) e (from, least_rest, above) =
    (ground arith, (λ _. above, least_rest), ground arith)

passed :
    (p : Peer) (ps : List Peer) (least r : Option Peer)
    → beats p least ≡ false
    → Result ps least r
    → Result (p ∷ ps) least r
passed p ps least none e (same, rest) = (same, (ground arith, rest))
passed p ps none (some l) e (from, least_rest, above) =
    (ground arith, (ground arith, least_rest), tt)
passed p ps (some m) (some l) e (from, least_rest, above) =
    (ground arith, (ground arith, least_rest), above)

least_loaded-Result :
    (ps : List Peer) (least : Option Peer) → Result ps least (least_loaded ps least)
unfolding least_loaded
least_loaded-Result [] none = (refl, tt)
least_loaded-Result [] (some l) = (inl refl, tt, ground arith)
least_loaded-Result (p ∷ ps) least = elim (Bool-cases (beats p least)) [
  | inl e ↦ rw e (taken p ps least _ e (least_loaded-Result ps (some p)))
  | inr e ↦ rw e (passed p ps least _ e (least_loaded-Result ps least))
]

-- the returned id is that of the peer to choose from the list
abbrev pub IsChoice : List Peer → String → Type 0
IsChoice ps id =
    ((id ≡ "") × All (λ p. is_online p ≡ false) ps)
    ⊎ ((p : Peer) × (id ≡ p.id) × In p ps × (is_online p ≡ true) × IsLeast p ps)

Result-IsChoice :
    (ps : List Peer) (r : Option Peer) → Result ps none r → IsChoice ps (id_or_empty r)
Result-IsChoice ps none (same, rest) = inl (refl, rest)
Result-IsChoice ps (some l) (inl from, least, above) = absurd (cc)
Result-IsChoice ps (some l) (inr (there, online), least, above) =
    inr (l, refl, there, online, least)

-- GetLeastLoadedPeer returns the id of an online peer than which no online peer has a lower load, or
-- the empty string if no peer is online; the order in which the peers are visited does not matter.
pub get_least_loaded_peer-IsChoice :
    (c : DistributedCoordinator) → IsChoice (values c.peers) (get_least_loaded_peer c)
unfolding get_least_loaded_peer
get_least_loaded_peer-IsChoice c =
    Result-IsChoice (values c.peers) _ (least_loaded-Result (values c.peers) none)
