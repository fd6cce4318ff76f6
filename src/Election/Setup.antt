-- ===== src/Election/Setup.antt =====
-- Start of the leader election, when it is given peers.
use distributed_grpc_task_ma.Prelude.{ap, ◌≡◌, ◌≢◌, refl, ◌∙◌, String, false, List, [], ◌∷◌}
use distributed_grpc_task_ma.Prelude.Effects.{ok}
use distributed_grpc_task_ma.Election.Fsm.{new_cluster_fsm}
use distributed_grpc_task_ma.Election.Raft.{
  RaftLibrary, LeaderElection, Stores, open_stores, add_peers, form_cluster, launch, start_raft,
  start, is_leader, is_leading, get_peers, ids_or_none, RaftState, follower, candidate, leader,
  shut,
}

not_leading : (r : RaftState) → r ≢ leader → is_leading r ≡ false
not_leading leader f = absurd (f refl)
not_leading follower f = refl
not_leading candidate f = refl
not_leading shut f = refl

module _ {W : Type 0} (lib : RaftLibrary W) where
  -- what AddVoter does at a node that does not lead: it is refused, and changes neither the state of the
  -- node nor its configuration
  pub record Refuses (node : lib.Raft) : Type 0 where
    pub state_law :
        (p : String) (w : W)
        → lib.state node w ≢ leader
        → lib.state node (lib.add_voter node p p w).1 ≡ lib.state node w
    pub configuration_law :
        (p : String) (w : W)
        → lib.state node w ≢ leader
        → (lib.get_configuration node (lib.add_voter node p p w).1).0
          ≡ (lib.get_configuration node w).0

  add_peers-refused :
      (node : lib.Raft) (refuses : Refuses node) (ps : List String) (w : W)
      → lib.state node w ≢ leader
      → let w' = add_peers lib node ps w in
        (lib.state node w' ≡ lib.state node w)
        × ((lib.get_configuration node w').0 ≡ (lib.get_configuration node w).0)
  unfolding add_peers
  add_peers-refused node refuses [] w f = (refl, refl)
  add_peers-refused node refuses (p ∷ ps) w f =
      let e = refuses.state_law p w f in
      let (k, c) = add_peers-refused node refuses ps (lib.add_voter node p p w).1 (rw (e) f) in
      (k ∙ e, c ∙ refuses.configuration_law p w f)

  form_cluster-peers :
      (le : LeaderElection lib) (node : lib.Raft) (t : lib.Transport) (p : String)
      (ps : List String) (w : W)
      → le.peers ≡ p ∷ ps
      → form_cluster lib le node t w ≡ add_peers lib node (p ∷ ps) w
  unfolding form_cluster
  form_cluster-peers le node t p ps w e = rw (form_cluster, e) refl

  -- If the calls up to NewRaft succeed, the new node does not lead, AddVoter is refused by a node that
  -- does not lead, and there are peers, then Start succeeds, the election is not the leader, and
  -- GetPeers gives the servers with which NewRaft made the node: no peer was added.
  pub start-peers :
      (le : LeaderElection lib) (p : String) (ps : List String) (w w' w'' : W) (s : Stores lib)
      (node : lib.Raft)
      → le.peers ≡ p ∷ ps
      → open_stores lib le w ≡ (ok s, w')
      → lib.new_raft le.node_id new_cluster_fsm s.log_store s.stable_store s.snapshot_store
          s.transport w'
        ≡ (ok node, w'')
      → lib.state node w'' ≢ leader
      → Refuses node
      → let (u, (le', v)) = start lib le w in
        (u ≡ ok tt)
        × (is_leader lib le' v ≡ false)
        × ((get_peers lib le' v).0 ≡ ids_or_none lib (lib.get_configuration node w'').0)
  unfolding start start_raft launch is_leader get_peers
  start-peers le p ps w w' w'' s node e o n f refuses =
      let (k, c) = add_peers-refused node refuses (p ∷ ps) w'' f in
      rw (o, start_raft, n, launch, form_cluster-peers le node s.transport p ps w'' e)
        (refl, not_leading _ (rw (k) f), ap (ids_or_none lib) c)
