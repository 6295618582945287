-- ===== src/Raft/Cluster/Split.antt =====
-- src/raft/core.rs: two leaders in one term.
use raft_distributed_log_rs.Prelude.{arith, false, refl, ◌<◌, ◌∙◌, ◌≡◌, ◌≢◌}
use raft_distributed_log_rs.Raft.Cluster.{Cluster, after, choose, place}
use raft_distributed_log_rs.Raft.Core.{handle}
use raft_distributed_log_rs.Raft.Core.Replication.{prefix_matches}
use raft_distributed_log_rs.Raft.Types.{
  NodeId, NodeId-discrete, Raft, ReceivedAppendEntries, append_entries, leader,
}

place_here {ℓ} : {A : Type ℓ} (k : NodeId) (a : A) (f : NodeId → A) → place k a f k ≡ a
unfolding place
place_here k a f = chosen (NodeId-discrete k k)
  where
    chosen : (d : Dec (k ≡ k)) → choose a (f k) d ≡ a
    chosen (yes e) = refl
    chosen (no ne) = absurd (ne refl)

place_other {ℓ} : {A : Type ℓ} (k j : NodeId) (a : A) (f : NodeId → A) → k ≢ j → place k a f j ≡ f j
unfolding place
place_other k j a f ne = chosen (NodeId-discrete k j)
  where
    chosen : (d : Dec (k ≡ j)) → choose a (f j) d ≡ f j
    chosen (yes e) = absurd (ne e)
    chosen (no h) = refl

still_leads :
    (r : Raft) (q : ReceivedAppendEntries)
    → r.role ≡ leader
    → r.current_term < q.request.term
    → prefix_matches r q ≡ false
    → ((handle r (append_entries q)).0.role ≡ leader)
      × ((handle r (append_entries q)).0.current_term ≡ q.request.term)
unfolding handle
still_leads r q l t m = ground arith

-- Where one node leads in an earlier term than another, a request of the later leader's term that
-- the earlier one refuses for the entry before it leaves both of them leaders of the later term.
pub split_brain :
    (s : Cluster) (a b : NodeId) (q : ReceivedAppendEntries)
    → a ≢ b
    → (s.node a).role ≡ leader
    → (s.node b).role ≡ leader
    → (s.node a).current_term < (s.node b).current_term
    → q.request.term ≡ (s.node b).current_term
    → prefix_matches (s.node a) q ≡ false
    → let u = after s a (append_entries q) in
      ((u.node a).role ≡ leader)
      × ((u.node b).role ≡ leader)
      × ((u.node a).current_term ≡ (u.node b).current_term)
split_brain s a b q ne leads_a leads_b older same refused =
    let (role, term) = still_leads (s.node a) q leads_a (omega arith) refused in
    rw
      (
        place_here a (handle (s.node a) (append_entries q)).0 s.node,
        place_other a b (handle (s.node a) (append_entries q)).0 s.node ne,
      )
      (role, leads_b, term ∙ same)
