-- ===== src/Raft/Cluster/Examples.antt =====
-- src/raft/core.rs: an election in a cluster of three nodes, and a node that refuses its successor.
use raft_distributed_log_rs.Prelude.{List, [], arith, inl, inr, none, refl, ◌∷◌, ◌≡◌}
use raft_distributed_log_rs.Raft.Cluster.{Cluster, Reach, after, boot, here, later, place, takes}
use raft_distributed_log_rs.Raft.Cluster.Safety.{election_safety}
use raft_distributed_log_rs.Raft.Cluster.Split.{split_brain}
use raft_distributed_log_rs.Raft.Core.{handle}
use raft_distributed_log_rs.Raft.Examples.{entries_of, grant_of, node_1, node_2, node_3, node_in}
use raft_distributed_log_rs.Raft.Peers.{contains_key, insert, member}
use raft_distributed_log_rs.Raft.Runtime.Start.{collect}
use raft_distributed_log_rs.Raft.Types.{
  Event, NodeId, NodeId-discrete, append_entries, election_timeout, leader, request_vote,
  vote_response,
}

abbrev trio : List NodeId
trio = node_1 ∷ node_2 ∷ node_3 ∷ []

abbrev booted : Cluster
booted = boot trio (λ k. 1)

abbrev one_runs : Cluster
one_runs = after booted node_1 election_timeout

abbrev vote_for_one : Event
vote_for_one =
    request_vote (record { term = 1; candidate_id = node_1; last_log_index = 0; last_log_term = 0 })

abbrev two_votes : Cluster
two_votes = after one_runs node_2 vote_for_one

abbrev one_leads : Cluster
one_leads = after two_votes node_1 (vote_response (grant_of node_2))

one_leads-Reach : Reach trio booted one_leads
unfolding handle insert contains_key member collect place NodeId-discrete
one_leads-Reach =
    later
      (later (later here (takes node_1 election_timeout refl (omega arith) tt tt))
        (takes node_2 vote_for_one refl (omega arith) tt tt))
      (takes node_1 (vote_response (grant_of node_2)) refl (omega arith)
        (inr (inl (refl, refl, refl))) tt)

election_safety_example : node_1 ≡ node_1
election_safety_example =
    election_safety trio (λ k. 1) one_leads one_leads node_1 node_1 one_leads-Reach here
      (unfold member NodeId-discrete in refl) (unfold member NodeId-discrete in refl)
      (unfold handle insert contains_key member collect place NodeId-discrete in refl)
      (unfold handle insert contains_key member collect place NodeId-discrete in refl) refl

-- Node 1 leads in term 1, and node 2 in term 2.
abbrev successive : Cluster
successive = record {
  node = place node_2 (record (node_in node_2 leader) { current_term = 2 }) (λ k. node_in k leader);
  disk = λ k. record { current_term = 0; voted_for = none };
  ballots = [];
}

split_brain_example :
    (((after successive node_1 (append_entries (entries_of 2 3))).node node_1).role ≡ leader)
    × (((after successive node_1 (append_entries (entries_of 2 3))).node node_2).role ≡ leader)
    × (((after successive node_1 (append_entries (entries_of 2 3))).node node_1).current_term
        ≡ ((after successive node_1 (append_entries (entries_of 2 3))).node node_2).current_term)
split_brain_example =
    split_brain successive node_1 node_2 (entries_of 2 3) (λ h. ground arith)
      (unfold place NodeId-discrete in refl) (unfold place NodeId-discrete in refl)
      (unfold place NodeId-discrete in omega arith) (unfold place NodeId-discrete in refl)
      (unfold place NodeId-discrete in refl)
