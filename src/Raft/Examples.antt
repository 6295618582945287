-- ===== src/Raft/Examples.antt =====
-- src/raft/core.rs, src/raft/storage.rs: a cluster of three nodes, on which the theorems are run.
use raft_distributed_log_rs.Prelude.{
  List, [], arith, inr, none, refl, some, true, ℕ, ◌+◌, ◌↔◌, ◌∷◌, ◌≡◌, ◌⊎◌,
}
use raft_distributed_log_rs.Raft.Appends.{Accepts, persists_entries, persists_entries_iff}
use raft_distributed_log_rs.Raft.Core.{handle}
use raft_distributed_log_rs.Raft.Core.Base.{hard_state}
use raft_distributed_log_rs.Raft.Elections.{
  ElectionInv, Grants, WonElection, grants_vote, grants_vote_iff, to_persist, votes_persist,
  wins_by_majority,
}
use raft_distributed_log_rs.Raft.Peers.{contains_key, insert, member}
use raft_distributed_log_rs.Raft.Types.{
  Event, NodeId, NodeId-discrete, OperationId, Progress, Raft, ReceivedAppendEntries,
  ReceivedVoteResponse, Role, VoteRequest, append_entries, candidate, follower, leader,
  request_vote, vote_response,
}
use raft_distributed_log_rs.Raft.Votes.{one_vote_per_term, votes_cast}

abbrev pub node_1 : NodeId
node_1 = record { bytes = 49 ∷ [] }

abbrev pub node_2 : NodeId
node_2 = record { bytes = 50 ∷ [] }

abbrev pub node_3 : NodeId
node_3 = record { bytes = 51 ∷ [] }

abbrev pub operation_1 : OperationId
operation_1 = record { id = 1 }

abbrev pub progress_at : ℕ → Progress
progress_at n = record { next_index = n + 1; match_index = n }

abbrev pub cluster : List (NodeId × Progress)
cluster = (node_1, progress_at 2) ∷ (node_2, progress_at 0) ∷ (node_3, progress_at 0) ∷ []

-- A node of the cluster in term 1, with two entries, one of them committed and applied.
abbrev pub node_in : NodeId → Role → Raft
node_in id role = record {
  id = id;
  voters = cluster;
  learners = [];
  role = role;
  current_term = 1;
  leader_id = none;
  voted_for = none;
  last_applied = 1;
  commit_index = 1;
  last_log_index = 2;
  last_log_term = 1;
  granted_votes = [];
}

abbrev pub follower_1 : Raft
follower_1 = node_in node_1 follower

abbrev pub leader_1 : Raft
leader_1 = node_in node_1 leader

-- A candidate of term 1 that has its own vote.
abbrev pub candidate_in : NodeId → Raft
candidate_in id = record (node_in id candidate) { voted_for = some id; granted_votes = id ∷ [] }

abbrev request_of : NodeId → ℕ → VoteRequest
request_of from term = record {
  term = term;
  candidate_id = from;
  last_log_index = 2;
  last_log_term = 1;
}

abbrev pub grant_of : NodeId → ReceivedVoteResponse
grant_of from = record { from = from; response = record { term = 1; vote_granted = true } }

abbrev two_requests : List Event
two_requests = request_vote (request_of node_2 2) ∷ request_vote (request_of node_2 2) ∷ []

one_vote_per_term_example : node_2 ≡ node_2
one_vote_per_term_example =
    one_vote_per_term 2 follower_1 two_requests (omega arith) (omega arith, (omega arith, tt))
      (omega arith) 0 1 (record { term = 2; for = node_2 }) (record { term = 2; for = node_2 })
      (unfold votes_cast handle NodeId-discrete in refl)
      (unfold votes_cast handle NodeId-discrete in refl) refl

candidate_in-ElectionInv_1 : ElectionInv (candidate_in node_1)
unfolding NodeId-discrete contains_key member
candidate_in-ElectionInv_1 = record {
  self_votes = refl;
  from_voters = (refl, tt);
  distinct = (refl, tt);
}

wins_by_majority_example : WonElection (candidate_in node_1) (vote_response (grant_of node_2))
wins_by_majority_example =
    wins_by_majority (candidate_in node_1) (vote_response (grant_of node_2))
      candidate_in-ElectionInv_1 (λ h. cc)
      (unfold handle insert contains_key member NodeId-discrete in refl)

grants_vote_iff_example :
    (grants_vote (handle follower_1 (request_vote (request_of node_2 2))).1 ≡ true)
    ↔ Grants follower_1 (request_of node_2 2)
grants_vote_iff_example = grants_vote_iff follower_1 (request_of node_2 2)

votes_persist_example :
    (to_persist (handle follower_1 (request_vote (request_of node_2 2))).1
      ≡ some (hard_state (handle follower_1 (request_vote (request_of node_2 2))).0))
    ⊎ ((to_persist (handle follower_1 (request_vote (request_of node_2 2))).1 ≡ none)
        × (hard_state (handle follower_1 (request_vote (request_of node_2 2))).0
            ≡ hard_state follower_1))
votes_persist_example =
    votes_persist follower_1 (request_vote (request_of node_2 2)) (inr (request_of node_2 2, refl))

-- A leader's request of a term, whose previous entry is (index, term).
abbrev pub entries_of : ℕ → ℕ → ReceivedAppendEntries
entries_of term prev = record {
  operation_id = operation_1;
  request = record {
    term = term;
    leader_id = node_2;
    prev_log_index = prev;
    prev_log_term = 1;
    commit_index = 2;
  };
  local_prev_log_term = some 1;
}

persists_entries_iff_example :
    (persists_entries (handle follower_1 (append_entries (entries_of 1 2))).1 ≡ true)
    ↔ Accepts follower_1 (entries_of 1 2)
persists_entries_iff_example = persists_entries_iff follower_1 (entries_of 1 2)
