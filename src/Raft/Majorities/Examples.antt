-- ===== src/Raft/Majorities/Examples.antt =====
-- src/raft/core.rs: a majority of three nodes.
use raft_distributed_log_rs.Prelude.{[], arith, inl, inr, refl, some, true, ◌∷◌, ◌≡◌}
use raft_distributed_log_rs.Raft.Commit.{handle_all}
use raft_distributed_log_rs.Raft.Core.{handle}
use raft_distributed_log_rs.Raft.Elections.{Grants}
use raft_distributed_log_rs.Raft.Examples.{
  follower_1, leader_1, node_1, node_2, node_in, operation_1, progress_at,
}
use raft_distributed_log_rs.Raft.Majorities.{LeadsIn}
use raft_distributed_log_rs.Raft.Majorities.Commits.{appended_at, majority_commits, reported_by}
use raft_distributed_log_rs.Raft.Majorities.Rounds.{answers_to, round_elects}
use raft_distributed_log_rs.Raft.Peers.{contains_key, get, member}
use raft_distributed_log_rs.Raft.Types.{
  AppendEntriesResponse, NodeId-discrete, VoteRequest, election_timeout, follower,
}

-- The request of node 1 in term 2.
abbrev request_in_2 : VoteRequest
request_in_2 = record { term = 2; candidate_id = node_1; last_log_index = 2; last_log_term = 1 }

node_2-Grants : Grants (node_in node_2 follower) request_in_2
node_2-Grants = record {
  not_stale = omega arith;
  up_to_date = inr (refl, omega arith);
  vote_is_free = inl (omega arith);
}

round_elects_example : LeadsIn 2 (
    handle_all follower_1
      (election_timeout ∷ answers_to request_in_2 (node_in node_2 follower ∷ [])))
round_elects_example =
    round_elects follower_1 (node_in node_2 follower) [] request_in_2 (unfold handle in refl)
      (node_2-Grants, tt) (unfold contains_key NodeId-discrete in (refl, tt))
      (unfold member NodeId-discrete in (refl, (refl, tt))) (omega arith)

-- The follower has the entry 3 of term 1.
abbrev at_end : AppendEntriesResponse
at_end = record {
  term = 1;
  success = true;
  last_log_index = 3;
  last_log_term = 1;
  leader_id = some node_1;
}

majority_commits_example :
    (handle_all leader_1
      (appended_at operation_1 3 1 ∷ reported_by operation_1 at_end node_2 ∷ [])).commit_index
    ≡ 3
majority_commits_example =
    majority_commits leader_1 operation_1 3 1 at_end node_2 [] refl
      (unfold contains_key NodeId-discrete in refl) (omega arith) refl (omega arith)
      (unfold contains_key in (refl, tt))
      (unfold get NodeId-discrete in ((progress_at 0, refl, omega arith), tt))
      (unfold member NodeId-discrete in (refl, (refl, tt))) (omega arith)
