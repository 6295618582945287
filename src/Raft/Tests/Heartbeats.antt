-- ===== src/Raft/Tests/Heartbeats.antt =====
-- src/raft/core.rs, `tests`: heartbeats and the responses to them.
use raft_distributed_log_rs.Prelude.{
  Bool, [], all_pass, false, none, not, refl, some, true, ℕ, ◌&&◌, ◌==◌, ◌∷◌, ◌≡◌,
}
use raft_distributed_log_rs.Raft.Core.{handle}
use raft_distributed_log_rs.Raft.Core.Base.{is_none}
use raft_distributed_log_rs.Raft.Core.Replication.{is_empty, some_eq}
use raft_distributed_log_rs.Raft.Peers.{contains_key, get, modify}
use raft_distributed_log_rs.Raft.Tests.{
  follower_at, gives_none, is_at, is_ok, node, on_heartbeat_response, option_eq, put, role_eq,
}
use raft_distributed_log_rs.Raft.Types.{
  Event, NodeId, NodeId-discrete, Raft, candidate, follower, heartbeat, heartbeat_response, leader,
  node_eq,
}

-- A heartbeat of node-2.
abbrev heartbeat_of_node_2 : (term log_index log_term leader_commit_index : ℕ) → Event
heartbeat_of_node_2 term log_index log_term leader_commit_index = heartbeat (record {
  term = term;
  leader_id = node "node-2";
  log_index = log_index;
  log_term = log_term;
  leader_commit_index = leader_commit_index;
})

abbrev heartbeat_request_rejects_an_older_term_without_resetting_timer : Bool
heartbeat_request_rejects_an_older_term_without_resetting_timer =
    let after = handle (follower_at 4 none 8 3) (heartbeat_of_node_2 3 8 3 6) in
    on_heartbeat_response after.1 (λ peer response reset_election_timer apply_through.
      node_eq peer (node "node-2")
      && response.term == 4
      && not response.success
      && not reset_election_timer
      && is_none apply_through
      && after.0.current_term == 4
      && option_eq node_eq after.0.leader_id (some (node "old-leader")))

abbrev valid_heartbeat_request_makes_candidate_step_down : Bool
valid_heartbeat_request_makes_candidate_step_down =
    let raft = record (follower_at 4 (some (node "node-1")) 8 3) {
      role = candidate;
      granted_votes = node "node-1" ∷ node "node-3" ∷ [];
    } in
    let after = handle raft (heartbeat_of_node_2 4 8 3 0) in
    on_heartbeat_response after.1 (λ peer response reset_election_timer apply_through.
      response.success
      && reset_election_timer
      && role_eq after.0.role follower
      && option_eq node_eq after.0.leader_id (some (node "node-2"))
      && is_empty after.0.granted_votes)

abbrev heartbeat_request_with_higher_term_clears_previous_vote : Bool
heartbeat_request_with_higher_term_clears_previous_vote =
    let after = handle (follower_at 4 (some (node "node-3")) 8 3) (heartbeat_of_node_2 5 8 3 0) in
    is_ok after.1
    && after.0.current_term == 5
    && option_eq node_eq after.0.voted_for none
    && role_eq after.0.role follower
    && option_eq node_eq after.0.leader_id (some (node "node-2"))

abbrev valid_heartbeat_advances_commit_only_through_local_log : Bool
valid_heartbeat_advances_commit_only_through_local_log =
    let raft = record (follower_at 4 none 8 3) { last_applied = 5 } in
    let after = handle raft (heartbeat_of_node_2 4 8 3 12) in
    on_heartbeat_response after.1 (λ peer response reset_election_timer apply_through.
      response.success
      && after.0.commit_index == 8
      && after.0.last_applied == 5
      && some_eq apply_through 8)

abbrev heartbeat_with_mismatched_log_is_rejected_but_recognizes_leader : Bool
heartbeat_with_mismatched_log_is_rejected_but_recognizes_leader =
    let after = handle (follower_at 4 none 8 3) (heartbeat_of_node_2 5 7 2 6) in
    on_heartbeat_response after.1 (λ peer response reset_election_timer apply_through.
      not response.success
      && response.last_log_index == 8
      && response.last_log_term == 3
      && reset_election_timer
      && is_none apply_through
      && after.0.current_term == 5
      && option_eq node_eq after.0.leader_id (some (node "node-2")))

-- The leader that the tests of responses begin with, where node-2 is at these indexes.
abbrev leader_with : (next_index match_index : ℕ) → Raft
leader_with next_index match_index =
    let raft = follower_at 4 (some (node "node-1")) 8 3 in
    record raft {
      role = leader;
      voters =
          put (node "node-2") (record { next_index = next_index; match_index = match_index })
            raft.voters;
    }

-- The response of node-2 to a heartbeat, from the leader that it follows.
abbrev response_of_node_2 :
    (term : ℕ) (success : Bool) (last_log_index last_log_term : ℕ) (leader_id : NodeId) → Event
response_of_node_2 term success last_log_index last_log_term leader_id =
    heartbeat_response (record {
      from = node "node-2";
      response = record {
        term = term;
        success = success;
        last_log_index = last_log_index;
        last_log_term = last_log_term;
        leader_id = some leader_id;
      };
    })

abbrev successful_heartbeat_response_updates_peer_progress : Bool
successful_heartbeat_response_updates_peer_progress =
    let after = handle (leader_with 6 5) (response_of_node_2 4 true 8 3 (node "node-1")) in
    gives_none after.1 && is_at (node "node-2") 8 9 after.0.voters

abbrev rejected_heartbeat_response_rewinds_peer_next_index : Bool
rejected_heartbeat_response_rewinds_peer_next_index =
    let after = handle (leader_with 9 0) (response_of_node_2 4 false 5 2 (node "node-1")) in
    gives_none after.1 && is_at (node "node-2") 0 6 after.0.voters

abbrev heartbeat_response_with_higher_term_makes_leader_step_down : Bool
heartbeat_response_with_higher_term_makes_leader_step_down =
    let raft = record (follower_at 4 (some (node "node-1")) 8 3) {
      role = leader;
      granted_votes = node "node-1" ∷ node "node-3" ∷ [];
    } in
    let after = handle raft (response_of_node_2 5 false 8 3 (node "node-2")) in
    gives_none after.1
    && after.0.current_term == 5
    && role_eq after.0.role follower
    && option_eq node_eq after.0.voted_for none
    && option_eq node_eq after.0.leader_id (some (node "node-2"))
    && is_empty after.0.granted_votes

heartbeat_tests_pass :
    all_pass (
      heartbeat_request_rejects_an_older_term_without_resetting_timer
      ∷ valid_heartbeat_request_makes_candidate_step_down
      ∷ heartbeat_request_with_higher_term_clears_previous_vote
      ∷ valid_heartbeat_advances_commit_only_through_local_log
      ∷ heartbeat_with_mismatched_log_is_rejected_but_recognizes_leader
      ∷ successful_heartbeat_response_updates_peer_progress
      ∷ rejected_heartbeat_response_rewinds_peer_next_index
      ∷ heartbeat_response_with_higher_term_makes_leader_step_down ∷ [])
    ≡ true
unfolding handle put get contains_key modify NodeId-discrete
heartbeat_tests_pass = refl
