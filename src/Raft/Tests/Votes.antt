-- ===== src/Raft/Tests/Votes.antt =====
-- src/raft/core.rs, `tests`: the responses to vote requests.
use raft_distributed_log_rs.Prelude.{
  Bool, [], all_pass, false, length, none, refl, some, true, ℕ, ◌&&◌, ◌==◌, ◌∷◌, ◌≡◌,
}
use raft_distributed_log_rs.Raft.Core.{handle}
use raft_distributed_log_rs.Raft.Core.Replication.{is_empty}
use raft_distributed_log_rs.Raft.Peers.{contains_key, insert, member, others}
use raft_distributed_log_rs.Raft.Tests.{
  all_in, follower_at, gives_none, is_not_candidate, node, on_heartbeat, option_eq, progress, put,
  role_eq, set_eq,
}
use raft_distributed_log_rs.Raft.Types.{
  Event, NodeId-discrete, Raft, candidate, follower, leader, node_eq, vote_response,
}

-- The candidate that the tests begin with: it has its own vote.
abbrev candidate_at : ℕ → Raft
candidate_at term = record (follower_at term (some (node "node-1")) 8 3) {
  role = candidate;
  granted_votes = node "node-1" ∷ [];
}

-- The event that hands over the answer of node-2.
abbrev vote_of_node_2 : ℕ → Bool → Event
vote_of_node_2 term vote_granted = vote_response (record {
  from = node "node-2";
  response = record { term = term; vote_granted = vote_granted };
})

abbrev granted_vote_that_reaches_a_majority_makes_candidate_leader : Bool
granted_vote_that_reaches_a_majority_makes_candidate_leader =
    let after = handle (candidate_at 4) (vote_of_node_2 4 true) in
    length after.0.granted_votes == 2
    && role_eq after.0.role leader
    && on_heartbeat after.1 (λ peers request.
      request.term == 4
      && node_eq request.leader_id (node "node-1")
      && set_eq peers (node "node-2" ∷ node "node-3" ∷ []))

abbrev denied_vote_does_not_change_candidate_votes : Bool
denied_vote_does_not_change_candidate_votes =
    let after = handle (candidate_at 4) (vote_of_node_2 4 false) in
    gives_none after.1 && length after.0.granted_votes == 1 && role_eq after.0.role candidate

abbrev duplicate_granted_vote_is_counted_only_once : Bool
duplicate_granted_vote_is_counted_only_once =
    let raft = candidate_at 4 in
    let five = record raft {
      voters = put (node "node-5") progress (put (node "node-4") progress raft.voters);
    } in
    let once = handle five (vote_of_node_2 4 true) in
    let twice = handle once.0 (vote_of_node_2 4 true) in
    gives_none once.1
    && gives_none twice.1
    && length twice.0.granted_votes == 2
    && role_eq twice.0.role candidate

abbrev stale_vote_response_is_ignored : Bool
stale_vote_response_is_ignored =
    let after = handle (candidate_at 5) (vote_of_node_2 4 true) in
    gives_none after.1
    && length after.0.granted_votes == 1
    && role_eq after.0.role candidate
    && after.0.current_term == 5

abbrev higher_term_vote_response_makes_candidate_step_down : Bool
higher_term_vote_response_makes_candidate_step_down =
    let after = handle (candidate_at 4) (vote_of_node_2 5 false) in
    gives_none after.1
    && after.0.current_term == 5
    && role_eq after.0.role follower
    && option_eq node_eq after.0.voted_for none
    && is_empty after.0.granted_votes

abbrev vote_response_is_rejected_when_node_is_not_a_candidate : Bool
vote_response_is_rejected_when_node_is_not_a_candidate =
    let after = handle (follower_at 4 none 8 3) (vote_of_node_2 4 true) in
    is_not_candidate after.1 && is_empty after.0.granted_votes && role_eq after.0.role follower

vote_response_tests_pass :
    all_pass (
      granted_vote_that_reaches_a_majority_makes_candidate_leader
      ∷ denied_vote_does_not_change_candidate_votes ∷ duplicate_granted_vote_is_counted_only_once
      ∷ stale_vote_response_is_ignored ∷ higher_term_vote_response_makes_candidate_step_down
      ∷ vote_response_is_rejected_when_node_is_not_a_candidate ∷ [])
    ≡ true
unfolding handle all_in member others contains_key insert put NodeId-discrete
vote_response_tests_pass = refl
