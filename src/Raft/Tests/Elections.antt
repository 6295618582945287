-- ===== src/Raft/Tests/Elections.antt =====
-- src/raft/core.rs, `tests`: elections and vote requests.
use raft_distributed_log_rs.Prelude.{
  Bool, Option, [], all_pass, false, if◌then◌else◌, none, not, refl, some, true, ℕ, ◌&&◌, ◌==◌, ◌∷◌,
  ◌≡◌,
}
use raft_distributed_log_rs.Raft.Core.{handle}
use raft_distributed_log_rs.Raft.Peers.{member, others}
use raft_distributed_log_rs.Raft.Tests.{
  all_in, follower_at, node, on_request_votes, on_vote_response, option_eq, progress, role_eq,
  set_eq, state_eq,
}
use raft_distributed_log_rs.Raft.Types.{
  Effect, NodeId, NodeId-discrete, Raft, Result, candidate, election_timeout, follower, node_eq,
  request_vote,
}

abbrev election_timeout_starts_a_new_election : Bool
election_timeout_starts_a_new_election =
    let after = handle (follower_at 2 none 8 2) election_timeout in
    role_eq after.0.role candidate
    && after.0.current_term == 3
    && option_eq node_eq after.0.voted_for (some (node "node-1"))
    && on_request_votes after.1 (λ hard peers request.
      request.term == 3
      && node_eq request.candidate_id (node "node-1")
      && request.last_log_index == 8
      && request.last_log_term == 2
      && hard.current_term == 3
      && option_eq node_eq hard.voted_for (some (node "node-1"))
      && set_eq peers (node "node-2" ∷ node "node-3" ∷ []))

abbrev election_requests_votes_only_from_other_voters : Bool
election_requests_votes_only_from_other_voters =
    let raft = record (follower_at 2 none 8 2) {
      voters = (node "node-1", progress) ∷ (node "node-2", progress) ∷ [];
      learners = (node "node-3", progress) ∷ [];
    } in
    on_request_votes (handle raft election_timeout).1
      (λ hard peers request. set_eq peers (node "node-2" ∷ []))

-- The helper `request_vote`: the state and the result of `handle`.
abbrev after_request_vote :
    Raft → NodeId → (term last_log_index last_log_term : ℕ) → Raft × Result (Option Effect)
after_request_vote raft candidate_id term last_log_index last_log_term = handle raft (
    request_vote (record {
      term = term;
      candidate_id = candidate_id;
      last_log_index = last_log_index;
      last_log_term = last_log_term;
    }))

-- The peer, the term and the vote of the answer that the helper `request_vote` returns.
abbrev answers : Result (Option Effect) → NodeId → ℕ → Bool → Bool
answers result peer term vote_granted = on_vote_response result (λ hard to response.
    node_eq to peer
    && response.term == term
    && (if vote_granted then response.vote_granted else not response.vote_granted))

abbrev request_vote_rejects_an_older_term : Bool
request_vote_rejects_an_older_term =
    let after = after_request_vote (follower_at 4 none 8 3) (node "node-2") 3 8 3 in
    answers after.1 (node "node-2") 4 false
    && after.0.current_term == 4
    && option_eq node_eq after.0.voted_for none
    && role_eq after.0.role follower

abbrev request_vote_with_a_newer_term_makes_candidate_step_down : Bool
request_vote_with_a_newer_term_makes_candidate_step_down =
    let raft = record (follower_at 4 (some (node "node-1")) 8 3) { role = candidate } in
    let after = after_request_vote raft (node "node-2") 5 8 3 in
    answers after.1 (node "node-2") 5 true
    && after.0.current_term == 5
    && option_eq node_eq after.0.voted_for (some (node "node-2"))
    && role_eq after.0.role follower

abbrev request_vote_rejects_a_second_candidate_in_the_same_term : Bool
request_vote_rejects_a_second_candidate_in_the_same_term =
    let after =
      after_request_vote (follower_at 4 (some (node "node-3")) 8 3) (node "node-2") 4 8 3 in
    answers after.1 (node "node-2") 4 false
    && option_eq node_eq after.0.voted_for (some (node "node-3"))

abbrev request_vote_is_idempotent_for_the_same_candidate : Bool
request_vote_is_idempotent_for_the_same_candidate =
    let after =
      after_request_vote (follower_at 4 (some (node "node-2")) 8 3) (node "node-2") 4 8 3 in
    answers after.1 (node "node-2") 4 true
    && option_eq node_eq after.0.voted_for (some (node "node-2"))

abbrev request_vote_rejects_a_candidate_with_a_stale_log : Bool
request_vote_rejects_a_candidate_with_a_stale_log =
    let stale_term = after_request_vote (follower_at 4 none 8 3) (node "node-2") 4 100 2 in
    let stale_index = after_request_vote (follower_at 4 none 8 3) (node "node-2") 4 7 3 in
    answers stale_term.1 (node "node-2") 4 false && answers stale_index.1 (node "node-2") 4 false

abbrev higher_term_vote_request_is_adopted_even_when_candidate_log_is_stale : Bool
higher_term_vote_request_is_adopted_even_when_candidate_log_is_stale =
    let raft = record (follower_at 4 (some (node "node-1")) 8 3) { role = candidate } in
    let after = after_request_vote raft (node "node-2") 5 100 2 in
    on_vote_response after.1 (λ hard peer response.
      not response.vote_granted
      && response.term == 5
      && after.0.current_term == 5
      && option_eq node_eq after.0.voted_for none
      && role_eq after.0.role follower
      && option_eq state_eq hard (some (record { current_term = 5; voted_for = none })))

abbrev request_vote_grants_a_candidate_with_an_up_to_date_log : Bool
request_vote_grants_a_candidate_with_an_up_to_date_log =
    let newer_term = after_request_vote (follower_at 4 none 8 3) (node "node-2") 4 1 4 in
    let same_position = after_request_vote (follower_at 4 none 8 3) (node "node-2") 4 8 3 in
    answers newer_term.1 (node "node-2") 4 true && answers same_position.1 (node "node-2") 4 true

election_tests_pass :
    all_pass (
      election_timeout_starts_a_new_election ∷ election_requests_votes_only_from_other_voters
      ∷ request_vote_rejects_an_older_term
      ∷ request_vote_with_a_newer_term_makes_candidate_step_down
      ∷ request_vote_rejects_a_second_candidate_in_the_same_term
      ∷ request_vote_is_idempotent_for_the_same_candidate
      ∷ request_vote_rejects_a_candidate_with_a_stale_log
      ∷ higher_term_vote_request_is_adopted_even_when_candidate_log_is_stale
      ∷ request_vote_grants_a_candidate_with_an_up_to_date_log ∷ [])
    ≡ true
unfolding handle all_in member others NodeId-discrete
election_tests_pass = refl
