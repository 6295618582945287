-- ===== src/Raft/Core/Election.antt =====
-- src/raft/core.rs: election timeouts, vote requests and vote responses. `+` on u64 wraps.
use raft_distributed_log_rs.Prelude.{
  Bool, Option, [], if◌then◌else◌, leb, length, ltb, none, not, some, wrapping_add, ◌&&◌, ◌/◌, ◌==◌,
  ◌||◌, ◌∷◌,
}
use raft_distributed_log_rs.Raft.Core.Base.{Outcome, hard_state, is_none, own_heartbeat, voted_eq}
use raft_distributed_log_rs.Raft.Peers.{contains_key, insert, others}
use raft_distributed_log_rs.Raft.Types.{
  Effect, NodeId, Raft, ReceivedVoteResponse, VoteRequest, candidate, err, follower, is_candidate,
  leader, not_candidate, ok, send_heartbeat, send_request_vote_response, send_request_votes,
}

unfoldable pub handle_election_timeout : Raft → Outcome Effect
handle_election_timeout r =
    let r' = record r {
      current_term = wrapping_add r.current_term 1;
      voted_for = some r.id;
      granted_votes = r.id ∷ [];
      role = candidate;
    } in
    (
      r',
      ok (
          send_request_votes (hard_state r') (others r.id r.voters) (record {
            term = r'.current_term;
            candidate_id = r.id;
            last_log_index = r.last_log_index;
            last_log_term = r.last_log_term;
          })),
    )

-- The first `if` of `handle_request_vote`.
abbrev pub adopt_vote_term : Raft → VoteRequest → Raft
adopt_vote_term r q =
    if ltb r.current_term q.term
    then record r {
      current_term = q.term;
      voted_for = none;
      role = follower;
      leader_id = none;
      granted_votes = [];
    }
    else r

abbrev pub log_is_up_to_date : Raft → VoteRequest → Bool
log_is_up_to_date r q =
    ltb r.last_log_term q.last_log_term
    || (q.last_log_term == r.last_log_term && leb r.last_log_index q.last_log_index)

unfoldable pub handle_request_vote : Raft → VoteRequest → Outcome Effect
handle_request_vote r q =
    let r₁ = adopt_vote_term r q in
    let can_vote = is_none r₁.voted_for || voted_eq r₁.voted_for q.candidate_id in
    let vote_granted = q.term == r₁.current_term && log_is_up_to_date r₁ q && can_vote in
    let records_vote = vote_granted && not (voted_eq r₁.voted_for q.candidate_id) in
    let r₂ = (if records_vote then record r₁ { voted_for = some q.candidate_id } else r₁) in
    let hard_state_changed = ltb r.current_term q.term || records_vote in
    (
      r₂,
      ok (
          send_request_vote_response (if hard_state_changed then some (hard_state r₂) else none)
            q.candidate_id (record { term = r₂.current_term; vote_granted = vote_granted })),
    )

-- A candidate counts a vote of its term: the end of `handle_vote_response`.
abbrev pub count_vote : Raft → NodeId → Outcome (Option Effect)
count_vote r from =
    let (votes, is_new) = insert from r.granted_votes in
    let r₁ = record r { granted_votes = votes } in
    if not is_new
    then (r₁, ok none)
    else if ltb (length r.voters / 2) (length votes)
    then (let r₂ = record r₁ { role = leader } in
        (r₂, ok (some (send_heartbeat (others r.id r.voters) (own_heartbeat r₂)))))
    else (r₁, ok none)

unfoldable pub handle_vote_response : Raft → ReceivedVoteResponse → Outcome (Option Effect)
handle_vote_response r v =
    if ltb r.current_term v.response.term
    then (
      record r {
        current_term = v.response.term;
        role = follower;
        voted_for = none;
        leader_id = none;
        granted_votes = [];
      },
      ok none,
    )
    else if not (is_candidate r.role)
    then (r, err not_candidate)
    else if ltb v.response.term r.current_term
        || not (contains_key v.from r.voters)
        || not v.response.vote_granted
    then (r, ok none)
    else count_vote r v.from
