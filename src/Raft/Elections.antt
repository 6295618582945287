-- ===== src/Raft/Elections.antt =====
-- src/raft/core.rs: who is granted a vote, what must be persisted with the answer, and how a node
-- becomes a leader.
use raft_distributed_log_rs.Prelude.{
  Bool, List, Option, [], arith, false, inl, inr, length, none, some, sym, true, ◌*◌, ◌<◌, ◌↔◌, ◌∙◌,
  ◌∷◌, ◌≡◌, ◌≢◌, ◌≤◌, ◌⊎◌,
}
use raft_distributed_log_rs.Raft.Core.{handle}
use raft_distributed_log_rs.Raft.Core.Base.{hard_state}
use raft_distributed_log_rs.Raft.Core.Heartbeats.{observe}
use raft_distributed_log_rs.Raft.Core.Replication.{progress_to}
use raft_distributed_log_rs.Raft.Peers.{contains_key, insert}
use raft_distributed_log_rs.Raft.Peers.Laws.{
  AllKeys, AllKeys-modify, Distinct, Share, contains_key-modify, overlap,
}
use raft_distributed_log_rs.Raft.Types.{
  Effect, Event, NodeId, Raft, ReceivedVoteResponse, Result, State, VoteRequest,
  append_entries_response, candidate, election_timeout, heartbeat_response, leader,
  local_entries_appended, ok, request_vote, send_request_vote_response, send_request_votes,
  vote_response,
}

-- The rule for granting a vote: the request is not of an earlier term, the candidate's log is at
-- least as new, and no other node has the vote of the term.
abbrev pub UpToDate : Raft → VoteRequest → Type 0
UpToDate r q =
    (r.last_log_term < q.last_log_term)
    ⊎ ((q.last_log_term ≡ r.last_log_term) × (r.last_log_index ≤ q.last_log_index))

abbrev pub VoteIsFree : Raft → VoteRequest → Type 0
VoteIsFree r q =
    (r.current_term < q.term) ⊎ ((r.voted_for ≡ none) ⊎ (r.voted_for ≡ some q.candidate_id))

pub record Grants (r : Raft) (q : VoteRequest) : Type 0 where
  pub not_stale : r.current_term ≤ q.term
  pub up_to_date : UpToDate r q
  pub vote_is_free : VoteIsFree r q

-- What an effect asks to be saved before its message is sent.
abbrev pub to_persist : Result (Option Effect) → Option State
to_persist (ok (some (send_request_votes hard_state peers q))) = some hard_state
to_persist (ok (some (send_request_vote_response hard_state peer a))) = hard_state
to_persist _ = none

-- The effect grants a vote.
abbrev pub grants_vote : Result (Option Effect) → Bool
grants_vote (ok (some (send_request_vote_response hard_state peer a))) = a.vote_granted
grants_vote _ = false

-- A vote request is granted exactly if it is not of an earlier term, the candidate's log is at
-- least as new as the node's, and the node has not given the vote of that term to another node.
pub grants_vote_iff :
    (r : Raft) (q : VoteRequest) → (grants_vote (handle r (request_vote q)).1 ≡ true) ↔ Grants r q
unfolding handle
grants_vote_iff r q = (λ h. grants h, λ h. ground arith)
  where
    grants : grants_vote (handle r (request_vote q)).1 ≡ true → Grants r q
    grants h = record {
      not_stale = ground arith;
      up_to_date = ground arith;
      vote_is_free = ground arith;
    }

-- An answer to a vote request carries the new term and vote, to be saved first, or neither has
-- changed; the vote requests of an election always carry them.
pub votes_persist :
    (r : Raft) (e : Event)
    → ((e ≡ election_timeout) ⊎ ((q : VoteRequest) × (e ≡ request_vote q)))
    → (to_persist (handle r e).1 ≡ some (hard_state (handle r e).0))
      ⊎ ((to_persist (handle r e).1 ≡ none) × (hard_state (handle r e).0 ≡ hard_state r))
unfolding handle
votes_persist r e (inl timeout) = ground arith
votes_persist r e (inr (q, request)) = ground arith

-- The node is a voter, and has granted votes from distinct voters only.
pub record ElectionInv (r : Raft) : Type 0 where
  pub self_votes : contains_key r.id r.voters ≡ true
  pub from_voters : AllKeys r.voters r.granted_votes
  pub distinct : Distinct r.granted_votes

-- Every event, in every state, keeps the invariant of elections.
pub handle-ElectionInv : (r : Raft) (e : Event) → ElectionInv r → ElectionInv (handle r e).0
unfolding handle insert
handle-ElectionInv r election_timeout h = ground arith
handle-ElectionInv r (heartbeat_response v) h = ground (
  arith,
  contains_key-modify r.id v.from (observe r.last_log_index v.response) r.voters,
  AllKeys-modify v.from (observe r.last_log_index v.response) r.voters r.granted_votes
      h.from_voters,
)
handle-ElectionInv r (append_entries_response v) h = ground (
  arith,
  contains_key-modify r.id v.from (λ _. progress_to v.response.last_log_index) r.voters,
  AllKeys-modify v.from (λ _. progress_to v.response.last_log_index) r.voters r.granted_votes
      h.from_voters,
)
handle-ElectionInv r (local_entries_appended e) h = ground (
  arith,
  contains_key-modify r.id r.id (λ _. progress_to e.index) r.voters,
  AllKeys-modify r.id (λ _. progress_to e.index) r.voters r.granted_votes h.from_voters,
)
handle-ElectionInv r _ h = ground arith

-- What has happened when a node becomes a leader by an event.
pub record WonElection (r : Raft) (e : Event) : Type 0 where
  pub was_candidate : r.role ≡ candidate
  pub same_term : (handle r e).0.current_term ≡ r.current_term
  pub majority : length r.voters < 2 * length (handle r e).0.granted_votes
  pub from_voters : AllKeys r.voters (handle r e).0.granted_votes
  pub distinct : Distinct (handle r e).0.granted_votes

voters_of : (r : Raft) (v : ReceivedVoteResponse) → (handle r (vote_response v)).0.voters ≡ r.voters
unfolding handle
voters_of r v = ground arith

-- A node that is not a leader becomes one only as a candidate, in the term of its candidacy, and
-- with the granted votes of distinct voters that are more than half of all voters.
pub wins_by_majority :
    (r : Raft) (e : Event)
    → ElectionInv r
    → r.role ≢ leader
    → (handle r e).0.role ≡ leader
    → WonElection r e
wins_by_majority r (vote_response v) h was now = record {
  was_candidate = unfold handle in ground arith;
  same_term = unfold handle in ground arith;
  majority = unfold handle insert in ground arith;
  from_voters = rw (voters_of r v) at (handle-ElectionInv r (vote_response v) h).from_voters;
  distinct = (handle-ElectionInv r (vote_response v) h).distinct;
}
wins_by_majority r election_timeout h was now = unfold handle in absurd (ground arith)
wins_by_majority r _ h was now = unfold handle in absurd (ground arith)

-- Two nodes with the same voters.
pub record SameVoters (r s : Raft) : Type 0 where
  pub same_size : length s.voters ≡ length r.voters
  pub same_keys : (k : NodeId) → contains_key k s.voters ≡ contains_key k r.voters

AllKeys-SameVoters :
    (r s : Raft) (l : List NodeId) → SameVoters r s → AllKeys s.voters l → AllKeys r.voters l
AllKeys-SameVoters r s [] same h = tt
AllKeys-SameVoters r s (k ∷ l) same h =
    (sym (same.same_keys k) ∙ h.0, AllKeys-SameVoters r s l same h.1)

-- If two nodes with the same voters each win an election, some voter's vote was granted to both.
pub leaders_overlap :
    (r s : Raft) (e f : Event)
    → SameVoters r s
    → ElectionInv r
    → ElectionInv s
    → r.role ≢ leader
    → s.role ≢ leader
    → (handle r e).0.role ≡ leader
    → (handle s f).0.role ≡ leader
    → Share (handle r e).0.granted_votes (handle s f).0.granted_votes
leaders_overlap r s e f same hr hs nr ns lr ls =
    let w = wins_by_majority r e hr nr lr in
    let w' = wins_by_majority s f hs ns ls in
    overlap r.voters (handle r e).0.granted_votes (handle s f).0.granted_votes w.distinct
      w'.distinct w.from_voters
      (AllKeys-SameVoters r s (handle s f).0.granted_votes same w'.from_voters)
      (omega (arith, w.majority, w'.majority, same.same_size))
