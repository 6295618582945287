-- ===== src/Raft/Conflicts.antt =====
-- src/raft/core.rs: behaviour that departs from the Raft protocol, each for the whole class of
-- states and messages that show it.
use raft_distributed_log_rs.Prelude.{
  Option, [], arith, false, length, none, some, suc, true, ℕ, ◌*◌, ◌/◌, ◌<◌, ◌∷◌, ◌≡◌, ◌≢◌, ◌≤◌,
}
use raft_distributed_log_rs.Raft.Core.{handle}
use raft_distributed_log_rs.Raft.Core.Replication.{prefix_matches, progress_to}
use raft_distributed_log_rs.Raft.Majorities.Behind.{IsBehind, caught_up-modify}
use raft_distributed_log_rs.Raft.Peers.{caught_up, contains_key, get, insert, member}
use raft_distributed_log_rs.Raft.Peers.Laws.{contains_key_of_get, get-modify_self, length-modify}
use raft_distributed_log_rs.Raft.Types.{
  AppendEntriesResponse, Effect, Event, HeartbeatRequest, NodeId, OperationId, Progress, Raft,
  ReceivedAppendEntries, ReceivedAppendEntriesResponse, ReceivedVoteResponse, Result,
  append_entries, append_entries_response, apply_committed, candidate, election_timeout, heartbeat,
  heartbeat_timeout, leader, ok, panic, persist_entries, reject_append_entries, send_heartbeat,
  vote_response,
}

-- The term in which the node sends heartbeats as a leader.
abbrev pub leads_in : Result (Option Effect) → Option ℕ
leads_in (ok (some (send_heartbeat peers q))) = some q.term
leads_in _ = none

-- What an accepted request asks to truncate after.
abbrev pub truncates : Result (Option Effect) → Option (Option ℕ)
truncates (ok (some (persist_entries i p a truncate_after c))) = some truncate_after
truncates _ = none

-- A leader that receives a request of a later term whose previous entry it does not hold adopts
-- that term and names the sender as its leader, and still sends heartbeats as the leader, in the
-- sender's term.
pub rejection_keeps_leader :
    (r : Raft) (a : ReceivedAppendEntries)
    → r.role ≡ leader
    → r.current_term < a.request.term
    → prefix_matches r a ≡ false
    → let r' = (handle r (append_entries a)).0 in
      (r'.leader_id ≡ some a.request.leader_id)
      × (leads_in (handle r' heartbeat_timeout).1 ≡ some a.request.term)
unfolding handle
rejection_keeps_leader r a l t m = ground arith

-- A candidate that receives a request of a later term whose previous entry it does not hold stays a
-- candidate, with the vote and the granted votes of its own term, and counts these in the later term:
-- with one granted vote fewer than a majority, one more vote of the later term, from a voter that has
-- not granted one, makes it the leader of that term.
pub rejection_keeps_votes :
    (r : Raft) (a : ReceivedAppendEntries) (from : NodeId)
    → r.role ≡ candidate
    → r.current_term < a.request.term
    → prefix_matches r a ≡ false
    → contains_key from r.voters ≡ true
    → member from r.granted_votes ≡ false
    → length r.voters / 2 ≡ length r.granted_votes
    → let r' = (handle r (append_entries a)).0 in
      (r'.role ≡ candidate)
      × (r'.current_term ≡ a.request.term)
      × (r'.voted_for ≡ r.voted_for)
      × (r'.granted_votes ≡ r.granted_votes)
      × (leads_in
            (handle r' (
              vote_response (record {
                from = from;
                response = record { term = a.request.term; vote_granted = true };
              }))).1
          ≡ some a.request.term)
unfolding handle insert
rejection_keeps_votes r a from c t m k n h = ground arith

-- Once a heartbeat of the leader's term has been seen, an accepted request of that leader never
-- asks for truncation, also where the log goes on past the previous entry.
pub heartbeat_prevents_truncation :
    (r : Raft) (q : HeartbeatRequest) (a : ReceivedAppendEntries)
    → r.current_term ≤ q.term
    → a.request.term ≡ q.term
    → prefix_matches (handle r (heartbeat q)).0 a ≡ true
    → truncates (handle (handle r (heartbeat q)).0 (append_entries a)).1 ≡ some none
unfolding handle
heartbeat_prevents_truncation r q a t s m = ground arith

-- A rejection that names the leader's own last index is counted as a match: the voter's match
-- index becomes that index.
pub rejection_counts_as_match :
    (r : Raft) (v : ReceivedAppendEntriesResponse)
    → r.role ≡ leader
    → v.response.term ≤ r.current_term
    → v.response.success ≡ false
    → v.response.last_log_index ≡ r.last_log_index
    → contains_key v.from r.voters ≡ true
    → contains_key v.from r.learners ≡ false
    → get v.from (handle r (append_entries_response v)).0.voters
      ≡ some (progress_to r.last_log_index)
unfolding handle
rejection_counts_as_match r v l t s i k n =
    ground (arith, get-modify_self v.from (progress_to v.response.last_log_index) r.voters k)

-- A candidate that wins keeps the progress that it recorded for its peers before, in whatever term
-- it led then.
pub winning_keeps_progress :
    (r : Raft) (v : ReceivedVoteResponse)
    → (handle r (vote_response v)).0.role ≡ leader
    → ((handle r (vote_response v)).0.voters ≡ r.voters)
      × ((handle r (vote_response v)).0.learners ≡ r.learners)
unfolding handle
winning_keeps_progress r v l = ground arith

-- The response that a follower sends for a request, if it sends one at once.
abbrev pub response_in : Result (Option Effect) → Option AppendEntriesResponse
response_in (ok (some (reject_append_entries i p a))) = some a
response_in (ok (some (persist_entries i p a t c))) = some a
response_in _ = none

-- A follower whose log is longer than the leader's, and which is not in a later term, makes the
-- leader panic by refusing a request whose previous entry it does not hold: its response, once
-- delivered, fails the leader's assertion.
pub longer_follower_panics_leader :
    (l f : Raft) (a : ReceivedAppendEntries) (i : OperationId) (response : AppendEntriesResponse)
    → l.role ≡ leader
    → a.request.term ≡ l.current_term
    → f.current_term ≤ a.request.term
    → prefix_matches f a ≡ false
    → l.last_log_index < f.last_log_index
    → response_in (handle f (append_entries a)).1 ≡ some response
    → (handle l
        (append_entries_response (record { operation_id = i; from = f.id; response = response }))).1
      ≡ panic
unfolding handle
longer_follower_panics_leader l f a i response r t s m longer q = ground arith

-- A candidate that is its only voter and has its own vote does not become a leader by any event.
pub lone_voter_never_wins :
    (r : Raft) (e : Event) (p : Progress)
    → r.role ≡ candidate
    → r.voters ≡ (r.id, p) ∷ []
    → r.granted_votes ≡ r.id ∷ []
    → (handle r e).0.role ≢ leader
unfolding handle insert contains_key member
lone_voter_never_wins r (vote_response v) p c vs g = λ l. ground (arith, c, vs, g)
lone_voter_never_wins r election_timeout p c vs g = λ l. ground arith
lone_voter_never_wins r _ p c vs g = λ l. ground arith

-- A follower that is not in a later term, and whose log ends at the index where the leader's ends,
-- refuses a request of the leader's term, since it does not hold the previous entry. It persists
-- nothing, and its log ends as before, yet its response, once delivered, is counted as a match: a
-- leader that has not committed all of its log commits its last entry, where this follower is a voter
-- that the leader has recorded below that entry, and no learner, and where with it more than half of
-- the voters are recorded at that entry or beyond.
pub rejection_commits :
    (l f : Raft) (a : ReceivedAppendEntries) (i : OperationId) (response : AppendEntriesResponse)
    → l.role ≡ leader
    → a.request.term ≡ l.current_term
    → f.current_term ≤ a.request.term
    → prefix_matches f a ≡ false
    → f.last_log_index ≡ l.last_log_index
    → response_in (handle f (append_entries a)).1 ≡ some response
    → IsBehind l.last_log_index l.voters f.id
    → contains_key f.id l.learners ≡ false
    → l.commit_index < l.last_log_index
    → length l.voters < 2 * suc (caught_up l.last_log_index l.voters)
    → let f' = (handle f (append_entries a)).0 in
      let answered =
        handle l (
          append_entries_response
            (record { operation_id = i; from = f.id; response = response })) in
      (response.success ≡ false)
      × (truncates (handle f (append_entries a)).1 ≡ none)
      × (f'.last_log_index ≡ f.last_log_index)
      × (f'.last_log_term ≡ f.last_log_term)
      × (answered.0.commit_index ≡ l.last_log_index)
      × (answered.1 ≡ ok (some (apply_committed i l.last_log_index)))
unfolding handle
rejection_commits l f a i response leads same_term not_later unmatched ends sent low learner below
      many =
    ground (
      arith,
      sent,
      contains_key_of_get f.id l.voters low.0 low.1,
      caught_up-modify l.last_log_index f.id l.voters low,
      length-modify f.id (λ _. progress_to l.last_log_index) l.voters,
    )
