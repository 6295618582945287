-- ===== src/Raft/Majorities/Rounds.antt =====
-- src/raft/core.rs: a round of an election, from the timeout of the candidate over the vote requests at
-- the other nodes to their answers at the candidate.
use raft_distributed_log_rs.Prelude.{
  List, Option, [], ap, arith, length, map, none, refl, some, subst, sym, wrapping_add, ℕ, ◌*◌,
  ◌++◌, ◌<◌, ◌∷◌, ◌≡◌,
}
use raft_distributed_log_rs.Raft.Commit.{handle_all}
use raft_distributed_log_rs.Raft.Core.{handle}
use raft_distributed_log_rs.Raft.Elections.{Grants}
use raft_distributed_log_rs.Raft.Majorities.{LeadsIn, granted_by, majority_elects}
use raft_distributed_log_rs.Raft.Peers.Laws.{AllKeys, Distinct}
use raft_distributed_log_rs.Raft.Types.{
  Effect, Event, NodeId, Raft, Result, VoteRequest, election_timeout, ok, request_vote,
  send_request_vote_response, send_request_votes, vote_response,
}

-- The request that an election timeout sends, `none` where no request is sent.
abbrev pub vote_request_in : Result (Option Effect) → Option VoteRequest
vote_request_in (ok (some (send_request_votes hard peers request))) = some request
vote_request_in _ = none

-- The events that the result of a node brings to the candidate: its answer to a vote request.
abbrev pub answer_in_result : NodeId → Result (Option Effect) → List Event
answer_in_result from (ok (some (send_request_vote_response hard peer a))) =
    vote_response (record { from = from; response = a }) ∷ []
answer_in_result from _ = []

-- The answers of the nodes to the request, in turn.
unfoldable pub answers_to : VoteRequest → List Raft → List Event
answers_to q [] = []
answers_to q (s ∷ ss) = answer_in_result s.id (handle s (request_vote q)).1 ++ answers_to q ss

-- Every node may grant the request.
abbrev pub AllGrant : VoteRequest → List Raft → Type 0
AllGrant q [] = Unit {0}
AllGrant q (s ∷ ss) = Grants s q × AllGrant q ss

abbrev pub ids : List Raft → List NodeId
ids ss = map (λ (s : Raft). s.id) ss

granted_answer :
    (s : Raft) (q : VoteRequest)
    → Grants s q
    → answer_in_result s.id (handle s (request_vote q)).1 ≡ granted_by q.term s.id ∷ []
unfolding handle
granted_answer s q g = ground (arith, g.not_stale, g.up_to_date, g.vote_is_free)

granted_answers :
    (q : VoteRequest) (ss : List Raft)
    → AllGrant q ss
    → answers_to q ss ≡ map (granted_by q.term) (ids ss)
unfolding answers_to
granted_answers q [] g = refl
granted_answers q (s ∷ ss) g =
    rw (granted_answer s q g.0)
      (ap (λ (es : List Event). granted_by q.term s.id ∷ es) (granted_answers q ss g.1))

sent_term :
    (r : Raft) (q : VoteRequest)
    → vote_request_in (handle r election_timeout).1 ≡ some q
    → q.term ≡ wrapping_add r.current_term 1
unfolding handle
sent_term r q sent = ground (arith, sent)

-- A round of an election succeeds: a node whose election timeout expires sends a request, and where
-- distinct other voters, one at least and with the candidate more than half of all voters, may grant
-- it by the rule for votes, their answers make the candidate the leader of the new term.
pub round_elects :
    (r s : Raft) (ss : List Raft) (q : VoteRequest)
    → vote_request_in (handle r election_timeout).1 ≡ some q
    → AllGrant q (s ∷ ss)
    → AllKeys r.voters (ids (s ∷ ss))
    → Distinct (r.id ∷ ids (s ∷ ss))
    → length r.voters < 2 * length (r.id ∷ ids (s ∷ ss))
    → LeadsIn q.term (handle_all r (election_timeout ∷ answers_to q (s ∷ ss)))
round_elects r s ss q sent grant keys distinct many = rw (granted_answers q (s ∷ ss) grant) (
    subst
      (λ (t : ℕ). LeadsIn t (handle_all r (election_timeout ∷ map (granted_by t) (ids (s ∷ ss)))))
      (sym (sent_term r q sent)) (majority_elects r s.id (ids ss) keys distinct many))
