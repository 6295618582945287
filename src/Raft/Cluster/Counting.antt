-- ===== src/Raft/Cluster/Counting.antt =====
-- src/raft/core.rs: what one event does to the votes that a node counts and saves.
use raft_distributed_log_rs.Prelude.{
  [], arith, inl, inr, length, none, refl, some, true, ◌*◌, ◌<◌, ◌∷◌, ◌≡◌, ◌≢◌, ◌⊎◌,
}
use raft_distributed_log_rs.Raft.Cluster.{IsFollowed}
use raft_distributed_log_rs.Raft.Core.{handle}
use raft_distributed_log_rs.Raft.Core.Base.{hard_state}
use raft_distributed_log_rs.Raft.Elections.{to_persist}
use raft_distributed_log_rs.Raft.Peers.{insert}
use raft_distributed_log_rs.Raft.Types.{
  Event, NodeId, Raft, ReceivedVoteResponse, Role, candidate, election_timeout, follower, leader,
  vote_response,
}
use raft_distributed_log_rs.Raft.Votes.{cast}

-- How a node that is not a follower comes to the votes that it counts.
pub data Counting (r : Raft) (e : Event) : Type 0 where
  gives_up : (handle r e).0.role ≡ follower → Counting r e
  runs :
      (handle r e).0.granted_votes ≡ r.id ∷ []
      → cast (handle r e).1 ≡ some (record { term = (handle r e).0.current_term; for = r.id })
      → Counting r e
  goes_on :
      (handle r e).0.granted_votes ≡ r.granted_votes
      → (handle r e).0.current_term ≡ r.current_term
      → r.role ≢ follower
      → Counting r e
  counts :
      (v : ReceivedVoteResponse)
      → e ≡ vote_response v
      → v.response.vote_granted ≡ true
      → v.response.term ≡ r.current_term
      → r.role ≢ follower
      → (handle r e).0.granted_votes ≡ v.from ∷ r.granted_votes
      → (handle r e).0.current_term ≡ r.current_term
      → Counting r e

stays_follower :
    (r : Raft) (e : Event)
    → r.role ≡ follower
    → e ≢ election_timeout
    → (handle r e).0.role ≡ follower
unfolding handle
stays_follower r election_timeout h ne = absurd (ne refl)
stays_follower r _ h ne = ground arith

counting_up :
    (r : Raft) (e : Event)
    → IsFollowed r e
    → r.role ≢ follower
    → ((v : ReceivedVoteResponse) → e ≢ vote_response v)
    → e ≢ election_timeout
    → ((handle r e).0.role ≡ follower)
      ⊎ (((handle r e).0.granted_votes ≡ r.granted_votes)
          × ((handle r e).0.current_term ≡ r.current_term))
unfolding handle
counting_up r election_timeout f up nv nt = absurd (nt refl)
counting_up r (vote_response v) f up nv nt = absurd (nv v refl)
counting_up r _ f up nv nt = ground arith

vote_cases :
    (r : Raft) (v : ReceivedVoteResponse)
    → r.role ≢ follower
    → ((handle r (vote_response v)).0.role ≡ follower)
      ⊎ (((handle r (vote_response v)).0.granted_votes ≡ r.granted_votes)
          × ((handle r (vote_response v)).0.current_term ≡ r.current_term))
      ⊎ ((v.response.vote_granted ≡ true)
          × (v.response.term ≡ r.current_term)
          × ((handle r (vote_response v)).0.granted_votes ≡ v.from ∷ r.granted_votes)
          × ((handle r (vote_response v)).0.current_term ≡ r.current_term))
unfolding handle insert
vote_cases r v up = ground arith

role_cases : (x : Role) → (x ≡ follower) ⊎ (x ≢ follower)
role_cases follower = inl refl
role_cases candidate = inr (λ h. cc)
role_cases leader = inr (λ h. cc)

pub counting : (r : Raft) (e : Event) → IsFollowed r e → Counting r e
counting r election_timeout f = runs (unfold handle in refl) (unfold handle in refl)
counting r (vote_response v) f = elim (role_cases r.role) [
  | inl down ↦ gives_up (stays_follower r (vote_response v) down (λ h. cc))
  | inr up ↦ elim (vote_cases r v up) [
    | inl down ↦ gives_up down
    | inr (inl (votes, term)) ↦ goes_on votes term up
    | inr (inr (granted, current, votes, term)) ↦ counts v refl granted current up votes term
  ]
]
counting r e f = elim (role_cases r.role) [
  | inl down ↦ gives_up (stays_follower r e down (λ h. cc))
  | inr up ↦ elim (counting_up r e f up (λ v h. cc) (λ h. cc)) [
    | inl down ↦ gives_up down
    | inr (votes, term) ↦ goes_on votes term up
  ]
]

-- A vote that a node holds after an event is saved by it, or was there before, in the same term.
pub vote_kept :
    (r : Raft) (e : Event) (c : NodeId)
    → IsFollowed r e
    → (handle r e).0.voted_for ≡ some c
    → (to_persist (handle r e).1 ≡ some (hard_state (handle r e).0))
      ⊎ ((to_persist (handle r e).1 ≡ none) × (hard_state (handle r e).0 ≡ hard_state r))
unfolding handle
vote_kept r election_timeout c f h = ground arith
vote_kept r _ c f h = ground arith

-- Whatever is saved is the hard state after the event.
pub saved_state :
    (r : Raft) (e : Event)
    → (to_persist (handle r e).1 ≡ none)
      ⊎ (to_persist (handle r e).1 ≡ some (hard_state (handle r e).0))
unfolding handle
saved_state r election_timeout = ground arith
saved_state r _ = ground arith

-- A node that leads after an event led before it with the same votes, or has won by it.
pub leading :
    (r : Raft) (e : Event)
    → (handle r e).0.role ≡ leader
    → ((r.role ≡ leader) × ((handle r e).0.granted_votes ≡ r.granted_votes))
      ⊎ (length r.voters < 2 * length (handle r e).0.granted_votes)
unfolding handle insert
leading r election_timeout h = absurd (ground arith)
leading r _ h = ground arith
