-- ===== src/Raft/Votes.antt =====
-- src/raft/core.rs: the votes that a node casts over a list of events. A node casts a vote when it
-- answers a request with a grant, and for itself when an election timeout starts an election.
use raft_distributed_log_rs.Prelude.{
  List, Option, [], arith, get_elem?, if◌then◌else◌, inl, inr, length, none, some, suc, sym,
  u64_mod, zero, ℕ, ◌+◌, ◌<◌, ◌∷◌, ◌≡◌, ◌≤◌, ◌⊎◌,
}
use raft_distributed_log_rs.Raft.Core.{handle}
use raft_distributed_log_rs.Raft.Core.Base.{hard_state}
use raft_distributed_log_rs.Raft.Terms.{HasVoted, event_term, handle-HasVoted, handle-term_bound}
use raft_distributed_log_rs.Raft.Types.{
  Effect, Event, NodeId, Raft, Result, election_timeout, ok, send_request_vote_response,
  send_request_votes,
}

pub record Vote : Type 0 where
  pub term : ℕ
  pub for : NodeId

-- The vote in what `handle` returns.
abbrev pub cast : Result (Option Effect) → Option Vote
cast (ok (some (send_request_votes hard_state peers q))) =
    some (record { term = q.term; for = q.candidate_id })
cast (ok (some (send_request_vote_response hard_state peer a))) =
    if a.vote_granted then some (record { term = a.term; for = peer }) else none
cast _ = none

abbrev pub prepend {ℓ} : {A : Type ℓ} → Option A → List A → List A
prepend none l = l
prepend (some a) l = a ∷ l

-- The votes cast while the events are handled in turn.
unfoldable pub votes_cast : Raft → List Event → List Vote
votes_cast r [] = []
votes_cast r (e ∷ es) = prepend (cast (handle r e).1) (votes_cast (handle r e).0 es)

-- No message carries a term above `b`.
abbrev pub TermsUpTo : ℕ → List Event → Type 0
TermsUpTo b [] = Unit {0}
TermsUpTo b (e ∷ es) = (event_term e ≤ b) × TermsUpTo b es

-- Whoever casts a vote is then in its term, with that vote given.
pub cast_HasVoted :
    (r : Raft) (e : Event) (v : Vote)
    → cast (handle r e).1 ≡ some v
    → ((handle r e).0.current_term ≡ v.term) × ((handle r e).0.voted_for ≡ some v.for)
unfolding handle
cast_HasVoted r election_timeout v h = ground arith
cast_HasVoted r _ v h = ground arith

TermsUpTo-suc : (b : ℕ) (es : List Event) → TermsUpTo b es → TermsUpTo (b + 1) es
TermsUpTo-suc b [] h = tt
TermsUpTo-suc b (e ∷ es) h = (omega arith, TermsUpTo-suc b es h.1)

prepend_cases {ℓ} :
    {A : Type ℓ} (o : Option A) (l : List A) (i : ℕ) {a : A}
    → get_elem? (prepend o l) i ≡ some a
    → (o ≡ some a) ⊎ ((k : ℕ) × (get_elem? l k ≡ some a))
prepend_cases none l i h = inr (i, h)
prepend_cases (some b) l zero h = inl h
prepend_cases (some b) l (suc i) h = inr (i, h)

-- Every vote that is cast later, in a term where the node has voted, goes to the same node.
later_votes :
    (b : ℕ) (r : Raft) (es : List Event) (t : ℕ) (c : NodeId)
    → r.current_term ≤ b
    → TermsUpTo b es
    → b + length es + 1 < u64_mod
    → HasVoted r t c
    → (i : ℕ) (v : Vote) → get_elem? (votes_cast r es) i ≡ some v
    → v.term ≡ t
    → c ≡ v.for
unfolding votes_cast
later_votes b r [] t c low up room voted i v at same = cc
later_votes b r (e ∷ es) t c low up room voted i v at same =
    let voted' = handle-HasVoted r e (omega arith) voted in
    elim (prepend_cases (cast (handle r e).1) (votes_cast (handle r e).0 es) i at) [
      | inl now ↦ ground (arith, cast_HasVoted r e v now, voted')
      | inr (k, at') ↦
          later_votes (b + 1) (handle r e).0 es t c (omega (arith, handle-term_bound r e))
            (TermsUpTo-suc b es up.1) (omega arith) voted' k v at' same
    ]

-- Over any list of events, whatever their order, a node that starts at a term up to `b` and
-- receives no message of a term above `b` never casts votes for two nodes in one term, provided
-- the term cannot overflow.
pub one_vote_per_term :
    (b : ℕ) (r : Raft) (es : List Event)
    → r.current_term ≤ b
    → TermsUpTo b es
    → b + length es + 1 < u64_mod
    → (i j : ℕ) (v w : Vote) → get_elem? (votes_cast r es) i ≡ some v
    → get_elem? (votes_cast r es) j ≡ some w
    → v.term ≡ w.term
    → v.for ≡ w.for
unfolding votes_cast
one_vote_per_term b r [] low up room i j v w at at' same = cc
one_vote_per_term b r (e ∷ es) low up room i j v w at at' same =
    elim (prepend_cases (cast (handle r e).1) (votes_cast (handle r e).0 es) i at) [
      | inl now ↦ elim (prepend_cases (cast (handle r e).1) (votes_cast (handle r e).0 es) j at') [
        | inl now' ↦ ground (arith, cast_HasVoted r e v now, cast_HasVoted r e w now')
        | inr (k, later) ↦ follows v w now k later same
      ]
      | inr (k, later) ↦
          elim (prepend_cases (cast (handle r e).1) (votes_cast (handle r e).0 es) j at') [
            | inl now' ↦ sym (follows w v now' k later (sym same))
            | inr (k', later') ↦
                one_vote_per_term (b + 1) (handle r e).0 es (omega (arith, handle-term_bound r e))
                  (TermsUpTo-suc b es up.1) (omega arith) k k' v w later later' same
          ]
    ]
  where
    follows :
        (x y : Vote)
        → cast (handle r e).1 ≡ some x
        → (k : ℕ) → get_elem? (votes_cast (handle r e).0 es) k ≡ some y
        → x.term ≡ y.term
        → x.for ≡ y.for
    follows x y now k later eq =
        later_votes (b + 1) (handle r e).0 es x.term x.for (omega (arith, handle-term_bound r e))
          (TermsUpTo-suc b es up.1) (omega arith) (inr (cast_HasVoted r e x now)) k y later (sym eq)
