-- ===== src/Raft/Majorities.antt =====
-- src/raft/core.rs: what a majority brings about. A candidate that the votes reach is elected, and an
-- entry that the followers report is committed.
pub mod Behind
pub mod Commits
pub mod Rounds
mod Examples
use raft_distributed_log_rs.Membership.{new}
use raft_distributed_log_rs.Prelude.{
  List, [], ap, arith, false, inl, inr, length, map, refl, subst, suc, sym, true, wrapping_add, ℕ,
  ◌*◌, ◌+◌, ◌<◌, ◌∙◌, ◌∷◌, ◌≡◌, ◌≤◌, ◌⊎◌,
}
use raft_distributed_log_rs.Raft.Commit.{handle_all}
use raft_distributed_log_rs.Raft.Core.{handle}
use raft_distributed_log_rs.Raft.Peers.{Peers, contains_key, insert, member}
use raft_distributed_log_rs.Raft.Peers.Laws.{AllKeys, Distinct, member_self, node_eq_iff}
use raft_distributed_log_rs.Raft.Types.{
  Event, NodeId, Raft, candidate, election_timeout, leader, vote_response,
}

-- The answer that grants a vote of a term.
abbrev pub granted_by : ℕ → NodeId → Event
granted_by term from =
    vote_response (record { from = from; response = record { term = term; vote_granted = true } })

-- No node of the list is in the set.
abbrev pub Apart : List NodeId → List NodeId → Type 0
Apart fs votes = (k : NodeId) → member k fs ≡ true → member k votes ≡ false

Apart-step :
    (f : NodeId) (fs votes : List NodeId)
    → member f fs ≡ false
    → Apart (f ∷ fs) votes
    → Apart fs (f ∷ votes)
unfolding member
Apart-step f fs votes new apart k is_in = ground (arith, apart k, node_eq_iff f k)

-- A leader does nothing with a vote of its own term.
leads-granted_by :
    (r : Raft) (term : ℕ) (f : NodeId)
    → r.role ≡ leader
    → r.current_term ≡ term
    → (handle r (granted_by term f)).0 ≡ r
unfolding handle
leads-granted_by r term f leads at = ground arith

leads_still :
    (r : Raft) (term : ℕ) (fs : List NodeId)
    → r.role ≡ leader
    → r.current_term ≡ term
    → handle_all r (map (granted_by term) fs) ≡ r
unfolding handle_all
leads_still r term [] leads at = refl
leads_still r term (f ∷ fs) leads at =
    ap (λ (x : Raft). handle_all x (map (granted_by term) fs)) (leads-granted_by r term f leads at)
    ∙ leads_still r term fs leads at

-- A candidate counts a new vote of its term, and leads as soon as it has more than half of them.
record Counts (r : Raft) (f : NodeId) (s : Raft) : Type 0 where
  counted : s.granted_votes ≡ f ∷ r.granted_votes
  same_voters : s.voters ≡ r.voters
  same_term : s.current_term ≡ r.current_term
  outcome :
      (s.role ≡ leader)
      ⊎ ((s.role ≡ candidate) × (2 * suc (length r.granted_votes) ≤ length r.voters))

granted_by-Counts :
    (r : Raft) (term : ℕ) (f : NodeId)
    → r.role ≡ candidate
    → r.current_term ≡ term
    → contains_key f r.voters ≡ true
    → member f r.granted_votes ≡ false
    → Counts r f (handle r (granted_by term f)).0
unfolding handle insert
granted_by-Counts r term f active at voter fresh = record {
  counted = ground arith;
  same_voters = ground arith;
  same_term = ground arith;
  outcome = ground arith;
}

-- The node leads in this term.
abbrev pub LeadsIn : ℕ → Raft → Type 0
LeadsIn term r = (r.role ≡ leader) × (r.current_term ≡ term)

votes_elect :
    (r : Raft) (term : ℕ) (f : NodeId) (fs : List NodeId)
    → r.role ≡ candidate
    → r.current_term ≡ term
    → AllKeys r.voters (f ∷ fs)
    → Distinct (f ∷ fs)
    → Apart (f ∷ fs) r.granted_votes
    → length r.voters < 2 * (length r.granted_votes + length (f ∷ fs))
    → LeadsIn term (handle_all r (map (granted_by term) (f ∷ fs)))
unfolding handle_all
votes_elect r term f [] active at keys distinct apart many =
    let c = granted_by-Counts r term f active at keys.0 (apart f (member_self f [])) in
    ground (arith, c.outcome, c.same_term)
votes_elect r term f (g ∷ fs) active at keys distinct apart many =
    let c = granted_by-Counts r term f active at keys.0 (apart f (member_self f (g ∷ fs))) in
    let s = (handle r (granted_by term f)).0 in
    let at' : s.current_term ≡ term = c.same_term ∙ at in
    elim c.outcome [
      | inl leads ↦ rw (leads_still s term (g ∷ fs) leads at') (leads, at')
      | inr (still, few) ↦
          votes_elect s term g fs still at'
            (subst (λ (m : Peers). AllKeys m (g ∷ fs)) (sym c.same_voters) keys.1) distinct.1
            (rw c.counted (Apart-step f (g ∷ fs) r.granted_votes distinct.0 apart))
            (rw (c.same_voters, c.counted) (omega (arith, many)))
    ]

-- An election is won: a node whose election timeout expires, and which then hears from at least one
-- other voter, leads in the new term once the votes of distinct voters, with its own, are more than
-- half of all voters. The vote of every such voter is granted in the new term.
pub majority_elects :
    (r : Raft) (f : NodeId) (fs : List NodeId)
    → AllKeys r.voters (f ∷ fs)
    → Distinct (r.id ∷ f ∷ fs)
    → length r.voters < 2 * length (r.id ∷ f ∷ fs)
    → LeadsIn (wrapping_add r.current_term 1) (
        handle_all r (election_timeout ∷ map (granted_by (wrapping_add r.current_term 1)) (f ∷ fs)))
unfolding handle_all handle member
majority_elects r f fs keys distinct many =
    votes_elect (handle r election_timeout).0 (wrapping_add r.current_term 1) f fs refl refl keys
      distinct.1 (Apart-step r.id (f ∷ fs) [] distinct.0 (λ k is_in. refl)) (omega (arith, many))
