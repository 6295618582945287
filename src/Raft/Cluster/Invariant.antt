-- ===== src/Raft/Cluster/Invariant.antt =====
-- src/raft/core.rs: what holds of every reachable cluster.
use raft_distributed_log_rs.Prelude.{
  List, Option, [], arith, inl, inr, length, none, refl, some, true, ℕ, ◌*◌, ◌<◌, ◌∷◌, ◌≡◌, ◌⊎◌,
}
use raft_distributed_log_rs.Raft.Cluster.{Ballot, Cluster, IsCast, enter}
use raft_distributed_log_rs.Raft.Core.Base.{hard_state}
use raft_distributed_log_rs.Raft.Elections.{ElectionInv}
use raft_distributed_log_rs.Raft.Peers.{contains_key, member}
use raft_distributed_log_rs.Raft.Runtime.Start.{collect}
use raft_distributed_log_rs.Raft.Types.{NodeId, Raft, State, follower, leader}
use raft_distributed_log_rs.Raft.Votes.{Vote}

-- All nodes of the list have cast their vote of the term for this node.
abbrev pub AllCast : List NodeId → ℕ → NodeId → List Ballot → Type 0
AllCast [] t c l = Unit {0}
AllCast (v ∷ vs) t c l = IsCast v t c l × AllCast vs t c l

-- The hard state is past the term, or in it with its vote given.
abbrev pub Voted : State → ℕ → NodeId → Type 0
Voted s t c = (t < s.current_term) ⊎ ((s.current_term ≡ t) × (s.voted_for ≡ some c))

-- What holds of one node and its disk.
pub record NodeInv (members : List NodeId) (k : NodeId) (r : Raft) (d : State) (l : List Ballot)
    : Type 0 where
  pub identity : r.id ≡ k
  pub same_keys : (j : NodeId) → contains_key j r.voters ≡ member j members
  pub same_size : length r.voters ≡ length (collect k 0 members)
  pub election : ElectionInv r
  pub backed : (r.role ≡ follower) ⊎ AllCast r.granted_votes r.current_term k l
  pub majority : (r.role ≡ leader) → length r.voters < 2 * length r.granted_votes
  pub vote_saved : (c : NodeId) → r.voted_for ≡ some c → d ≡ hard_state r
  pub kept : (t : ℕ) (c : NodeId) → IsCast k t c l → Voted (hard_state r) t c × Voted d t c

pub record Inv (members : List NodeId) (s : Cluster) : Type 0 where
  pub nodes :
      (k : NodeId) → member k members ≡ true → NodeInv members k (s.node k) (s.disk k) s.ballots
  pub one_each :
      (v : NodeId) (t : ℕ) (a b : NodeId) → IsCast v t a s.ballots → IsCast v t b s.ballots → a ≡ b
  pub by_members :
      (v : NodeId) (t : ℕ) (c : NodeId) → IsCast v t c s.ballots → member v members ≡ true

pub IsCast-enter :
    (v : NodeId) (t : ℕ) (c k : NodeId) (o : Option Vote) (l : List Ballot)
    → IsCast v t c l
    → IsCast v t c (enter k o l)
IsCast-enter v t c k none l h = h
IsCast-enter v t c k (some x) l h = inr h

pub IsCast-cases :
    (v : NodeId) (t : ℕ) (c k : NodeId) (o : Option Vote) (l : List Ballot)
    → IsCast v t c (enter k o l)
    → IsCast v t c l ⊎ ((k ≡ v) × (o ≡ some (record { term = t; for = c })))
IsCast-cases v t c k none l h = inl h
IsCast-cases v t c k (some x) l (inl h) = inr (h.0, ground arith)
IsCast-cases v t c k (some x) l (inr h) = inl h

pub AllCast-enter :
    (vs : List NodeId) (t : ℕ) (c k : NodeId) (o : Option Vote) (l : List Ballot)
    → AllCast vs t c l
    → AllCast vs t c (enter k o l)
AllCast-enter [] t c k o l h = tt
AllCast-enter (v ∷ vs) t c k o l h = (IsCast-enter v t c k o l h.0, AllCast-enter vs t c k o l h.1)

pub IsCast-new :
    (k : NodeId) (v : Vote) (o : Option Vote) (l : List Ballot)
    → o ≡ some v
    → IsCast k v.term v.for (enter k o l)
IsCast-new k v none l h = cc
IsCast-new k v (some x) l h = inl (refl, ground arith, ground arith)
