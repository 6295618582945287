-- ===== src/Raft/Cluster/Runs.antt =====
-- src/raft/core.rs: the invariant at the start, over a restart, and over every run.
use raft_distributed_log_rs.Prelude.{List, [], arith, inl, length, refl, true, ℕ, ◌∙◌, ◌∷◌, ◌≡◌}
use raft_distributed_log_rs.Raft.Cluster.{
  Ballot, Cluster, IsCast, Reach, Step, boot, here, later, place-elim, place_same, restarted,
  restarts, takes,
}
use raft_distributed_log_rs.Raft.Cluster.Invariant.{Inv, NodeInv, Voted}
use raft_distributed_log_rs.Raft.Cluster.Moves.{takes-Inv}
use raft_distributed_log_rs.Raft.Peers.{member}
use raft_distributed_log_rs.Raft.Runtime.Restart.{contains_key-collect}
use raft_distributed_log_rs.Raft.Runtime.Start.{collect, initial_raft}
use raft_distributed_log_rs.Raft.Types.{NodeId, State}

pub length-collect :
    (k j : NodeId) (m n : ℕ) (members : List NodeId)
    → length (collect k m members) ≡ length (collect j n members)
unfolding collect
length-collect k j m n [] = refl
length-collect k j m n (v ∷ members) = ground (
  arith,
  length-collect k j m n members,
  contains_key-collect v k m members,
  contains_key-collect v j n members,
)

initial-NodeInv :
    (members : List NodeId) (k : NodeId) (next_index : ℕ) (d : State) (l : List Ballot)
    → member k members ≡ true
    → ((t : ℕ) (c : NodeId) → IsCast k t c l → Voted d t c)
    → NodeInv members k (initial_raft k (collect k next_index members) d) d l
initial-NodeInv members k next_index d l inside voted = record {
  identity = refl;
  same_keys = λ j. contains_key-collect j k next_index members;
  same_size = length-collect k k next_index 0 members;
  election = record {
    self_votes = contains_key-collect k k next_index members ∙ inside;
    from_voters = tt;
    distinct = tt;
  };
  backed = inl refl;
  majority = λ h. cc;
  vote_saved = λ c h. refl;
  kept = λ t c h. (voted t c h, voted t c h);
}

pub boot-Inv :
    (members : List NodeId) (next_index : NodeId → ℕ) → Inv members (boot members next_index)
boot-Inv members next_index = record {
  nodes = λ k inside. initial-NodeInv members k (next_index k) _ [] inside (λ t c h. absurd h);
  one_each = λ v t a b h. absurd h;
  by_members = λ v t c h. absurd h;
}

restarts-Inv :
    (members : List NodeId) (s : Cluster) (k : NodeId) (next_index : ℕ)
    → member k members ≡ true
    → Inv members s
    → Inv members (restarted members s k next_index)
restarts-Inv members s k next_index inside inv = record {
  nodes = λ j in_j. rw (← (place_same k s.disk j)) (
      place-elim (λ i x d. NodeInv members i x d s.ballots) k
        (initial_raft k (collect k next_index members) (s.disk k)) s.node (s.disk k) s.disk j
        (initial-NodeInv members k next_index (s.disk k) s.ballots inside
          (λ t c h. ((inv.nodes k inside).kept t c h).1))
        (λ ne. inv.nodes j in_j));
  one_each = inv.one_each;
  by_members = inv.by_members;
}

pub Step-Inv :
    {members : List NodeId} {s t : Cluster} → Step members s t → Inv members s → Inv members t
Step-Inv {members} {s} (takes k e inside room honest followed) inv =
    takes-Inv members s k e inside room honest followed inv
Step-Inv {members} {s} (restarts k next_index inside) inv =
    restarts-Inv members s k next_index inside inv

pub Reach-Inv :
    {members : List NodeId} {s t : Cluster} → Reach members s t → Inv members s → Inv members t
Reach-Inv here inv = inv
Reach-Inv (later r st) inv = Step-Inv st (Reach-Inv r inv)
