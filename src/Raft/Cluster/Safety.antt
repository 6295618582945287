-- ===== src/Raft/Cluster/Safety.antt =====
-- src/raft/core.rs: at most one leader in each term.
use raft_distributed_log_rs.Prelude.{
  Bool-cases, List, [], arith, inl, inr, sym, true, ℕ, ◌∙◌, ◌∷◌, ◌≡◌,
}
use raft_distributed_log_rs.Raft.Cluster.{
  Ballot, Cluster, IsCast, Reach, Step, boot, here, later, restarts, takes,
}
use raft_distributed_log_rs.Raft.Cluster.Invariant.{AllCast, AllCast-enter, NodeInv}
use raft_distributed_log_rs.Raft.Cluster.Runs.{Reach-Inv, boot-Inv, length-collect}
use raft_distributed_log_rs.Raft.Peers.{Peers, contains_key, member}
use raft_distributed_log_rs.Raft.Peers.Laws.{AllKeys, node_eq_iff, overlap}
use raft_distributed_log_rs.Raft.Types.{NodeId, Raft, State, leader, node_eq}

AllCast-member :
    (j : NodeId) (vs : List NodeId) (t : ℕ) (c : NodeId) (l : List Ballot)
    → member j vs ≡ true
    → AllCast vs t c l
    → IsCast j t c l
unfolding member
AllCast-member j [] t c l h all = cc
AllCast-member j (v ∷ vs) t c l h all = elim (Bool-cases (node_eq v j)) [
  | inl same ↦ rw ((node_eq_iff v j).0 same) at all.0
  | inr other ↦ AllCast-member j vs t c l (ground arith) all.1
]

AllKeys-keys :
    (m m' : Peers) (vs : List NodeId)
    → ((j : NodeId) → contains_key j m ≡ contains_key j m')
    → AllKeys m vs
    → AllKeys m' vs
AllKeys-keys m m' [] same h = tt
AllKeys-keys m m' (v ∷ vs) same h = (sym (same v) ∙ h.0, AllKeys-keys m m' vs same h.1)

-- Votes that were cast stay cast.
AllCast-Step :
    {members : List NodeId} {s u : Cluster} (vs : List NodeId) (t : ℕ) (c : NodeId)
    → Step members s u
    → AllCast vs t c s.ballots
    → AllCast vs t c u.ballots
AllCast-Step {members} {s} vs t c (takes k e inside room honest followed) h =
    AllCast-enter vs t c k _ s.ballots h
AllCast-Step vs t c (restarts k next_index inside) h = h

AllCast-Reach :
    {members : List NodeId} {s u : Cluster} (vs : List NodeId) (t : ℕ) (c : NodeId)
    → Reach members s u
    → AllCast vs t c s.ballots
    → AllCast vs t c u.ballots
AllCast-Reach vs t c here h = h
AllCast-Reach vs t c (later r st) h = AllCast-Step vs t c st (AllCast-Reach vs t c r h)

backed_leader :
    {members : List NodeId} {k : NodeId} {r : Raft} {d : State} {l : List Ballot}
    → NodeInv members k r d l
    → r.role ≡ leader
    → AllCast r.granted_votes r.current_term k l
backed_leader n h = elim n.backed [ inl down ↦ cc | inr all ↦ all ]

-- In a cluster that starts with no votes, in which each node keeps its term below the last one, counts
-- only votes that were cast, and refuses no AppendEntries request of a later term for the entry
-- before it: two nodes that lead in the same term are the same node, also where one of them leads
-- later than the other, and whatever crashes and restarts there are.
pub election_safety :
    (members : List NodeId) (next_index : NodeId → ℕ) (s u : Cluster) (a b : NodeId)
    → Reach members (boot members next_index) s
    → Reach members s u
    → member a members ≡ true
    → member b members ≡ true
    → (s.node a).role ≡ leader
    → (u.node b).role ≡ leader
    → (s.node a).current_term ≡ (u.node b).current_term
    → a ≡ b
election_safety members next_index s u a b before between in_a in_b leads_a leads_b same_term =
    let inv = Reach-Inv before (boot-Inv members next_index) in
    let inv' = Reach-Inv between inv in
    let n = inv.nodes a in_a in
    let m = inv'.nodes b in_b in
    let (j, for_a, for_b) =
      overlap (s.node a).voters (s.node a).granted_votes (u.node b).granted_votes
        n.election.distinct m.election.distinct n.election.from_voters
        (AllKeys-keys (u.node b).voters (s.node a).voters _
          (λ i. m.same_keys i ∙ sym (n.same_keys i)) m.election.from_voters)
        (omega (
          arith,
          n.majority leads_a,
          m.majority leads_b,
          n.same_size,
          m.same_size,
          length-collect a b 0 0 members,
        )) in
    inv'.one_each j (u.node b).current_term a b
      (AllCast-member j _ _ a u.ballots for_a (
        AllCast-Reach (s.node a).granted_votes _ a between
          (rw same_term at (backed_leader n leads_a))))
      (AllCast-member j _ _ b u.ballots for_b (backed_leader m leads_b))
