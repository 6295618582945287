-- ===== src/Raft/Majorities/Behind.antt =====
-- The peers of src/raft/core.rs: those whose match index is below an index, and the count of the others.
use raft_distributed_log_rs.Prelude.{
  Bool-cases, List, [], arith, false, inl, inr, some, suc, true, ℕ, ◌<◌, ◌∷◌, ◌≡◌,
}
use raft_distributed_log_rs.Raft.Core.Replication.{progress_to}
use raft_distributed_log_rs.Raft.Peers.{Peers, caught_up, contains_key, get, member, modify}
use raft_distributed_log_rs.Raft.Peers.Laws.{get-modify, node_eq_iff}
use raft_distributed_log_rs.Raft.Types.{NodeId, Progress, node_eq}

-- The recorded match index of the node is below the index.
abbrev pub IsBehind : ℕ → Peers → NodeId → Type 0
IsBehind index m k = (p : Progress) × (get k m ≡ some p) × (p.match_index < index)

-- So for every node of the list.
abbrev pub AllBehind : ℕ → Peers → List NodeId → Type 0
AllBehind index m [] = Unit {0}
AllBehind index m (k ∷ ks) = IsBehind index m k × AllBehind index m ks

-- None of the nodes is a key.
abbrev pub NoKeys : Peers → List NodeId → Type 0
NoKeys m [] = Unit {0}
NoKeys m (k ∷ ks) = (contains_key k m ≡ false) × NoKeys m ks

pub caught_up-modify :
    (index : ℕ) (k : NodeId) (m : Peers)
    → IsBehind index m k
    → caught_up index (modify k (λ _. progress_to index) m) ≡ suc (caught_up index m)
unfolding caught_up modify get
caught_up-modify index k [] (p, e, low) = cc
caught_up-modify index k ((j, q) ∷ m) (p, e, low) = elim (Bool-cases (node_eq j k)) [
  | inl same ↦ ground (arith, e, same)
  | inr other ↦
      let below : IsBehind index m k = (p, ground (arith, e, other), low) in
      ground (arith, other, caught_up-modify index k m below)
]

pub caught_up-modify_pos :
    (index : ℕ) (k : NodeId) (m : Peers)
    → contains_key k m ≡ true
    → 0 < caught_up index (modify k (λ _. progress_to index) m)
unfolding caught_up modify contains_key
caught_up-modify_pos index k [] h = cc
caught_up-modify_pos index k ((j, q) ∷ m) h = ground (arith, caught_up-modify_pos index k m)

pub AllBehind-modify :
    (index : ℕ) (k : NodeId) (q : Progress) (m : Peers) (ks : List NodeId)
    → member k ks ≡ false
    → AllBehind index m ks
    → AllBehind index (modify k (λ _. q) m) ks
unfolding member
AllBehind-modify index k q m [] apart h = tt
AllBehind-modify index k q m (j ∷ ks) apart h = (
  (
    h.0.0,
    ground (arith, get-modify j k (λ _. q) m, h.0.1, node_eq_iff j k, node_eq_iff k j),
    h.0.2,
  ),
  AllBehind-modify index k q m ks (ground arith) h.1,
)
