-- ===== src/Raft/Peers.antt =====
-- The maps from node to progress, and the set of granted votes.
use raft_distributed_log_rs.Prelude.{
  Bool, List, Option, [], false, if◌then◌else◌, ltb, none, some, suc, true, ℕ, ◌||◌, ◌∷◌,
}
use raft_distributed_log_rs.Raft.Types.{NodeId, Progress, node_eq}
pub mod Laws

abbrev pub Peers : Type 0
Peers = List (NodeId × Progress)

unfoldable pub contains_key : NodeId → Peers → Bool
contains_key k [] = false
contains_key k ((j, p) ∷ m) = node_eq j k || contains_key k m

unfoldable pub get : NodeId → Peers → Option Progress
get k [] = none
get k ((j, p) ∷ m) = if node_eq j k then some p else get k m

-- `*m.get_mut(k) = f(..)`, which changes nothing where the key is missing.
unfoldable pub modify : NodeId → (Progress → Progress) → Peers → Peers
modify k f [] = []
modify k f ((j, p) ∷ m) = if node_eq j k then (j, f p) ∷ m else (j, p) ∷ modify k f m

-- `keys().filter(|node_id| *node_id != &self.id)`.
unfoldable pub others : NodeId → Peers → List NodeId
others k [] = []
others k ((j, p) ∷ m) = let rest = others k m in if node_eq j k then rest else j ∷ rest

-- `values().filter(|progress| progress.match_index >= index).count()`.
unfoldable pub caught_up : ℕ → Peers → ℕ
caught_up index [] = 0
caught_up index ((j, p) ∷ m) =
    let rest = caught_up index m in if ltb p.match_index index then rest else suc rest

unfoldable pub member : NodeId → List NodeId → Bool
member k [] = false
member k (j ∷ m) = node_eq j k || member k m

-- `HashSet::insert`: the set, and whether the value was new.
unfoldable pub insert : NodeId → List NodeId → List NodeId × Bool
unfolding member
insert k m = if member k m then (m, false) else (k ∷ m, true)
