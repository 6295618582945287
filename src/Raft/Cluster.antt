-- ===== src/Raft/Cluster.antt =====
-- src/raft/core.rs: a cluster of nodes with the same voters, each of which runs the core, in any
-- order of events. Every message may be delivered at any time, late, more than once or never; a
-- message other than a granted vote need not even have been sent.
pub mod Counting
pub mod Invariant
pub mod Moves
pub mod Runs
pub mod Safety
pub mod Split
pub mod Examples
use raft_distributed_log_rs.Prelude.{
  List, Option, [], ap, false, none, refl, some, subst, true, u64_mod, ℕ, ◌+◌, ◌<◌, ◌∷◌, ◌≡◌, ◌≢◌,
  ◌≤◌, ◌⊎◌,
}
use raft_distributed_log_rs.Raft.Core.{handle}
use raft_distributed_log_rs.Raft.Core.Replication.{prefix_matches}
use raft_distributed_log_rs.Raft.Elections.{to_persist}
use raft_distributed_log_rs.Raft.Peers.{member}
use raft_distributed_log_rs.Raft.Runtime.Start.{collect, initial_raft}
use raft_distributed_log_rs.Raft.Types.{
  Event, NodeId, NodeId-discrete, Raft, State, append_entries, vote_response,
}
use raft_distributed_log_rs.Raft.Votes.{Vote, cast}

abbrev pub choose {ℓ} : {A : Type ℓ} {P : Type 0} → A → A → Dec P → A
choose a b (yes p) = a
choose a b (no p) = b

-- A family of nodes with one of them replaced.
unfoldable pub place {ℓ} : {A : Type ℓ} → NodeId → A → (NodeId → A) → NodeId → A
place k a f j = choose a (f j) (NodeId-discrete k j)

choose-elim {ℓ κ} :
    {A : Type ℓ} {B : Type κ} (P : NodeId → A → B → Type 0) (k j : NodeId) (a a' : A) (b b' : B)
    (d : Dec (k ≡ j))
    → P k a b
    → (k ≢ j → P j a' b')
    → P j (choose a a' d) (choose b b' d)
choose-elim P k j a a' b b' (yes e) new old = subst (λ (i : NodeId). P i a b) e new
choose-elim P k j a a' b b' (no ne) new old = old ne

-- What holds of the new values at their place, and of the others at theirs, holds everywhere.
pub place-elim {ℓ κ} :
    {A : Type ℓ} {B : Type κ} (P : NodeId → A → B → Type 0) (k : NodeId) (a : A) (f : NodeId → A)
    (b : B) (g : NodeId → B) (j : NodeId)
    → P k a b
    → (k ≢ j → P j (f j) (g j))
    → P j (place k a f j) (place k b g j)
unfolding place
place-elim P k a f b g j new old = choose-elim P k j a (f j) b (g j) (NodeId-discrete k j) new old

pub place_same {ℓ} :
    {A : Type ℓ} (k : NodeId) (f : NodeId → A) (j : NodeId) → place k (f k) f j ≡ f j
unfolding place
place_same {A} k f j = same k f j (NodeId-discrete k j)
  where
    same : (i : NodeId) (g : NodeId → A) (h : NodeId) (d : Dec (i ≡ h)) → choose (g i) (g h) d ≡ g h
    same i g h (yes e) = ap g e
    same i g h (no ne) = refl

-- A vote that was cast: by whom, in which term, for whom.
pub record Ballot : Type 0 where
  pub voter : NodeId
  pub term : ℕ
  pub for : NodeId

-- The nodes, the hard states that they have saved, and all votes cast so far.
pub record Cluster : Type 0 where
  pub node : NodeId → Raft
  pub disk : NodeId → State
  pub ballots : List Ballot

abbrev pub IsCast : NodeId → ℕ → NodeId → List Ballot → Type 0
IsCast v t c [] = ⊥
IsCast v t c (b ∷ l) = ((b.voter ≡ v) × (b.term ≡ t) × (b.for ≡ c)) ⊎ IsCast v t c l

abbrev pub enter : NodeId → Option Vote → List Ballot → List Ballot
enter k none l = l
enter k (some v) l = record { voter = k; term = v.term; for = v.for } ∷ l

-- What the runtime saves before it carries out an effect.
abbrev pub saved : State → Option State → State
saved old none = old
saved old (some new) = new

-- The cluster after a node has handled an event.
abbrev pub after : Cluster → NodeId → Event → Cluster
after s k e = record {
  node = place k (handle (s.node k) e).0 s.node;
  disk = place k (saved (s.disk k) (to_persist (handle (s.node k) e).1)) s.disk;
  ballots = enter k (cast (handle (s.node k) e).1) s.ballots;
}

-- The cluster after a node has crashed and started again from what it saved.
abbrev pub restarted : List NodeId → Cluster → NodeId → ℕ → Cluster
restarted members s k next_index = record s {
  node = place k (initial_raft k (collect k next_index members) (s.disk k)) s.node;
}

-- A vote that is counted was cast.
abbrev pub IsHonest : Cluster → NodeId → Event → Type 0
IsHonest s k (vote_response v) =
    (v.response.vote_granted ≡ false) ⊎ IsCast v.from v.response.term k s.ballots
IsHonest s k _ = Unit {0}

-- No AppendEntries request of a later term is refused for the entry before it.
abbrev pub IsFollowed : Raft → Event → Type 0
IsFollowed r (append_entries a) = (a.request.term ≤ r.current_term) ⊎ (prefix_matches r a ≡ true)
IsFollowed r _ = Unit {0}

-- A step of the cluster: a node handles an event, below the last term, or restarts.
pub data Step (members : List NodeId) (s : Cluster) : Cluster → Type 0 where
  takes :
      (k : NodeId) (e : Event)
      → member k members ≡ true
      → (s.node k).current_term + 1 < u64_mod
      → IsHonest s k e
      → IsFollowed (s.node k) e
      → Step members s (after s k e)
  restarts :
      (k : NodeId) (next_index : ℕ)
      → member k members ≡ true
      → Step members s (restarted members s k next_index)

abbrev no_state : State
no_state = record { current_term = 0; voted_for = none }

-- All nodes as they start for the first time, over logs with these next offsets.
abbrev pub boot : List NodeId → (NodeId → ℕ) → Cluster
boot members next_index = record {
  node = λ k. initial_raft k (collect k (next_index k) members) no_state;
  disk = λ k. no_state;
  ballots = [];
}

pub data Reach (members : List NodeId) (s : Cluster) : Cluster → Type 0 where
  here : Reach members s s
  later : {t u : Cluster} → Reach members s t → Step members t u → Reach members s u
