-- ===== src/Raft/Replicated.antt =====
-- src/raft/core.rs: the progress that a node records for its peers.
use raft_distributed_log_rs.Prelude.{
  [], arith, min, some, true, u64_mod, ℕ, ◌+◌, ◌<◌, ◌∷◌, ◌≡◌, ◌≤◌,
}
use raft_distributed_log_rs.Raft.Core.{handle}
use raft_distributed_log_rs.Raft.Core.Heartbeats.{observe}
use raft_distributed_log_rs.Raft.Core.Replication.{progress_to}
use raft_distributed_log_rs.Raft.Peers.{Peers, get, modify}
use raft_distributed_log_rs.Raft.Peers.Laws.{contains_key_of_get, get-modify}
use raft_distributed_log_rs.Raft.Types.{
  AppendEntriesResponse, Event, NodeId, Progress, Raft, ReceivedHeartbeatResponse,
  append_entries_response, election_timeout, entries_persisted, heartbeat_response, leader,
  local_entries_appended,
}

-- No peer of the map is known to hold an entry beyond `n`.
abbrev pub MatchUpTo : ℕ → Peers → Type 0
MatchUpTo n [] = Unit {0}
MatchUpTo n ((k, p) ∷ m) = (p.match_index ≤ n) × MatchUpTo n m

pub record Tracks (r : Raft) : Type 0 where
  pub voters_in_log : MatchUpTo r.last_log_index r.voters
  pub learners_in_log : MatchUpTo r.last_log_index r.learners

-- A report does not shorten the log.
abbrev pub LogGrows : Raft → Event → Type 0
LogGrows r (entries_persisted e) = r.last_log_index ≤ e.last_log_index
LogGrows r (local_entries_appended e) = r.last_log_index ≤ e.index
LogGrows _ _ = Unit {0}

MatchUpTo-mono : (a b : ℕ) (m : Peers) → a ≤ b → MatchUpTo a m → MatchUpTo b m
MatchUpTo-mono a b [] h u = tt
MatchUpTo-mono a b ((k, p) ∷ m) h u = (omega arith, MatchUpTo-mono a b m h u.1)

MatchUpTo-observe :
    (n : ℕ) (j : NodeId) (a : AppendEntriesResponse) (m : Peers)
    → MatchUpTo n m
    → MatchUpTo n (modify j (observe n a) m)
unfolding modify
MatchUpTo-observe n j a [] u = tt
MatchUpTo-observe n j a ((k, p) ∷ m) u = ground (arith, MatchUpTo-observe n j a m u.1)

MatchUpTo-progress_to :
    (n i : ℕ) (j : NodeId) (m : Peers)
    → i ≤ n
    → MatchUpTo n m
    → MatchUpTo n (modify j (λ _. progress_to i) m)
unfolding modify
MatchUpTo-progress_to n i j [] h u = tt
MatchUpTo-progress_to n i j ((k, p) ∷ m) h u = ground (arith, MatchUpTo-progress_to n i j m h u.1)

-- Every event that does not shorten the log keeps the recorded match indexes within the log.
pub handle-Tracks : (r : Raft) (e : Event) → LogGrows r e → Tracks r → Tracks (handle r e).0
unfolding handle
handle-Tracks r (heartbeat_response v) g t = ground (
  arith,
  MatchUpTo-observe r.last_log_index v.from v.response r.voters t.voters_in_log,
  MatchUpTo-observe r.last_log_index v.from v.response r.learners t.learners_in_log,
)
handle-Tracks r (append_entries_response v) g t = ground (
  arith,
  MatchUpTo-progress_to r.last_log_index v.response.last_log_index v.from r.voters,
  MatchUpTo-progress_to r.last_log_index v.response.last_log_index v.from r.learners,
)
handle-Tracks r (local_entries_appended e) g t = ground (
  arith,
  MatchUpTo-mono r.last_log_index e.index r.voters g t.voters_in_log,
  MatchUpTo-mono r.last_log_index e.index r.learners g t.learners_in_log,
  MatchUpTo-progress_to e.index e.index r.id r.voters,
)
handle-Tracks r (entries_persisted e) g t = ground (
  arith,
  MatchUpTo-mono r.last_log_index e.last_log_index r.voters g t.voters_in_log,
  MatchUpTo-mono r.last_log_index e.last_log_index r.learners g t.learners_in_log,
)
handle-Tracks r election_timeout g t = ground arith
handle-Tracks r _ g t = ground arith

MatchUpTo-get :
    (n : ℕ) (k : NodeId) (m : Peers) (p : Progress)
    → MatchUpTo n m
    → get k m ≡ some p
    → p.match_index ≤ n
unfolding get
MatchUpTo-get n k [] p u h = cc
MatchUpTo-get n k ((j, q) ∷ m) p u h = ground (arith, MatchUpTo-get n k m p u.1)

observed :
    (r : Raft) (v : ReceivedHeartbeatResponse) (p : Progress)
    → r.role ≡ leader
    → v.response.term ≡ r.current_term
    → get v.from r.voters ≡ some p
    → get v.from (handle r (heartbeat_response v)).0.voters
      ≡ some (observe r.last_log_index v.response p)
unfolding handle
observed r v p l s before = ground (
  arith,
  contains_key_of_get v.from r.voters p before,
  get-modify v.from v.from (observe r.last_log_index v.response) r.voters,
)

-- A successful heartbeat response of the leader's term never lowers the match index of the voter
-- that sent it, takes it to the lesser of the two logs' ends at least, and leaves the next index
-- above it, provided that index does not overflow.
heartbeat_response_advances :
    (r : Raft) (v : ReceivedHeartbeatResponse) (p : Progress)
    → r.role ≡ leader
    → v.response.term ≡ r.current_term
    → v.response.success ≡ true
    → r.last_log_index + 1 < u64_mod
    → Tracks r
    → get v.from r.voters ≡ some p
    → (q : Progress) × (get v.from (handle r (heartbeat_response v)).0.voters ≡ some q)
      × (p.match_index ≤ q.match_index)
      × (min v.response.last_log_index r.last_log_index ≤ q.match_index)
      × (q.match_index < q.next_index)
heartbeat_response_advances r v p l s won room t before = (
  observe r.last_log_index v.response p,
  observed r v p l s before,
  ground arith,
  ground arith,
  ground (arith, MatchUpTo-get r.last_log_index v.from r.voters p t.voters_in_log before),
)
