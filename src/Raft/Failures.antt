-- ===== src/Raft/Failures.antt =====
-- src/raft/core.rs: when a handler returns an error, when it panics, and what it has changed then.
use raft_distributed_log_rs.Prelude.{arith, false, ◌<◌, ◌↔◌, ◌≡◌, ◌≢◌, ◌≤◌, ◌⊎◌}
use raft_distributed_log_rs.Raft.Core.{handle}
use raft_distributed_log_rs.Raft.Peers.{contains_key}
use raft_distributed_log_rs.Raft.Types.{
  Error, Event, Raft, append_entries_response, candidate, election_timeout, err, heartbeat_response,
  heartbeat_timeout, leader, local_entries_appended, not_candidate, not_leader, panic,
  vote_response, write,
}

-- The errors of the core: a report, write or response that only a leader takes, or a vote response
-- that only a candidate takes.
abbrev pub FailsBy : Raft → Event → Error → Type 0
FailsBy r (write i) x = (r.role ≢ leader) × (x ≡ not_leader r.leader_id)
FailsBy r (local_entries_appended e) x = (r.role ≢ leader) × (x ≡ not_leader r.leader_id)
FailsBy r heartbeat_timeout x = (r.role ≢ leader) × (x ≡ not_leader r.leader_id)
FailsBy r (heartbeat_response v) x =
    (r.role ≢ leader) × (v.response.term ≤ r.current_term) × (x ≡ not_leader r.leader_id)
FailsBy r (append_entries_response v) x =
    ((r.role ≢ leader) ⊎ (r.current_term < v.response.term)) × (x ≡ not_leader v.response.leader_id)
FailsBy r (vote_response v) x =
    (r.role ≢ candidate) × (v.response.term ≤ r.current_term) × (x ≡ not_candidate)
FailsBy r _ x = ⊥

-- Every error has its reason, and no other event returns an error.
pub handle-FailsBy : (r : Raft) (e : Event) (x : Error) → (handle r e).1 ≡ err x → FailsBy r e x
unfolding handle
handle-FailsBy r election_timeout x h = ground arith
handle-FailsBy r _ x h = ground arith

-- The one event whose error comes with a change of state.
abbrev pub StepsDown : Raft → Event → Type 0
StepsDown r (append_entries_response v) = (r.role ≡ leader) × (r.current_term < v.response.term)
StepsDown r _ = ⊥

-- An event that returns an error leaves the state as it was, unless it is an AppendEntries response
-- of a later term that makes a leader step down.
pub failing_keeps_state :
    (r : Raft) (e : Event) (x : Error)
    → (handle r e).1 ≡ err x
    → ((handle r e).0 ≡ r) ⊎ StepsDown r e
unfolding handle
failing_keeps_state r election_timeout x h = ground arith
failing_keeps_state r _ x h = ground arith

-- The two ways to panic.
abbrev pub PanicsBy : Raft → Event → Type 0
PanicsBy r (local_entries_appended e) = (r.role ≡ leader) × (contains_key r.id r.voters ≡ false)
PanicsBy r (append_entries_response v) =
    (r.role ≡ leader)
    × (v.response.term ≤ r.current_term)
    × (r.last_log_index < v.response.last_log_index)
PanicsBy r _ = ⊥

-- The core panics exactly if a leader appends without being a voter, or receives an AppendEntries
-- response, not of a later term, that names an index beyond the leader's log.
pub handle_panics_iff : (r : Raft) (e : Event) → ((handle r e).1 ≡ panic) ↔ PanicsBy r e
unfolding handle
handle_panics_iff r election_timeout = (λ h. ground arith, λ h. ground arith)
handle_panics_iff r _ = (λ h. ground arith, λ h. ground arith)
