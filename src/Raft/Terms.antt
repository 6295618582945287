-- ===== src/Raft/Terms.antt =====
-- src/raft/core.rs: how the term and the vote move in one event.
use raft_distributed_log_rs.Prelude.{arith, max, some, u64_mod, ℕ, ◌+◌, ◌<◌, ◌≡◌, ◌≤◌, ◌⊎◌}
use raft_distributed_log_rs.Raft.Core.{handle}
use raft_distributed_log_rs.Raft.Types.{
  Event, NodeId, Raft, append_entries, append_entries_response, election_timeout, heartbeat,
  heartbeat_response, request_vote, vote_response,
}

-- The term that a message carries; what the node or its runtime reports carries none.
abbrev pub event_term : Event → ℕ
event_term (heartbeat q) = q.term
event_term (request_vote q) = q.term
event_term (append_entries a) = a.request.term
event_term (append_entries_response v) = v.response.term
event_term (vote_response v) = v.response.term
event_term (heartbeat_response v) = v.response.term
event_term _ = 0

-- The node is past term `t`, or in it with its vote given to `c`.
abbrev pub HasVoted : Raft → ℕ → NodeId → Type 0
HasVoted r t c = (t < r.current_term) ⊎ ((r.current_term ≡ t) × (r.voted_for ≡ some c))

pub handle-term_le :
    (r : Raft) (e : Event)
    → r.current_term + 1 < u64_mod
    → r.current_term ≤ (handle r e).0.current_term
unfolding handle
handle-term_le r election_timeout h = ground arith
handle-term_le r _ h = ground arith

pub handle-term_bound :
    (r : Raft) (e : Event) → (handle r e).0.current_term ≤ max (r.current_term + 1) (event_term e)
unfolding handle
handle-term_bound r election_timeout = ground arith
handle-term_bound r _ = ground arith

pub handle-HasVoted :
    (r : Raft) (e : Event) {t : ℕ} {c : NodeId}
    → r.current_term + 1 < u64_mod
    → HasVoted r t c
    → HasVoted (handle r e).0 t c
unfolding handle
handle-HasVoted r election_timeout b h = ground arith
handle-HasVoted r _ b h = ground arith
