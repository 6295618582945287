-- ===== src/Raft/Core/Base.antt =====
-- src/raft/core.rs: what the handlers share. A handler returns the new state beside its result,
-- because what it wrote before an error or a panic stays written.
use raft_distributed_log_rs.Prelude.{Bool, Option, false, none, some, true}
use raft_distributed_log_rs.Raft.Types.{
  AppendEntriesResponse, Effect, HeartbeatRequest, NodeId, Raft, Result, State, err, node_eq, ok,
  panic,
}

-- The state after a handler, and what it returned.
abbrev pub Outcome : Type 0 → Type 0
Outcome A = Raft × Result A

-- `.map(Some)`.
abbrev pub map_some : Outcome Effect → Outcome (Option Effect)
map_some (r, ok e) = (r, ok (some e))
map_some (r, err e) = (r, err e)
map_some (r, panic) = (r, panic)

-- `voted_for.as_ref() == Some(id)`.
abbrev pub voted_eq : Option NodeId → NodeId → Bool
voted_eq none id = false
voted_eq (some v) id = node_eq v id

abbrev pub is_none {ℓ} : {A : Type ℓ} → Option A → Bool
is_none none = true
is_none (some _) = false

abbrev pub hard_state : Raft → State
hard_state r = record { current_term = r.current_term; voted_for = r.voted_for }

-- The heartbeat that a leader sends.
abbrev pub own_heartbeat : Raft → HeartbeatRequest
own_heartbeat r = record {
  term = r.current_term;
  leader_id = r.id;
  log_index = r.last_log_index;
  log_term = r.last_log_term;
  leader_commit_index = r.commit_index;
}

-- The response of a follower, from its current state.
abbrev pub own_response : Raft → Bool → AppendEntriesResponse
own_response r success = record {
  term = r.current_term;
  success = success;
  last_log_index = r.last_log_index;
  last_log_term = r.last_log_term;
  leader_id = r.leader_id;
}
