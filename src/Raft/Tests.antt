-- ===== src/Raft/Tests.antt =====
-- src/raft/core.rs, the module `tests`: the repository's own tests, run on the model. Each is a
-- Boolean under the name of the test. This file has what they share: the helpers, the equality tests
-- that `assert_eq!` uses, and the destructuring of effects, `false` where the test would panic.
pub mod Elections
pub mod Votes
pub mod Heartbeats
pub mod Appends
pub mod Replication
pub mod Storage
pub mod Writing
use raft_distributed_log_rs.Prelude.{
  Bool, List, Option, String, [], codes, false, if◌then◌else◌, none, some, true, ℕ, ◌&&◌, ◌==◌, ◌∷◌,
}
use raft_distributed_log_rs.Raft.Peers.{Peers, get, member}
use raft_distributed_log_rs.Raft.Types.{
  AppendEntriesRequest, AppendEntriesResponse, Effect, Event, HeartbeatRequest, NodeId, OperationId,
  Progress, Raft, ReplicationTarget, Result, Role, State, VoteRequest, VoteResponse, append_entries,
  append_local, apply_committed, candidate, complete_operation, err, follower, leader, node_eq,
  not_candidate, not_leader, ok, persist_entries, reject_append_entries, send_append_entries,
  send_heartbeat, send_heartbeat_response, send_request_vote_response, send_request_votes,
}

abbrev pub node : String → NodeId
node id = record { bytes = codes id }

abbrev pub operation : ℕ → OperationId
operation id = record { id = id }

abbrev pub progress : Progress
progress = record { next_index = 0; match_index = 0 }

abbrev pub append_entries_event : ℕ → AppendEntriesRequest → Option ℕ → Event
append_entries_event operation_id request local_prev_log_term = append_entries (record {
  operation_id = operation operation_id;
  request = request;
  local_prev_log_term = local_prev_log_term;
})

-- The helper `follower`.
abbrev pub follower_at : ℕ → Option NodeId → ℕ → ℕ → Raft
follower_at current_term voted_for last_log_index last_log_term = record {
  id = node "node-1";
  voters = (node "node-1", progress) ∷ (node "node-2", progress) ∷ (node "node-3", progress) ∷ [];
  learners = [];
  role = follower;
  current_term = current_term;
  leader_id = some (node "old-leader");
  voted_for = voted_for;
  last_applied = 0;
  commit_index = 0;
  last_log_index = last_log_index;
  last_log_term = last_log_term;
  granted_votes = [];
}

-- `HashMap::insert`.
unfoldable pub put : NodeId → Progress → Peers → Peers
put k p [] = (k, p) ∷ []
put k p ((j, q) ∷ m) = if node_eq j k then (j, p) ∷ m else (j, q) ∷ put k p m

-- The equality of options, from the equality of their values.
abbrev pub option_eq : {A : Type 0} → (A → A → Bool) → Option A → Option A → Bool
option_eq eq none none = true
option_eq eq (some a) (some b) = eq a b
option_eq eq _ _ = false

abbrev pub role_eq : Role → Role → Bool
role_eq candidate candidate = true
role_eq follower follower = true
role_eq leader leader = true
role_eq _ _ = false

abbrev pub operation_eq : OperationId → OperationId → Bool
operation_eq a b = a.id == b.id

abbrev pub state_eq : State → State → Bool
state_eq a b = a.current_term == b.current_term && option_eq node_eq a.voted_for b.voted_for

unfoldable pub all_in : List NodeId → List NodeId → Bool
all_in [] m = true
all_in (k ∷ ks) m = member k m && all_in ks m

-- The equality of two sets of nodes.
abbrev pub set_eq : List NodeId → List NodeId → Bool
set_eq a b = all_in a b && all_in b a

-- The progress of a node that the map has, as `get(..).unwrap()` gives it.
abbrev pub is_at : NodeId → ℕ → ℕ → Peers → Bool
is_at k match_index next_index m = elim (get k m) [
  | none ↦ false
  | some p ↦ p.match_index == match_index && p.next_index == next_index
]

-- `unwrap()`.
abbrev pub is_ok : Result (Option Effect) → Bool
is_ok (ok _) = true
is_ok _ = false

-- `unwrap()`, and then `is_none()`.
abbrev pub gives_none : Result (Option Effect) → Bool
gives_none (ok none) = true
gives_none _ = false

-- `matches!(result, Err(Error::NotLeader(Some(leader))) if leader == id)`.
abbrev pub names_leader : Result (Option Effect) → NodeId → Bool
names_leader (err (not_leader (some l))) id = node_eq l id
names_leader _ id = false

-- `matches!(result, Err(Error::NotCandidate))`.
abbrev pub is_not_candidate : Result (Option Effect) → Bool
is_not_candidate (err not_candidate) = true
is_not_candidate _ = false

-- `unwrap().expect(..)`, and then `let Effect::.. = effect else { panic!(..) }`, for each effect.
abbrev pub on_request_votes :
    Result (Option Effect) → (State → List NodeId → VoteRequest → Bool) → Bool
on_request_votes (ok (some (send_request_votes hard peers request))) f = f hard peers request
on_request_votes _ f = false

abbrev pub on_vote_response :
    Result (Option Effect) → (Option State → NodeId → VoteResponse → Bool) → Bool
on_vote_response (ok (some (send_request_vote_response hard peer response))) f =
    f hard peer response
on_vote_response _ f = false

abbrev pub on_heartbeat_response :
    Result (Option Effect) → (NodeId → AppendEntriesResponse → Bool → Option ℕ → Bool) → Bool
on_heartbeat_response (ok (some (send_heartbeat_response peer response reset through))) f =
    f peer response reset through
on_heartbeat_response _ f = false

abbrev pub on_rejection :
    Result (Option Effect) → (OperationId → NodeId → AppendEntriesResponse → Bool) → Bool
on_rejection (ok (some (reject_append_entries o peer response))) f = f o peer response
on_rejection _ f = false

abbrev pub on_persist :
    Result (Option Effect)
    → (OperationId → NodeId → AppendEntriesResponse → Option ℕ → ℕ → Bool)
    → Bool
on_persist (ok (some (persist_entries o peer response truncate_after commit))) f =
    f o peer response truncate_after commit
on_persist _ f = false

abbrev pub on_apply : Result (Option Effect) → (OperationId → ℕ → Bool) → Bool
on_apply (ok (some (apply_committed o through))) f = f o through
on_apply _ f = false

abbrev pub on_append_local : Result (Option Effect) → (OperationId → ℕ → ℕ → Bool) → Bool
on_append_local (ok (some (append_local o term index))) f = f o term index
on_append_local _ f = false

abbrev pub on_complete : Result (Option Effect) → (OperationId → Bool) → Bool
on_complete (ok (some (complete_operation o))) f = f o
on_complete _ f = false

abbrev pub on_append_entries :
    Result (Option Effect) → (OperationId → List ReplicationTarget → Bool) → Bool
on_append_entries (ok (some (send_append_entries o ts))) f = f o ts
on_append_entries _ f = false

abbrev pub on_heartbeat : Result (Option Effect) → (List NodeId → HeartbeatRequest → Bool) → Bool
on_heartbeat (ok (some (send_heartbeat peers request))) f = f peers request
on_heartbeat _ f = false
