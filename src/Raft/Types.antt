-- ===== src/Raft/Types.antt =====
-- src/raft/types.rs: the node's state, and the events, effects and messages of the core.
-- A HashMap is the list of its entries in iteration order, which no operation of the core changes,
-- since none adds or removes a key. A HashSet is the list of its members, newest first.
-- u64 values are natural numbers, and bool is Bool.
use raft_distributed_log_rs.Prelude.{Bool, List, Option, String, false, true, ℕ, ℕ_discrete}

pub record OperationId : Type 0 where
  pub id : ℕ

-- The bytes of the string.
pub record NodeId : Type 0 where
  pub bytes : List ℕ

unfoldable pub NodeId-discrete : Discrete NodeId
unfolding ℕ_discrete
NodeId-discrete = hlevel ℕ_discrete

abbrev pub node_eq : NodeId → NodeId → Bool
node_eq a b = elim (NodeId-discrete a b) [ yes _ ↦ true | no _ ↦ false ]

pub data Role : Type 0 where
  candidate follower leader : Role

abbrev pub is_leader : Role → Bool
is_leader leader = true
is_leader _ = false

abbrev pub is_candidate : Role → Bool
is_candidate candidate = true
is_candidate _ = false

pub data Error : Type 0 where
  not_leader : Option NodeId → Error
  not_candidate : Error
  append_failed : Error
  entry_serialisation_failed : String → Error
  rejecting_entry_failed : String → Error
  persist_state_failed : String → Error
  read_committed_entry_failed : String → Error
  entry_deserialisation_failed : String → Error
  apply_committed_entry_failed : String → Error

-- A `Result` of the crate, or a panic: a failed `assert!` or `expect`, or a `todo!`.
pub data Result {ℓ} (A : Type ℓ) : Type ℓ where
  ok : A → Result A
  err : Error → Result A
  panic : Result A

pub record Progress : Type 0 where
  pub next_index : ℕ
  pub match_index : ℕ

pub record Raft : Type 0 where
  pub id : NodeId
  pub voters : List (NodeId × Progress)
  pub learners : List (NodeId × Progress)
  pub role : Role
  pub current_term : ℕ
  pub leader_id : Option NodeId
  pub voted_for : Option NodeId
  pub last_applied : ℕ
  pub commit_index : ℕ
  pub last_log_index : ℕ
  pub last_log_term : ℕ
  pub granted_votes : List NodeId

pub record VoteRequest : Type 0 where
  pub term : ℕ
  pub candidate_id : NodeId
  pub last_log_index : ℕ
  pub last_log_term : ℕ

pub record HeartbeatRequest : Type 0 where
  pub term : ℕ
  pub leader_id : NodeId
  pub log_index : ℕ
  pub log_term : ℕ
  pub leader_commit_index : ℕ

pub record VoteResponse : Type 0 where
  pub term : ℕ
  pub vote_granted : Bool

pub record AppendEntriesRequest : Type 0 where
  pub term : ℕ
  pub leader_id : NodeId
  pub prev_log_index : ℕ
  pub prev_log_term : ℕ
  pub commit_index : ℕ

pub record AppendEntriesResponse : Type 0 where
  pub term : ℕ
  pub success : Bool
  pub last_log_index : ℕ
  pub last_log_term : ℕ
  pub leader_id : Option NodeId

pub record PersistedEntries : Type 0 where
  pub operation_id : OperationId
  pub last_log_index : ℕ
  pub last_log_term : ℕ
  pub leader_commit_index : ℕ

pub record AppliedEntries : Type 0 where
  pub operation_id : OperationId
  pub through : ℕ

pub record ReceivedVoteResponse : Type 0 where
  pub from : NodeId
  pub response : VoteResponse

pub record ReceivedHeartbeatResponse : Type 0 where
  pub from : NodeId
  pub response : AppendEntriesResponse

pub record LocalEntry : Type 0 where
  pub operation_id : OperationId
  pub index : ℕ
  pub term : ℕ

pub record ReplicationTarget : Type 0 where
  pub peer : NodeId
  pub last_log_index : ℕ
  pub last_log_term : ℕ
  pub leader_id : NodeId
  pub leader_commit_index : ℕ

pub record ReceivedAppendEntriesResponse : Type 0 where
  pub operation_id : OperationId
  pub from : NodeId
  pub response : AppendEntriesResponse

pub record ReceivedAppendEntries : Type 0 where
  pub operation_id : OperationId
  pub request : AppendEntriesRequest
  pub local_prev_log_term : Option ℕ

-- The hard state.
pub record State : Type 0 where
  pub current_term : ℕ
  pub voted_for : Option NodeId

pub data Event : Type 0 where
  election_timeout heartbeat_timeout : Event
  heartbeat : HeartbeatRequest → Event
  request_vote : VoteRequest → Event
  append_entries : ReceivedAppendEntries → Event
  append_entries_response : ReceivedAppendEntriesResponse → Event
  entries_persisted : PersistedEntries → Event
  entries_applied : AppliedEntries → Event
  vote_response : ReceivedVoteResponse → Event
  heartbeat_response : ReceivedHeartbeatResponse → Event
  local_entries_appended : LocalEntry → Event
  write : OperationId → Event

-- The fields stand in the order of the source.
pub data Effect : Type 0 where
  send_request_votes : (hard_state : State) (peers : List NodeId) (request : VoteRequest) → Effect
  send_append_entries : (operation_id : OperationId) (targets : List ReplicationTarget) → Effect
  send_request_vote_response :
      (hard_state : Option State) (peer : NodeId) (response : VoteResponse) → Effect
  send_heartbeat : (peers : List NodeId) (request : HeartbeatRequest) → Effect
  send_heartbeat_response :
      (peer : NodeId) (response : AppendEntriesResponse) (reset_election_timer : Bool)
      (apply_through : Option ℕ)
      → Effect
  persist_entries :
      (operation_id : OperationId) (peer : NodeId) (response : AppendEntriesResponse)
      (truncate_after : Option ℕ) (leader_commit_index : ℕ)
      → Effect
  apply_committed : (operation_id : OperationId) (through : ℕ) → Effect
  reject_append_entries :
      (operation_id : OperationId) (peer : NodeId) (response : AppendEntriesResponse) → Effect
  append_local : (operation_id : OperationId) (term last_log_index : ℕ) → Effect
  complete_operation : (operation_id : OperationId) → Effect

-- src/raft/types.rs, LogEntry: the term and the bytes of the command.
pub record LogEntry : Type 0 where
  pub term : ℕ
  pub command : List ℕ

-- A reply channel is known by a number; `Sender` is an external type.
pub data Operation : Type 0 where
  write_op : (payload : Option (List ℕ)) (reply : ℕ) → Operation
  vote_op : (reply : ℕ) → Operation
  append_entries_op : (payload : List ℕ) (reply : ℕ) → Operation

pub data RuntimeMessage : Type 0 where
  write_message : (payload : List ℕ) (reply : ℕ) → RuntimeMessage
