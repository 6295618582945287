-- ===== src/Raft/Runtime/Start.antt =====
-- src/raft/runtime.rs: the runtime's state, its start, and its pending operations.
use raft_distributed_log_rs.Log.Segmented
use raft_distributed_log_rs.Log.Segmented.{Log}
use raft_distributed_log_rs.Prelude.{
  Bool, List, Option, String, [], if◌then◌else◌, none, some, ℕ, ◌-◌, ◌==◌, ◌∷◌, ◌⊎◌,
}
use raft_distributed_log_rs.Raft.Peers.{Peers, contains_key}
use raft_distributed_log_rs.Raft.Storage.{load_state}
use raft_distributed_log_rs.Raft.Types.{
  AppendEntriesResponse, Error, LogEntry, NodeId, Operation, OperationId, Progress, Raft, Result,
  State, follower, node_eq, ok, panic,
}

-- What the runtime uses of other code: the user's state machine, whose `apply` may return an error,
-- the message codec of `LogEntry`, and the reply channels, which may have lost their receiver.
pub record Services (F : Type 0) : Type 0 where
  pub apply : F → List ℕ → F × Option String
  pub encode : LogEntry → String ⊎ List ℕ
  pub decode : List ℕ → String ⊎ LogEntry
  pub is_open : ℕ → Bool

-- What is sent on a reply channel.
pub data Reply : Type 0 where
  write_reply : (reply : ℕ) (result : Option Error) → Reply
  vote_error : (reply : ℕ) (error : Error) → Reply
  append_entries_reply : (reply : ℕ) (response : AppendEntriesResponse) → Reply
  append_entries_error : (reply : ℕ) (error : Error) → Reply

-- `storage` is the metadata file; `replies` are those received so far, newest first.
pub record Runtime (F : Type 0) : Type 0 where
  pub raft : Raft
  pub log : Log
  pub storage : List ℕ
  pub fsm : F
  pub next_operation_id : ℕ
  pub operations : List (OperationId × Operation)
  pub replies : List Reply

-- The progress that `new` gives to a voter.
abbrev pub initial_progress : NodeId → ℕ → NodeId → Progress
initial_progress id next_index voter = record {
  next_index = next_index;
  match_index = if node_eq voter id then next_index - 1 else 0;
}

-- The voters collected into a map: each once.
unfoldable pub collect : NodeId → ℕ → List NodeId → Peers
collect id next_index [] = []
collect id next_index (voter ∷ voters) =
    let rest = collect id next_index voters in
    if contains_key voter rest then rest else (voter, initial_progress id next_index voter) ∷ rest

-- The core as it starts: the end of its log is not read from the log.
abbrev pub initial_raft : NodeId → Peers → State → Raft
initial_raft id voters state = record {
  id = id;
  voters = voters;
  learners = [];
  role = follower;
  current_term = state.current_term;
  leader_id = none;
  voted_for = state.voted_for;
  last_applied = 0;
  commit_index = 0;
  last_log_index = 0;
  last_log_term = 0;
  granted_votes = [];
}

-- `new` once the state is loaded and the log has told its next offset.
abbrev pub started :
    {F : Type 0}
    → NodeId
    → List NodeId
    → Log
    → List ℕ
    → F
    → Result State
    → Option ℕ
    → Result (Runtime F)
started id voters log storage fsm (ok state) (some next_index) =
    let peers = collect id next_index voters in
    if contains_key id peers
    then ok (record {
      raft = initial_raft id peers state;
      log = log;
      storage = storage;
      fsm = fsm;
      next_operation_id = 1;
      operations = [];
      replies = [];
    })
    else panic
started id voters log storage fsm _ _ = panic

unfoldable pub start : {F : Type 0} → NodeId → List NodeId → Log → List ℕ → F → Result (Runtime F)
start id voters log storage fsm =
    started id voters log storage fsm (load_state storage) (Segmented.next_offset log)

-- The operations, a map from the ids.
abbrev pub find : OperationId → List (OperationId × Operation) → Option Operation
find i [] = none
find i ((j, op) ∷ ops) = if j.id == i.id then some op else find i ops

abbrev pub without : OperationId → List (OperationId × Operation) → List (OperationId × Operation)
without i [] = []
without i ((j, op) ∷ ops) =
    let rest = without i ops in if j.id == i.id then rest else (j, op) ∷ rest

abbrev pub with_operation :
    OperationId → Operation → List (OperationId × Operation) → List (OperationId × Operation)
with_operation i op ops = (i, op) ∷ without i ops

-- A reply reaches its receiver, if there is one.
abbrev pub send : {F : Type 0} → Services F → Runtime F → ℕ → Reply → Runtime F
send m rt reply what = if m.is_open reply then record rt { replies = what ∷ rt.replies } else rt
