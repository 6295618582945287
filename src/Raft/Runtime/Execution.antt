-- ===== src/Raft/Runtime/Execution.antt =====
-- src/raft/runtime.rs: `execute`, which carries out an effect and may return the next event. What is
-- a `todo!` in the source panics.
use raft_distributed_log_rs.Log.Segmented
use raft_distributed_log_rs.Log.Io.{IoResult, done, failed, panicked}
use raft_distributed_log_rs.Log.Segmented.{Log}
use raft_distributed_log_rs.Prelude.{
  List, Option, String, if◌then◌else◌, inl, inr, none, saturating_add, some, suc, zero, ℕ, ◌+◌, ◌-◌,
  ◌⊎◌,
}
use raft_distributed_log_rs.Raft.Core.Base.{hard_state}
use raft_distributed_log_rs.Raft.Core.Replication.{targets}
use raft_distributed_log_rs.Raft.Runtime.Start.{
  Runtime, Services, append_entries_reply, find, send, with_operation, without, write_reply,
}
use raft_distributed_log_rs.Raft.Storage.{save_state}
use raft_distributed_log_rs.Raft.Types.{
  AppendEntriesResponse, Effect, Event, LogEntry, Operation, OperationId, Result, State,
  append_entries_op, append_failed, append_local, apply_committed, apply_committed_entry_failed,
  complete_operation, entries_applied, entry_deserialisation_failed, entry_serialisation_failed,
  err, local_entries_appended, ok, panic, persist_entries, read_committed_entry_failed,
  reject_append_entries, rejecting_entry_failed, send_append_entries, send_heartbeat,
  send_heartbeat_response, send_request_vote_response, send_request_votes, write_op,
}

abbrev pub Ran : Type 0 → Type 0 → Type 0
Ran F A = Runtime F × Result A

unfoldable pub persist_hard_state : {F : Type 0} → Runtime F → State → Runtime F
persist_hard_state rt state = record rt { storage = save_state rt.storage state }

-- One entry that was read: it is decoded and applied; the error, if any, stops the loop.
abbrev pub apply_entry :
    {F : Type 0} → Services F → Runtime F → String ⊎ LogEntry → Ran F (Unit {0})
apply_entry m rt (inl e) = (rt, err (entry_deserialisation_failed e))
apply_entry m rt (inr entry) =
    let (fsm, result) = m.apply rt.fsm entry.command in
    (
      record rt { fsm = fsm },
      elim result [ none ↦ ok tt | some e ↦ err (apply_committed_entry_failed e) ],
    )

abbrev pub apply_read :
    {F : Type 0} → Services F → Runtime F → Log × IoResult (List ℕ) → Ran F (Unit {0})
apply_read m rt (log, done bytes) = apply_entry m (record rt { log = log }) (m.decode bytes)
apply_read m rt (log, failed e) =
    (record rt { log = log }, err (read_committed_entry_failed e.message))
apply_read m rt (log, panicked) = (record rt { log = log }, panic)

-- The loop of `ApplyCommitted`, over `count` entries from `index` on.
unfoldable pub apply_entries :
    {F : Type 0} → Services F → (count index : ℕ) → Runtime F → Ran F (Unit {0})
apply_entries m zero index rt = (rt, ok tt)
apply_entries m (suc count) index rt =
    let now = apply_read m rt (Segmented.read rt.log index) in
    let rest = apply_entries m count (index + 1) now.0 in
    elim now.1 [ ok _ ↦ rest | err e ↦ now | panic ↦ now ]

-- `first_unapplied..=through`.
unfoldable pub apply_committed_entries :
    {F : Type 0} → Services F → Runtime F → OperationId → ℕ → Ran F (Option Event)
apply_committed_entries m rt operation_id through =
    let first_unapplied = saturating_add rt.raft.last_applied 1 in
    let (rt', result) = apply_entries m (through + 1 - first_unapplied) first_unapplied rt in
    (
      rt',
      elim result [
        | ok _ ↦
            ok (some (entries_applied (record { operation_id = operation_id; through = through })))
        | err e ↦ err e
        | panic ↦ panic
      ],
    )

-- The end of `AppendLocal`: the encoded entry goes to the log.
abbrev pub append_encoded :
    {F : Type 0} → Runtime F → OperationId → ℕ → Log × IoResult ℕ → Ran F (Option Event)
append_encoded rt operation_id term (log, done index) = (
  record rt { log = log },
  ok (
      some (
        local_entries_appended
          (record { operation_id = operation_id; index = index; term = term }))),
)
append_encoded rt operation_id term (log, failed e) = (record rt { log = log }, err append_failed)
append_encoded rt operation_id term (log, panicked) = (record rt { log = log }, panic)

abbrev pub encoded :
    {F : Type 0} → Runtime F → OperationId → ℕ → String ⊎ List ℕ → Ran F (Option Event)
encoded rt operation_id term (inl e) = (rt, err (entry_serialisation_failed e))
encoded rt operation_id term (inr bytes) =
    append_encoded rt operation_id term (Segmented.append rt.log bytes)

-- `AppendLocal`: the data of the operation is taken, and the operation kept for its reply.
unfoldable pub append_locally :
    {F : Type 0}
    → Services F
    → Runtime F
    → OperationId
    → ℕ
    → Option Operation
    → Ran F (Option Event)
append_locally m rt operation_id term (some (write_op (some command) reply)) =
    encoded
      (record rt { operations = with_operation operation_id (write_op none reply) rt.operations })
      operation_id term (m.encode (record { term = term; command = command }))
append_locally m rt operation_id term _ =
    (record rt { operations = without operation_id rt.operations }, panic)

-- `RejectAppendEntries` and `CompleteOperation` take their operation.
unfoldable pub reject :
    {F : Type 0}
    → Services F
    → Runtime F
    → OperationId
    → AppendEntriesResponse
    → Option Operation
    → Ran F (Option Event)
reject m rt operation_id response (some (append_entries_op payload reply)) =
    let rt' = record rt { operations = without operation_id rt.operations } in
    if m.is_open reply
    then (send m rt' reply (append_entries_reply reply response), ok none)
    else (rt', err (rejecting_entry_failed "response receiver was dropped"))
reject m rt operation_id response _ =
    (record rt { operations = without operation_id rt.operations }, panic)

unfoldable pub complete :
    {F : Type 0} → Services F → Runtime F → OperationId → Option Operation → Ran F (Option Event)
complete m rt operation_id (some (write_op payload reply)) = (
  send m (record rt { operations = without operation_id rt.operations }) reply
      (write_reply reply none),
  ok none,
)
complete m rt operation_id _ =
    (record rt { operations = without operation_id rt.operations }, panic)

unfoldable pub execute : {F : Type 0} → Services F → Runtime F → Effect → Ran F (Option Event)
unfolding append_locally reject complete apply_committed_entries persist_hard_state
execute m rt (send_request_votes hard_state peers q) = (persist_hard_state rt hard_state, panic)
execute m rt (send_append_entries operation_id targets) = (rt, ok none)
execute m rt (send_request_vote_response none peer a) = (rt, panic)
execute m rt (send_request_vote_response (some hard_state) peer a) =
    (persist_hard_state rt hard_state, panic)
execute m rt (send_heartbeat peers q) = (rt, panic)
execute m rt (send_heartbeat_response peer a reset apply_through) = (rt, panic)
execute m rt (persist_entries operation_id peer a truncate_after commit) = (rt, panic)
execute m rt (apply_committed operation_id through) =
    apply_committed_entries m rt operation_id through
execute m rt (reject_append_entries operation_id peer response) =
    reject m rt operation_id response (find operation_id rt.operations)
execute m rt (append_local operation_id term last_log_index) =
    append_locally m rt operation_id term (find operation_id rt.operations)
execute m rt (complete_operation operation_id) =
    complete m rt operation_id (find operation_id rt.operations)
