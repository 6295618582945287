-- ===== src/Raft/Tests/Writing.antt =====
-- src/raft/runtime.rs, the module `tests`. The metadata file is new, and so is the log's directory.
-- The codec of log entries keeps the term and the bytes.
use raft_distributed_log_rs.Log.Index
use raft_distributed_log_rs.Log.Segment
use raft_distributed_log_rs.Log.Segmented
use raft_distributed_log_rs.Log.Store
use raft_distributed_log_rs.Log.Index.{Index}
use raft_distributed_log_rs.Log.Io.{
  IoResult, copy_into, done, failed, panicked, read_exact_at, set_len,
}
use raft_distributed_log_rs.Log.Segment.{Segment}
use raft_distributed_log_rs.Log.Segmented.{Log}
use raft_distributed_log_rs.Log.Segmented.Directory.{list_eq, open_dir, scan, sort}
use raft_distributed_log_rs.Log.Store.{Store}
use raft_distributed_log_rs.Prelude.{
  Bool, List, [], codes, false, from_be, none, refl, some, to_be, true, ℕ, ◌&&◌, ◌*◌, ◌==◌, ◌∷◌,
  ◌≡◌,
}
use raft_distributed_log_rs.Raft.Core.{handle}
use raft_distributed_log_rs.Raft.Core.Replication.{is_empty, targets}
use raft_distributed_log_rs.Raft.Peers.{contains_key, modify}
use raft_distributed_log_rs.Raft.Runtime.Driving.{drive, drive_rounds, handle_message}
use raft_distributed_log_rs.Raft.Runtime.Examples.{keeping}
use raft_distributed_log_rs.Raft.Runtime.Execution.{
  append_locally, apply_committed_entries, apply_entries, complete, execute,
}
use raft_distributed_log_rs.Raft.Runtime.Start.{
  Reply, Runtime, Services, collect, start, write_reply,
}
use raft_distributed_log_rs.Raft.Storage.{load_state}
use raft_distributed_log_rs.Raft.Tests.{node}
use raft_distributed_log_rs.Raft.Types.{
  NodeId-discrete, Result, err, leader, ok, panic, write_message,
}

-- The log that the helper `log` makes.
abbrev test_log : IoResult Log
test_log =
    open_dir
      (record {
        inital_offset = 1;
        sync_writes = false;
        max_size_bytes = 1024;
        max_store_bytes = 1024 * 1024;
      })
      (some []) (λ off. record { store_file = []; index_file = [] })

-- `RecordingFsm` keeps the commands: the state is the list of them, and `apply` does not fail.
abbrev recording_fsm : Services (List (List ℕ))
recording_fsm = keeping

-- The node as the leader of term 1.
abbrev leading : Runtime (List (List ℕ)) → Runtime (List (List ℕ))
leading rt = record rt { raft = record rt.raft { role = leader; current_term = 1 } }

-- The answers are one success for the channel 0.
abbrev is_answered : List Reply → Bool
is_answered (write_reply reply none ∷ []) = reply == 0
is_answered _ = false

abbrev has_applied : List (List ℕ) → Bool
has_applied (command ∷ []) = list_eq command (codes "set x=1")
has_applied _ = false

-- The runtime of the test after the write, from the log and the runtime that are unwrapped.
abbrev writes_set_x : Runtime (List (List ℕ)) → Bool
writes_set_x rt =
    let after = (handle_message recording_fsm (leading rt) (write_message (codes "set x=1") 0)).0 in
    is_answered after.replies
    && after.raft.commit_index == 1
    && after.raft.last_applied == 1
    && has_applied after.fsm
    && is_empty after.operations

abbrev on_started : Result (Runtime (List (List ℕ))) → Bool
on_started (ok rt) = writes_set_x rt
on_started (err e) = false
on_started panic = false

abbrev single_node_write_is_persisted_applied_and_replied_to : Bool
single_node_write_is_persisted_applied_and_replied_to =
    let id = node "node-1" in
    elim test_log [
      | done l ↦ on_started (start id (id ∷ []) l [] [])
      | failed e ↦ false
      | panicked ↦ false
    ]

runtime_test_passes : single_node_write_is_persisted_applied_and_replied_to ≡ true
unfolding start load_state collect contains_key NodeId-discrete handle_message drive drive_rounds
    handle execute append_locally apply_committed_entries apply_entries complete targets modify
    open_dir sort scan Segmented.new Segmented.open_segments Segmented.new_segment
    Segmented.next_offset Segmented.append Segmented.read Segmented.read_segments Segment.new
    Segment.append Segment.read Segment.is_maxed Index.new Index.write Index.read Store.new
    Store.append Store.read Store.buffer_write Store.flush copy_into set_len read_exact_at from_be
    to_be
runtime_test_passes = refl
