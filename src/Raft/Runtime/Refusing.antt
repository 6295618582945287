-- ===== src/Raft/Runtime/Refusing.antt =====
-- src/raft/runtime.rs: a write at a node that is not the leader.
use raft_distributed_log_rs.Prelude.{List, arith, none, some, u64_mod, ℕ, ◌+◌, ◌<◌, ◌≡◌, ◌≢◌}
use raft_distributed_log_rs.Raft.Core.{handle}
use raft_distributed_log_rs.Raft.Runtime.Driving.{
  drive, drive_rounds, fail_operation, handle_message,
}
use raft_distributed_log_rs.Raft.Runtime.Rounds.{
  find-with_operation, without-absent, without-with_operation,
}
use raft_distributed_log_rs.Raft.Runtime.Start.{Runtime, Services, find, send, write_reply}
use raft_distributed_log_rs.Raft.Types.{
  OperationId, leader, not_leader, ok, write_message, write_op,
}

-- A write at a node that is not a leader changes nothing but the counter of operation ids, and is
-- answered with the leader that the node knows, if the receiver of the answer is there. No
-- operation is pending under the new id.
pub write_at_other :
    (F : Type 0) (m : Services F) (rt : Runtime F) (payload : List ℕ) (reply : ℕ)
    → rt.raft.role ≢ leader
    → rt.next_operation_id + 1 < u64_mod
    → find (record { id = rt.next_operation_id }) rt.operations ≡ none
    → handle_message m rt (write_message payload reply) ≡ (
      send m
          (record rt { next_operation_id = rt.next_operation_id + 1 })
          reply
          (write_reply reply (some (not_leader rt.raft.leader_id))),
      ok tt,
    )
unfolding handle_message drive drive_rounds handle fail_operation
write_at_other F m rt payload reply other room fresh =
    let i : OperationId = record { id = rt.next_operation_id } in
    ground (
      arith,
      find-with_operation i (write_op (some payload) reply) rt.operations,
      without-with_operation i (write_op (some payload) reply) rt.operations,
      without-absent i rt.operations fresh,
    )
