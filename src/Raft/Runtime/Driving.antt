-- ===== src/Raft/Runtime/Driving.antt =====
-- src/raft/runtime.rs: `drive`, the loop between the core and `execute`, and `handle_message`.
use raft_distributed_log_rs.Prelude.{
  Option, if◌then◌else◌, ltb, none, some, suc, u64_mod, zero, ℕ, ◌+◌,
}
use raft_distributed_log_rs.Raft.Core.{handle}
use raft_distributed_log_rs.Raft.Core.Base.{Outcome}
use raft_distributed_log_rs.Raft.Runtime.Execution.{Ran, execute}
use raft_distributed_log_rs.Raft.Runtime.Start.{
  Runtime, Services, append_entries_error, find, send, vote_error, with_operation, without,
  write_reply,
}
use raft_distributed_log_rs.Raft.Types.{
  Effect, Error, Event, OperationId, RuntimeMessage, append_entries_op, err, ok, panic, vote_op,
  write, write_message, write_op,
}

-- What the loop does with what `execute` returned; `none` is a loop that is out of fuel.
abbrev pub next_round :
    {F : Type 0}
    → (Runtime F → Event → Option (Ran F (Unit {0})))
    → Ran F (Option Event)
    → Option (Ran F (Unit {0}))
next_round again (rt, ok none) = some (rt, ok tt)
next_round again (rt, ok (some event)) = again rt event
next_round again (rt, err e) = some (rt, err e)
next_round again (rt, panic) = some (rt, panic)

-- What the loop does with what the core returned.
abbrev pub after_handle :
    {F : Type 0}
    → Services F
    → (Runtime F → Event → Option (Ran F (Unit {0})))
    → Runtime F
    → Outcome (Option Effect)
    → Option (Ran F (Unit {0}))
after_handle m again rt (raft, ok none) = some (record rt { raft = raft }, ok tt)
after_handle m again rt (raft, ok (some effect)) =
    next_round again (execute m (record rt { raft = raft }) effect)
after_handle m again rt (raft, err e) = some (record rt { raft = raft }, err e)
after_handle m again rt (raft, panic) = some (record rt { raft = raft }, panic)

-- `drive`, for a number of rounds.
unfoldable pub drive_rounds :
    {F : Type 0} → Services F → ℕ → Runtime F → Event → Option (Ran F (Unit {0}))
drive_rounds m zero rt event = none
drive_rounds m (suc fuel) rt event =
    after_handle m (λ rt' event'. drive_rounds m fuel rt' event') rt (handle rt.raft event)

-- Three rounds are enough for every event.
abbrev pub rounds : ℕ
rounds = 3

-- Without a result after that, it would be a panic; it has one.
abbrev pub or_panic : {F : Type 0} → Runtime F → Option (Ran F (Unit {0})) → Ran F (Unit {0})
or_panic rt (some ran) = ran
or_panic rt none = (rt, panic)

unfoldable pub drive : {F : Type 0} → Services F → Runtime F → Event → Ran F (Unit {0})
drive m rt event = or_panic rt (drive_rounds m rounds rt event)

unfoldable pub fail_operation :
    {F : Type 0} → Services F → Runtime F → OperationId → Error → Runtime F
fail_operation m rt operation_id e =
    let rt' = record rt { operations = without operation_id rt.operations } in
    elim (find operation_id rt.operations) [
      | none ↦ rt
      | some (write_op payload reply) ↦ send m rt' reply (write_reply reply (some e))
      | some (vote_op reply) ↦ send m rt' reply (vote_error reply e)
      | some (append_entries_op payload reply) ↦ send m rt' reply (append_entries_error reply e)
    ]

-- An error of `drive` is the answer to the operation.
abbrev pub finish : {F : Type 0} → Services F → OperationId → Ran F (Unit {0}) → Ran F (Unit {0})
finish m operation_id (rt, ok _) = (rt, ok tt)
finish m operation_id (rt, err e) = (fail_operation m rt operation_id e, ok tt)
finish m operation_id (rt, panic) = (rt, panic)

-- The id is counted up with `checked_add`, whose failure panics.
unfoldable pub handle_message :
    {F : Type 0} → Services F → Runtime F → RuntimeMessage → Ran F (Unit {0})
unfolding drive
handle_message m rt (write_message payload reply) =
    let operation_id : OperationId = record { id = rt.next_operation_id } in
    let rt' = record rt {
      next_operation_id = rt.next_operation_id + 1;
      operations = with_operation operation_id (write_op (some payload) reply) rt.operations;
    } in
    if ltb (rt.next_operation_id + 1) u64_mod
    then finish m operation_id (drive m rt' (write operation_id))
    else (rt, panic)
