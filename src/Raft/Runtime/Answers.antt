-- ===== src/Raft/Runtime/Answers.antt =====
-- src/raft/runtime.rs: what becomes of the operation of a write.
pub mod Effects
use raft_distributed_log_rs.Prelude.{
  Bool-cases, List, Option, ap, arith, inl, inr, ltb, none, refl, some, subst, suc, true, u64_mod,
  zero, ℕ, ◌+◌, ◌∷◌, ◌≡◌, ◌⊎◌,
}
use raft_distributed_log_rs.Raft.Core.{handle}
use raft_distributed_log_rs.Raft.Core.Base.{Outcome}
use raft_distributed_log_rs.Raft.Runtime.Answers.Effects.{
  Answered, Ended, Follows, FollowsResult, Owed, execute-Ended, find-without, handle-Follows,
}
use raft_distributed_log_rs.Raft.Runtime.Driving.{
  after_handle, drive, drive_rounds, fail_operation, finish, handle_message, next_round, or_panic,
  rounds,
}
use raft_distributed_log_rs.Raft.Runtime.Execution.{Ran, execute}
use raft_distributed_log_rs.Raft.Runtime.Rounds.{find-with_operation}
use raft_distributed_log_rs.Raft.Runtime.Start.{
  Reply, Runtime, Services, send, with_operation, without, write_reply,
}
use raft_distributed_log_rs.Raft.Types.{
  Effect, Error, Event, OperationId, Result, err, ok, panic, write, write_message, write_op,
}

module _ {F : Type 0} (m : Services F) (i : OperationId) (reply : ℕ) (old : List Reply)
    (waits : m.is_open reply ≡ true) where
  -- After some rounds.
  abbrev Settled : Option (Ran F (Unit {0})) → Type 0
  Settled none = Unit {0}
  Settled (some (rt, ok _)) = Owed i reply old rt ⊎ Answered i reply old rt
  Settled (some (rt, err e)) = Owed i reply old rt
  Settled (some (rt, panic)) = Unit {0}

  next_round-Settled :
      (again : Runtime F → Event → Option (Ran F (Unit {0}))) (ran : Ran F (Option Event))
      → Ended m i reply old waits ran
      → ((rt : Runtime F) (e : Event) → Owed i reply old rt → Follows i e → Settled (again rt e))
      → Settled (next_round again ran)
  next_round-Settled again (rt, ok none) h each = h
  next_round-Settled again (rt, ok (some e)) h each = each rt e h.0 h.1
  next_round-Settled again (rt, err e) h each = h
  next_round-Settled again (rt, panic) h each = tt

  after_handle-Settled :
      (again : Runtime F → Event → Option (Ran F (Unit {0}))) (rt : Runtime F)
      (o : Outcome (Option Effect))
      → Owed i reply old rt
      → FollowsResult i o.1
      → ((rt' : Runtime F) (e : Event) → Owed i reply old rt' → Follows i e → Settled (again rt' e))
      → Settled (after_handle m again rt o)
  after_handle-Settled again rt (r, ok none) h f each = inl h
  after_handle-Settled again rt (r, err e) h f each = h
  after_handle-Settled again rt (r, panic) h f each = tt
  after_handle-Settled again rt (r, ok (some effect)) h f each =
      next_round-Settled again (execute m (record rt { raft = r }) effect)
        (execute-Ended m i reply old waits (record rt { raft = r }) effect h f) each

  drive_rounds-Settled :
      (fuel : ℕ) (rt : Runtime F) (e : Event)
      → Owed i reply old rt
      → Follows i e
      → Settled (drive_rounds m fuel rt e)
  unfolding drive_rounds
  drive_rounds-Settled zero rt e h f = tt
  drive_rounds-Settled (suc fuel) rt e h f =
      after_handle-Settled (λ rt' e'. drive_rounds m fuel rt' e') rt (handle rt.raft e) h
        (handle-Follows rt.raft i e f) (λ rt' e'. drive_rounds-Settled fuel rt' e')

  fail_operation-Answered :
      (rt : Runtime F) (e : Error)
      → Owed i reply old rt
      → Answered i reply old (fail_operation m rt i e)
  unfolding fail_operation
  fail_operation-Answered rt e (d, found, same) =
      let value : fail_operation m rt i e
          ≡ send m (record rt { operations = without i rt.operations }) reply
              (write_reply reply (some e)) =
        ground (arith, found) in
      rw (value, waits)
        (some e, find-without i rt.operations, ap (◌∷◌ (write_reply reply (some e))) same)

  -- What `handle_message` makes of it.
  finish-Settled :
      (rt : Runtime F) (o : Option (Ran F (Unit {0}))) (out : Runtime F)
      → Settled o
      → finish m i (or_panic rt o) ≡ (out, ok tt)
      → Owed i reply old out ⊎ Answered i reply old out
  finish-Settled rt none out h e =
      let refuted : Path (Result (Unit {0})) panic (ok tt) = ap (λ (x : Ran F (Unit {0})). x.1) e in
      cc
  finish-Settled rt (some (rt', ok _)) out h e =
      subst (λ (x : Runtime F). Owed i reply old x ⊎ Answered i reply old x)
        (ap (λ (x : Ran F (Unit {0})). x.0) e) h
  finish-Settled rt (some (rt', panic)) out h e =
      let refuted : Path (Result (Unit {0})) panic (ok tt) = ap (λ (x : Ran F (Unit {0})). x.1) e in
      cc
  finish-Settled rt (some (rt', err x)) out h e =
      subst (λ (x : Runtime F). Owed i reply old x ⊎ Answered i reply old x)
        (ap (λ (x : Ran F (Unit {0})). x.0) e) (inr (fail_operation-Answered rt' x h))

-- A write that is handled without a panic has either got exactly one answer and is forgotten, or it
-- has got none yet and is kept under its id with the channel for its answer: no write is dropped, and
-- none is answered twice. The receiver of the answer is there.
pub handle_message-Answered :
    (F : Type 0) (m : Services F) (rt : Runtime F) (payload : List ℕ) (reply : ℕ) (out : Runtime F)
    → m.is_open reply ≡ true
    → handle_message m rt (write_message payload reply) ≡ (out, ok tt)
    → Owed (record { id = rt.next_operation_id }) reply rt.replies out
      ⊎ Answered (record { id = rt.next_operation_id }) reply rt.replies out
unfolding handle_message drive
handle_message-Answered F m rt payload reply out waits e =
    let i : OperationId = record { id = rt.next_operation_id } in
    let op = write_op (some payload) reply in
    let rt' : Runtime F = record rt {
      next_operation_id = rt.next_operation_id + 1;
      operations = with_operation i op rt.operations;
    } in
    let owed : Owed i reply rt.replies rt' =
      (some payload, find-with_operation i op rt.operations, refl) in
    let settled = drive_rounds-Settled m i reply rt.replies waits rounds rt' (write i) owed refl in
    elim (Bool-cases (ltb (rt.next_operation_id + 1) u64_mod)) [
      | inl room ↦
          finish-Settled m i reply rt.replies waits rt' (drive_rounds m rounds rt' (write i)) out
            settled (rw room at e)
      | inr full ↦
          let stopped : Path (Result (Unit {0})) panic (ok tt) =
            ap (λ (x : Ran F (Unit {0})). x.1) (rw full at e) in
          cc
    ]
