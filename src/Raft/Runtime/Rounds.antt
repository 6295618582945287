-- ===== src/Raft/Runtime/Rounds.antt =====
-- src/raft/runtime.rs: single rounds of the loop of `drive`, and the map of the operations.
use raft_distributed_log_rs.Log.Segmented
use raft_distributed_log_rs.Log.Segmented.Contents.{get_elem?-last}
use raft_distributed_log_rs.Log.Segmented.Reading.{Contains, read-Contains}
use raft_distributed_log_rs.Prelude.{
  List, [], arith, inr, length, none, refl, saturating_add, some, suc, u64_mod, ℕ, ◌++◌, ◌+◌, ◌-◌,
  ◌<◌, ◌∷◌, ◌≡◌,
}
use raft_distributed_log_rs.Raft.Core.{handle}
use raft_distributed_log_rs.Raft.Runtime.Driving.{drive_rounds}
use raft_distributed_log_rs.Raft.Runtime.Execution.{apply_committed_entries, apply_entries, execute}
use raft_distributed_log_rs.Raft.Runtime.Start.{Runtime, Services, find, with_operation, without}
use raft_distributed_log_rs.Raft.Types.{
  Effect, Event, LogEntry, Operation, OperationId, Raft, entries_applied, ok,
}

module _ {F : Type 0} (m : Services F) where
  -- One committed entry, which the log holds behind the applied ones, is read, decoded and applied.
  pub apply_one :
      (rt : Runtime F) (i : OperationId) (b : ℕ) (all : List (List ℕ)) (bytes : List ℕ)
      (entry : LogEntry)
      → Contains rt.log b (all ++ bytes ∷ [])
      → m.decode bytes ≡ inr entry
      → (m.apply rt.fsm entry.command).1 ≡ none
      → rt.raft.last_applied + 1 ≡ b + length all
      → b + length all < u64_mod
      → apply_committed_entries m rt i (b + length all) ≡ (
        record rt {
          log = (Segmented.read rt.log (b + length all)).0;
          fsm = (m.apply rt.fsm entry.command).0;
        },
        ok (some (entries_applied (record { operation_id = i; through = b + length all }))),
      )
  unfolding apply_committed_entries apply_entries
  apply_one rt i b all bytes entry c decoded applied next fits =
      let first_is : saturating_add rt.raft.last_applied 1 ≡ b + length all = omega arith in
      let one : b + length all + 1 - (b + length all) ≡ 1 = omega arith in
      let found =
        (read-Contains rt.log b (all ++ bytes ∷ []) (length all) bytes c
          (get_elem?-last all bytes)).0 in
      rw (first_is, one) (ground (arith, found))

  -- One round of the loop.
  pub round :
      (fuel : ℕ) (rt : Runtime F) (e : Event) (r : Raft) (f : Effect) (rt' : Runtime F) (e' : Event)
      → handle rt.raft e ≡ (r, ok (some f))
      → execute m (record rt { raft = r }) f ≡ (rt', ok (some e'))
      → drive_rounds m (suc fuel) rt e ≡ drive_rounds m fuel rt' e'
  unfolding drive_rounds
  round fuel rt e r f rt' e' h x = rw h (rw x refl)

  pub last_round :
      (fuel : ℕ) (rt : Runtime F) (e : Event) (r : Raft) (f : Effect) (rt' : Runtime F)
      → handle rt.raft e ≡ (r, ok (some f))
      → execute m (record rt { raft = r }) f ≡ (rt', ok none)
      → drive_rounds m (suc fuel) rt e ≡ some (rt', ok tt)
  unfolding drive_rounds
  last_round fuel rt e r f rt' h x = rw h (rw x refl)

pub find-with_operation :
    (i : OperationId) (op : Operation) (ops : List (OperationId × Operation))
    → find i (with_operation i op ops) ≡ some op
find-with_operation i op ops = ground arith

pub without-without :
    (i : OperationId) (ops : List (OperationId × Operation))
    → without i (without i ops) ≡ without i ops
without-without i [] = refl
without-without i ((j, op) ∷ ops) = ground (arith, without-without i ops)

pub without-with_operation :
    (i : OperationId) (op : Operation) (ops : List (OperationId × Operation))
    → without i (with_operation i op ops) ≡ without i ops
without-with_operation i op ops = ground (arith, without-without i ops)

-- A map that has no such operation loses none.
pub without-absent :
    (i : OperationId) (ops : List (OperationId × Operation))
    → find i ops ≡ none
    → without i ops ≡ ops
without-absent i [] h = refl
without-absent i ((j, op) ∷ ops) h = ground (arith, without-absent i ops)
