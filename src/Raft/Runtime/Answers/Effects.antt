-- ===== src/Raft/Runtime/Answers/Effects.antt =====
-- src/raft/runtime.rs: what an effect makes of the operation of a write.
use raft_distributed_log_rs.Log.Segmented
use raft_distributed_log_rs.Log.Segmented
use raft_distributed_log_rs.Log.Io.{IoResult, done, failed, panicked}
use raft_distributed_log_rs.Log.Segmented.{Log}
use raft_distributed_log_rs.Prelude.{
  List, Option, String, [], ap, arith, inl, inr, none, refl, saturating_add, some, subst, sym, true,
  ℕ, ◌+◌, ◌-◌, ◌∙◌, ◌∷◌, ◌≡◌, ◌⊎◌,
}
use raft_distributed_log_rs.Raft.Core.{handle}
use raft_distributed_log_rs.Raft.Runtime.Applying.{apply_entries-Same}
use raft_distributed_log_rs.Raft.Runtime.Execution.{
  Ran, append_encoded, append_locally, apply_committed_entries, apply_entries, complete, encoded,
  execute,
}
use raft_distributed_log_rs.Raft.Runtime.Rounds.{find-with_operation}
use raft_distributed_log_rs.Raft.Runtime.Start.{
  Reply, Runtime, Services, find, without, write_reply,
}
use raft_distributed_log_rs.Raft.Types.{
  Effect, Error, Event, Operation, OperationId, Raft, Result, append_local, apply_committed,
  complete_operation, entries_applied, err, local_entries_appended, ok, panic, send_append_entries,
  write, write_op,
}

-- The write waits for its answer on this channel: nothing was answered since.
abbrev pub Owed : {F : Type 0} → OperationId → ℕ → List Reply → Runtime F → Type 0
Owed i reply old rt =
    (d : Option (List ℕ)) × (find i rt.operations ≡ some (write_op d reply)) × (rt.replies ≡ old)

-- It has got its one answer, and is forgotten.
abbrev pub Answered : {F : Type 0} → OperationId → ℕ → List Reply → Runtime F → Type 0
Answered i reply old rt =
    (r : Option Error) × (find i rt.operations ≡ none) × (rt.replies ≡ write_reply reply r ∷ old)

-- What a write of this id leads to.
abbrev pub Follows : OperationId → Event → Type 0
Follows i (write j) = j ≡ i
Follows i (local_entries_appended e) = e.operation_id ≡ i
Follows i (entries_applied e) = e.operation_id ≡ i
Follows i _ = ⊥

abbrev pub FollowsEffect : OperationId → Effect → Type 0
FollowsEffect i (append_local j term index) = j ≡ i
FollowsEffect i (apply_committed j through) = j ≡ i
FollowsEffect i (complete_operation j) = j ≡ i
FollowsEffect i (send_append_entries j peers) = j ≡ i
FollowsEffect i _ = ⊥

abbrev pub FollowsResult : OperationId → Result (Option Effect) → Type 0
FollowsResult i (ok (some f)) = FollowsEffect i f
FollowsResult i _ = Unit {0}

pub handle-Follows :
    (r : Raft) (i : OperationId) (e : Event) → Follows i e → FollowsResult i (handle r e).1
unfolding handle
handle-Follows r i (write j) h = ground (arith, h)
handle-Follows r i (local_entries_appended e) h = ground (arith, h)
handle-Follows r i (entries_applied e) h = ground (arith, h)
handle-Follows r i _ h = absurd h

pub find-without :
    (i : OperationId) (ops : List (OperationId × Operation)) → find i (without i ops) ≡ none
find-without i [] = refl
find-without i ((j, op) ∷ ops) = ground (arith, find-without i ops)

module _ {F : Type 0} (m : Services F) (i : OperationId) (reply : ℕ) (old : List Reply)
    (waits : m.is_open reply ≡ true) where
  -- After an effect: an operation that is answered leads to no event.
  abbrev pub Ended : Ran F (Option Event) → Type 0
  Ended (rt, ok none) = Owed i reply old rt ⊎ Answered i reply old rt
  Ended (rt, ok (some e)) = Owed i reply old rt × Follows i e
  Ended (rt, err e) = Owed i reply old rt
  Ended (rt, panic) = Unit {0}

  encoded-Ended :
      (rt : Runtime F) (term : ℕ) (d : String ⊎ List ℕ)
      → Owed i reply old rt
      → Ended (encoded rt i term d)
  encoded-Ended rt term (inl e) h = h
  encoded-Ended rt term (inr bytes) h = appended (Segmented.append rt.log bytes)
    where
      appended : (o : Log × IoResult ℕ) → Ended (append_encoded rt i term o)
      appended (l, done index) = (h, refl)
      appended (l, failed e) = h
      appended (l, panicked) = tt

  append_locally-Ended :
      (rt : Runtime F) (term : ℕ) (d : Option (List ℕ))
      → rt.replies ≡ old
      → Ended (append_locally m rt i term (some (write_op d reply)))
  unfolding append_locally
  append_locally-Ended rt term none h = tt
  append_locally-Ended rt term (some command) h =
      encoded-Ended _ term _ (none, find-with_operation i (write_op none reply) rt.operations, h)

  ran-Ended :
      (ran : Ran F (Unit {0})) (through : ℕ)
      → Owed i reply old ran.0
      → Ended (
        ran.0,
        elim ran.1 as (λ _. Result (Option Event)) [
          | ok _ ↦ ok (some (entries_applied (record { operation_id = i; through = through })))
          | err e ↦ err e
          | panic ↦ panic
        ],
      )
  ran-Ended (rt, ok _) through h = (h, refl)
  ran-Ended (rt, err e) through h = h
  ran-Ended (rt, panic) through h = tt

  applied-Ended :
      (rt : Runtime F) (through : ℕ)
      → Owed i reply old rt
      → Ended (apply_committed_entries m rt i through)
  unfolding apply_committed_entries
  applied-Ended rt through (d, found, same) =
      let first_unapplied = saturating_add rt.raft.last_applied 1 in
      let count = through + 1 - first_unapplied in
      let kept = apply_entries-Same m count first_unapplied rt in
      ran-Ended (apply_entries m count first_unapplied rt) through
        (d, rw kept.same_operations found, kept.same_replies ∙ same)

  pub execute-Ended :
      (rt : Runtime F) (f : Effect)
      → Owed i reply old rt
      → FollowsEffect i f
      → Ended (execute m rt f)
  unfolding execute complete
  execute-Ended rt (append_local j term index) (d, found, same) e =
      rw (e, found) (append_locally-Ended rt term d same)
  execute-Ended rt (complete_operation j) (d, found, same) e =
      rw (e, found, waits)
        (inr (none, find-without i rt.operations, ap (◌∷◌ (write_reply reply none)) same))
  execute-Ended rt (apply_committed j through) h e =
      subst (λ (k : OperationId). Ended (apply_committed_entries m rt k through)) (sym e)
        (applied-Ended rt through h)
  execute-Ended rt (send_append_entries j peers) h e = inl h
  execute-Ended rt _ h e = absurd e
