-- ===== src/Raft/Runtime/Pending.antt =====
-- src/raft/runtime.rs: the ids of the operations that are pending.
use raft_distributed_log_rs.Log.Segmented
use raft_distributed_log_rs.Log.Io.{IoResult, done, failed, panicked}
use raft_distributed_log_rs.Log.Segmented.{Log}
use raft_distributed_log_rs.Prelude.{
  Bool-cases, List, Option, String, [], arith, inl, inr, ltb, none, refl, saturating_add, some, suc,
  u64_mod, zero, ℕ, ◌+◌, ◌-◌, ◌<◌, ◌∙◌, ◌∷◌, ◌≡◌, ◌≤◌, ◌⊎◌,
}
use raft_distributed_log_rs.Raft.Core.{handle}
use raft_distributed_log_rs.Raft.Core.Base.{Outcome}
use raft_distributed_log_rs.Raft.Runtime.Applying.{apply_entries-Same}
use raft_distributed_log_rs.Raft.Runtime.Driving.{
  after_handle, drive, drive_rounds, fail_operation, finish, handle_message, next_round, or_panic,
  rounds,
}
use raft_distributed_log_rs.Raft.Runtime.Execution.{
  Ran, append_encoded, append_locally, apply_committed_entries, complete, encoded, execute,
  persist_hard_state, reject,
}
use raft_distributed_log_rs.Raft.Runtime.Start.{Runtime, Services, find, with_operation, without}
use raft_distributed_log_rs.Raft.Types.{
  Effect, Event, Operation, OperationId, RuntimeMessage, append_entries_op, append_local,
  apply_committed, complete_operation, err, ok, panic, reject_append_entries,
  send_request_vote_response, vote_op, write, write_message, write_op,
}

abbrev pub AllBelow : ℕ → List (OperationId × Operation) → Type 0
AllBelow n [] = Unit {0}
AllBelow n ((i, op) ∷ ops) = (i.id < n) × AllBelow n ops

-- The pending operations have ids that were given out.
abbrev pub Pending : {F : Type 0} → Runtime F → Type 0
Pending rt = AllBelow rt.next_operation_id rt.operations

AllBelow-without :
    (n : ℕ) (i : OperationId) (ops : List (OperationId × Operation))
    → AllBelow n ops
    → AllBelow n (without i ops)
AllBelow-without n i [] h = tt
AllBelow-without n i ((j, op) ∷ ops) h = ground (arith, AllBelow-without n i ops h.1)

AllBelow-suc :
    (n : ℕ) (ops : List (OperationId × Operation)) → AllBelow n ops → AllBelow (n + 1) ops
AllBelow-suc n [] h = tt
AllBelow-suc n ((j, op) ∷ ops) h = (omega arith, AllBelow-suc n ops h.1)

AllBelow-find :
    (n : ℕ) (i : OperationId) (ops : List (OperationId × Operation)) (op : Operation)
    → AllBelow n ops
    → find i ops ≡ some op
    → i.id < n
AllBelow-find n i [] op h e = cc
AllBelow-find n i ((j, op') ∷ ops) op h e = ground (arith, AllBelow-find n i ops op h.1)

find_above :
    (n : ℕ) (i : OperationId) (ops : List (OperationId × Operation))
    → AllBelow n ops
    → n ≤ i.id
    → find i ops ≡ none
find_above n i [] h le = refl
find_above n i ((j, op) ∷ ops) h le = ground (arith, find_above n i ops h.1)

-- A run of the runtime keeps the ids, and gives out none.
abbrev Keeps : {F : Type 0} → Runtime F → Runtime F → Type 0
Keeps rt rt' = Pending rt' × (rt'.next_operation_id ≡ rt.next_operation_id)

abbrev OutKeeps : {F : Type 0} → Runtime F → Option (Ran F (Unit {0})) → Type 0
OutKeeps rt none = Unit {0}
OutKeeps rt (some ran) = Keeps rt ran.0

OutKeeps-trans :
    {F : Type 0} (a b : Runtime F) (o : Option (Ran F (Unit {0})))
    → Keeps a b
    → OutKeeps b o
    → OutKeeps a o
OutKeeps-trans a b none h k = tt
OutKeeps-trans a b (some ran) h k = (k.0, k.1 ∙ h.1)

module _ {F : Type 0} (m : Services F) where
  encoded-Keeps :
      (rt : Runtime F) (i : OperationId) (term : ℕ) (d : String ⊎ List ℕ)
      → Pending rt
      → Keeps rt (encoded rt i term d).0
  encoded-Keeps rt i term (inl e) h = (h, refl)
  encoded-Keeps rt i term (inr bytes) h = appended (Segmented.append rt.log bytes)
    where
      appended : (o : Log × IoResult ℕ) → Keeps rt (append_encoded rt i term o).0
      appended (l, done index) = (h, refl)
      appended (l, failed e) = (h, refl)
      appended (l, panicked) = (h, refl)

  append_locally-Keeps :
      (rt : Runtime F) (i : OperationId) (term : ℕ) (found : Option Operation)
      → find i rt.operations ≡ found
      → Pending rt
      → Keeps rt (append_locally m rt i term found).0
  unfolding append_locally
  append_locally-Keeps rt i term none e h =
      (AllBelow-without rt.next_operation_id i rt.operations h, refl)
  append_locally-Keeps rt i term (some (write_op none reply)) e h =
      (AllBelow-without rt.next_operation_id i rt.operations h, refl)
  append_locally-Keeps rt i term (some (vote_op reply)) e h =
      (AllBelow-without rt.next_operation_id i rt.operations h, refl)
  append_locally-Keeps rt i term (some (append_entries_op payload reply)) e h =
      (AllBelow-without rt.next_operation_id i rt.operations h, refl)
  append_locally-Keeps rt i term (some (write_op (some command) reply)) e h =
      encoded-Keeps
        (record rt { operations = with_operation i (write_op none reply) rt.operations }) i term _
        (
          AllBelow-find rt.next_operation_id i rt.operations _ h e,
          AllBelow-without rt.next_operation_id i rt.operations h,
        )

  execute-Keeps : (rt : Runtime F) (f : Effect) → Pending rt → Keeps rt (execute m rt f).0
  unfolding execute apply_committed_entries reject complete persist_hard_state
  execute-Keeps rt (apply_committed i through) h =
      let first_unapplied = saturating_add rt.raft.last_applied 1 in
      let same = apply_entries-Same m (through + 1 - first_unapplied) first_unapplied rt in
      (rw (same.same_next, same.same_operations) h, same.same_next)
  execute-Keeps rt (append_local i term index) h =
      append_locally-Keeps rt i term (find i rt.operations) refl h
  execute-Keeps rt (reject_append_entries i peer a) h =
      ground (arith, AllBelow-without rt.next_operation_id i rt.operations h)
  execute-Keeps rt (complete_operation i) h =
      ground (arith, AllBelow-without rt.next_operation_id i rt.operations h)
  execute-Keeps rt (send_request_vote_response none p a) h = (h, refl)
  execute-Keeps rt (send_request_vote_response (some s) p a) h = (h, refl)
  execute-Keeps rt _ h = (h, refl)

  next_round-Keeps :
      (rt : Runtime F) (again : Runtime F → Event → Option (Ran F (Unit {0})))
      (ran : Ran F (Option Event))
      → Keeps rt ran.0
      → ((rt' : Runtime F) (e : Event) → Pending rt' → OutKeeps rt' (again rt' e))
      → OutKeeps rt (next_round again ran)
  next_round-Keeps rt again (rt', ok none) k each = k
  next_round-Keeps rt again (rt', err e) k each = k
  next_round-Keeps rt again (rt', panic) k each = k
  next_round-Keeps rt again (rt', ok (some e)) k each =
      OutKeeps-trans rt rt' (again rt' e) k (each rt' e k.0)

  after_handle-Keeps :
      (rt : Runtime F) (again : Runtime F → Event → Option (Ran F (Unit {0})))
      (o : Outcome (Option Effect))
      → Pending rt
      → ((rt' : Runtime F) (e : Event) → Pending rt' → OutKeeps rt' (again rt' e))
      → OutKeeps rt (after_handle m again rt o)
  after_handle-Keeps rt again (r, ok none) h each = (h, refl)
  after_handle-Keeps rt again (r, err e) h each = (h, refl)
  after_handle-Keeps rt again (r, panic) h each = (h, refl)
  after_handle-Keeps rt again (r, ok (some f)) h each =
      next_round-Keeps rt again (execute m (record rt { raft = r }) f)
        (execute-Keeps (record rt { raft = r }) f h) each

  drive_rounds-Keeps :
      (fuel : ℕ) (rt : Runtime F) (e : Event) → Pending rt → OutKeeps rt (drive_rounds m fuel rt e)
  unfolding drive_rounds
  drive_rounds-Keeps zero rt e h = tt
  drive_rounds-Keeps (suc fuel) rt e h =
      after_handle-Keeps rt (λ rt' e'. drive_rounds m fuel rt' e') (handle rt.raft e) h
        (λ rt' e'. drive_rounds-Keeps fuel rt' e')

  or_panic-Keeps :
      (rt : Runtime F) (o : Option (Ran F (Unit {0})))
      → Pending rt
      → OutKeeps rt o
      → Keeps rt (or_panic rt o).0
  or_panic-Keeps rt none h k = (h, refl)
  or_panic-Keeps rt (some ran) h k = k

  drive-Keeps : (rt : Runtime F) (e : Event) → Pending rt → Keeps rt (drive m rt e).0
  unfolding drive
  drive-Keeps rt e h =
      or_panic-Keeps rt (drive_rounds m rounds rt e) h (drive_rounds-Keeps rounds rt e h)

  finish-Keeps :
      (i : OperationId) (rt : Runtime F) (ran : Ran F (Unit {0}))
      → Keeps rt ran.0
      → Keeps rt (finish m i ran).0
  unfolding fail_operation
  finish-Keeps i rt (rt', ok _) k = k
  finish-Keeps i rt (rt', panic) k = k
  finish-Keeps i rt (rt', err e) k =
      ground (arith, AllBelow-without rt'.next_operation_id i rt'.operations k.0)

  message-Pending :
      (rt : Runtime F) (message : RuntimeMessage)
      → Pending rt
      → Pending (handle_message m rt message).0
        × (find (record { id = rt.next_operation_id }) rt.operations ≡ none)
  unfolding handle_message
  message-Pending rt (write_message payload reply) h =
      let i : OperationId = record { id = rt.next_operation_id } in
      let rt' : Runtime F = record rt {
        next_operation_id = rt.next_operation_id + 1;
        operations = with_operation i (write_op (some payload) reply) rt.operations;
      } in
      let added : Pending rt' = (
        omega arith,
        AllBelow-without (rt.next_operation_id + 1) i rt.operations
            (AllBelow-suc rt.next_operation_id rt.operations h),
      ) in
      let all = finish-Keeps i rt' (drive m rt' (write i)) (drive-Keeps rt' (write i) added) in
      (
        elim (Bool-cases (ltb (rt.next_operation_id + 1) u64_mod)) [
          | inl room ↦ rw room all.0
          | inr full ↦ rw full h
        ],
        find_above rt.next_operation_id i rt.operations h (omega arith),
      )

-- A message that is handled, whatever comes of it, leaves only operations pending whose ids were
-- given out; so the id of the next operation is never pending, and the insertion of that operation
-- replaces none.
pub handle_message-Pending :
    (F : Type 0) (m : Services F) (rt : Runtime F) (message : RuntimeMessage)
    → Pending rt
    → Pending (handle_message m rt message).0
      × (find (record { id = rt.next_operation_id }) rt.operations ≡ none)
handle_message-Pending F m = message-Pending m
