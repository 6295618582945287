-- ===== src/Raft/Runtime/Writing.antt =====
-- src/raft/runtime.rs: a write at the leader of a cluster of one node.
use raft_distributed_log_rs.Log.Segmented
use raft_distributed_log_rs.Log.Io.{done}
use raft_distributed_log_rs.Log.Segmented.Appending.{Space, append-Represents}
use raft_distributed_log_rs.Log.Segmented.Contents.{Represents, get_elem?-last}
use raft_distributed_log_rs.Log.Segmented.Reading.{Contains, Represents-Contains, read-Contains}
use raft_distributed_log_rs.Prelude.{
  List, [], arith, inr, length, ltb, none, refl, some, true, u64_mod, ℕ, ◌++◌, ◌+◌, ◌<◌, ◌∙◌, ◌∷◌,
  ◌≡◌,
}
use raft_distributed_log_rs.Raft.Core.{handle}
use raft_distributed_log_rs.Raft.Core.Replication.{progress_to, targets}
use raft_distributed_log_rs.Raft.Peers.{contains_key, modify}
use raft_distributed_log_rs.Raft.Runtime.Driving.{drive, drive_rounds, handle_message}
use raft_distributed_log_rs.Raft.Runtime.Execution.{execute}
use raft_distributed_log_rs.Raft.Runtime.Rounds.{
  apply_one, last_round, round, without-with_operation,
}
use raft_distributed_log_rs.Raft.Runtime.Start.{
  Runtime, Services, with_operation, without, write_reply,
}
use raft_distributed_log_rs.Raft.Types.{
  OperationId, Progress, Raft, append_local, apply_committed, complete_operation, entries_applied,
  leader, local_entries_appended, ok, write, write_message, write_op,
}

-- A leader that is the only node of its cluster, and has applied all records of its log.
pub record LeadsAlone {F : Type 0} (rt : Runtime F) (b : ℕ) (all : List (List ℕ)) : Type 0 where
  pub progress : Progress
  pub is_leading : rt.raft.role ≡ leader
  pub only_voter : rt.raft.voters ≡ (rt.raft.id, progress) ∷ []
  pub no_learners : rt.raft.learners ≡ []
  pub logged : Represents rt.log b all
  pub applied_all : rt.raft.last_applied + 1 ≡ b + length all
  pub ids_left : rt.next_operation_id + 1 < u64_mod

-- The core after the entry at `n` is committed and applied.
abbrev pub advanced : Raft → ℕ → Raft
advanced r n = record r {
  voters = (r.id, progress_to n) ∷ [];
  last_log_index = n;
  last_log_term = r.current_term;
  commit_index = n;
  last_applied = n;
}

committed :
    (r : Raft) (p : Progress) (i : OperationId) (n : ℕ)
    → r.role ≡ leader
    → r.voters ≡ (r.id, p) ∷ []
    → r.learners ≡ []
    → handle r
        (local_entries_appended (record { operation_id = i; index = n; term = r.current_term }))
      ≡ (record (advanced r n) { last_applied = r.last_applied }, ok (some (apply_committed i n)))
unfolding handle contains_key modify targets
committed r p i n leads voters learners = ground (arith, leads, voters, learners)

-- The runtime after the write of `payload`, encoded as `bytes`, at offset `n`.
abbrev pub after_write : {F : Type 0} → Services F → Runtime F → List ℕ → ℕ → List ℕ → ℕ → Runtime F
after_write m rt payload reply bytes n = record rt {
  raft = advanced rt.raft n;
  log = (Segmented.read (Segmented.append rt.log bytes).0 n).0;
  fsm = (m.apply rt.fsm payload).0;
  next_operation_id = rt.next_operation_id + 1;
  operations = without (record { id = rt.next_operation_id }) rt.operations;
  replies = write_reply reply none ∷ rt.replies;
}

module _ {F : Type 0} (m : Services F) (rt : Runtime F) (payload : List ℕ) (reply : ℕ) (b : ℕ)
    (all : List (List ℕ)) (bytes : List ℕ) (alone : LeadsAlone rt b all)
    (space : Space rt.log b all bytes)
    (encodes : m.encode (record { term = rt.raft.current_term; command = payload }) ≡ inr bytes)
    (decodes : m.decode bytes ≡ inr (record { term = rt.raft.current_term; command = payload }))
    (applies : (m.apply rt.fsm payload).1 ≡ none) (open_reply : m.is_open reply ≡ true) where
  i : OperationId
  i = record { id = rt.next_operation_id }

  n : ℕ
  n = b + length all

  registered : Runtime F
  registered = record rt {
    next_operation_id = rt.next_operation_id + 1;
    operations = with_operation i (write_op (some payload) reply) rt.operations;
  }

  in_log : Runtime F
  in_log = record registered {
    operations = with_operation i (write_op none reply) registered.operations;
    log = (Segmented.append rt.log bytes).0;
  }

  appended_now :
      ((Segmented.append rt.log bytes).1 ≡ done n)
      × Represents (Segmented.append rt.log bytes).0 b (all ++ bytes ∷ [])
  unfolding n
  appended_now = append-Represents rt.log b all bytes alone.logged space

  appends : execute m registered (append_local i rt.raft.current_term rt.raft.last_log_index) ≡ (
    in_log,
    ok (
        some (
          local_entries_appended
            (record { operation_id = i; index = n; term = rt.raft.current_term }))),
  )
  unfolding execute in_log registered i
  appends = ground (arith, encodes, appended_now.0)

  applied_rt : Runtime F
  applied_rt = record in_log {
    raft = record (advanced rt.raft n) { last_applied = rt.raft.last_applied };
    log = (Segmented.read (Segmented.append rt.log bytes).0 n).0;
    fsm = (m.apply rt.fsm payload).0;
  }

  applies_entry :
      execute m
        (record in_log {
          raft = record (advanced rt.raft n) { last_applied = rt.raft.last_applied };
        })
        (apply_committed i n)
      ≡ (applied_rt, ok (some (entries_applied (record { operation_id = i; through = n }))))
  unfolding execute applied_rt in_log registered n
  applies_entry =
      apply_one m
        (record in_log {
          raft = record (advanced rt.raft n) { last_applied = rt.raft.last_applied };
        })
        i b all bytes (record { term = rt.raft.current_term; command = payload })
        (Represents-Contains _ b (all ++ bytes ∷ []) appended_now.1) decodes applies
        alone.applied_all (omega (arith, space.offset_space))

  completes :
      execute m (record applied_rt { raft = advanced rt.raft n }) (complete_operation i)
      ≡ (after_write m rt payload reply bytes n, ok none)
  unfolding execute applied_rt in_log registered i
  completes = ground (
    arith,
    open_reply,
    without-with_operation i (write_op none reply) registered.operations,
    without-with_operation i (write_op (some payload) reply) rt.operations,
  )

  wants_append :
      handle rt.raft (write i)
      ≡ (rt.raft, ok (some (append_local i rt.raft.current_term rt.raft.last_log_index)))
  unfolding handle
  wants_append = ground (arith, alone.is_leading)

  applied_raft :
      handle
        (record (advanced rt.raft n) { last_applied = rt.raft.last_applied })
        (entries_applied (record { operation_id = i; through = n }))
      ≡ (advanced rt.raft n, ok (some (complete_operation i)))
  unfolding handle
  applied_raft = ground (arith, alone.is_leading)

  second_rounds :
      drive_rounds m 2 in_log (
        local_entries_appended
          (record { operation_id = i; index = n; term = rt.raft.current_term }))
      ≡ some (after_write m rt payload reply bytes n, ok tt)
  unfolding in_log registered applied_rt
  second_rounds =
      round m 1 in_log (local_entries_appended _) _ (apply_committed i n) applied_rt
        (entries_applied (record { operation_id = i; through = n }))
        (committed rt.raft alone.progress i n alone.is_leading alone.only_voter alone.no_learners)
        applies_entry
      ∙ last_round m 0 applied_rt (entries_applied (record { operation_id = i; through = n }))
          (advanced rt.raft n) (complete_operation i) _ applied_raft completes

  driven : drive m registered (write i) ≡ (after_write m rt payload reply bytes n, ok tt)
  unfolding drive registered
  driven =
      rw
        (round m 2 registered (write i) rt.raft
            (append_local i rt.raft.current_term rt.raft.last_log_index) in_log _ wants_append
            appends
          ∙ second_rounds)
        refl

  message_handled :
      handle_message m rt (write_message payload reply)
      ≡ (after_write m rt payload reply bytes n, ok tt)
  unfolding handle_message registered i
  message_handled =
      let room : ltb (rt.next_operation_id + 1) u64_mod ≡ true = ground (arith, alone.ids_left) in
      rw (room, driven) refl

  still_there : Contains (after_write m rt payload reply bytes n).log b (all ++ bytes ∷ [])
  unfolding n
  still_there =
      (read-Contains _ b (all ++ bytes ∷ []) (length all) bytes
        (Represents-Contains _ b (all ++ bytes ∷ []) appended_now.1) (get_elem?-last all bytes)).1

  acknowledged :
      (handle_message m rt (write_message payload reply)
        ≡ (after_write m rt payload reply bytes (b + length all), ok tt))
      × Contains (after_write m rt payload reply bytes (b + length all)).log b (all ++ bytes ∷ [])
  unfolding n
  acknowledged = (message_handled, still_there)

-- A write at a leader that is the only node of its cluster, and has applied all of its log: the
-- entry is appended at the next offset, committed there and applied to the state machine once, the
-- answer is sent, the operation is forgotten, and the log contains the entry behind the others. The
-- codec decodes what it encoded, the state machine does not fail, the receiver of the answer is
-- there, and there is space for the entry.
pub write_at_lone_leader :
    (F : Type 0) (m : Services F) (rt : Runtime F) (payload : List ℕ) (reply : ℕ) (b : ℕ)
    (all : List (List ℕ)) (bytes : List ℕ)
    → LeadsAlone rt b all
    → Space rt.log b all bytes
    → m.encode (record { term = rt.raft.current_term; command = payload }) ≡ inr bytes
    → m.decode bytes ≡ inr (record { term = rt.raft.current_term; command = payload })
    → (m.apply rt.fsm payload).1 ≡ none
    → m.is_open reply ≡ true
    → (handle_message m rt (write_message payload reply)
        ≡ (after_write m rt payload reply bytes (b + length all), ok tt))
      × Contains (after_write m rt payload reply bytes (b + length all)).log b (all ++ bytes ∷ [])
write_at_lone_leader F m = acknowledged m
