-- ===== src/Raft/Runtime/Serving.antt =====
-- src/raft/runtime.rs: `run`, which handles one message after the other, at the leader of a cluster
-- of one node. The shutdown is left out: the messages are those received before it.
use raft_distributed_log_rs.Log.Segmented.Appending.{Space, append-Represents}
use raft_distributed_log_rs.Log.Segmented.Lookup.{read-lookup}
use raft_distributed_log_rs.Prelude.{
  List, [], append-nil, append_assoc, arith, inr, length, length-append, none, refl, subst, true,
  u64_mod, ℕ, ◌++◌, ◌+◌, ◌<◌, ◌∷◌, ◌≡◌,
}
use raft_distributed_log_rs.Raft.Core.Replication.{progress_to}
use raft_distributed_log_rs.Raft.Runtime.Driving.{handle_message}
use raft_distributed_log_rs.Raft.Runtime.Execution.{Ran}
use raft_distributed_log_rs.Raft.Runtime.Start.{Reply, Runtime, Services, write_reply}
use raft_distributed_log_rs.Raft.Runtime.Writing.{LeadsAlone, after_write, write_at_lone_leader}
use raft_distributed_log_rs.Raft.Types.{LogEntry, RuntimeMessage, err, ok, panic, write_message}

-- A panic ends the task.
abbrev pub and_then :
    {F : Type 0} → (Runtime F → Ran F (Unit {0})) → Ran F (Unit {0}) → Ran F (Unit {0})
and_then next (rt, ok _) = next rt
and_then next (rt, err e) = next rt
and_then next (rt, panic) = (rt, panic)

unfoldable pub run : {F : Type 0} → Services F → Runtime F → List RuntimeMessage → Ran F (Unit {0})
run m rt [] = (rt, ok tt)
run m rt (message ∷ messages) = and_then (λ rt'. run m rt' messages) (handle_message m rt message)

abbrev pub command_of : RuntimeMessage → List ℕ
command_of (write_message payload reply) = payload

abbrev pub reply_of : RuntimeMessage → ℕ
reply_of (write_message payload reply) = reply

-- The state machine and the answers that a client expects: every command once, in order.
abbrev pub apply_all : {F : Type 0} → Services F → F → List RuntimeMessage → F
apply_all m fsm [] = fsm
apply_all m fsm (w ∷ ws) = apply_all m (m.apply fsm (command_of w)).0 ws

abbrev pub answer_all : List Reply → List RuntimeMessage → List Reply
answer_all replies [] = replies
answer_all replies (w ∷ ws) = answer_all (write_reply (reply_of w) none ∷ replies) ws

-- The codec decodes what it encodes, the state machine does not fail, and every client waits.
pub record IsReliable {F : Type 0} (m : Services F) : Type 0 where
  pub bytes : LogEntry → List ℕ
  pub encodes : (e : LogEntry) → m.encode e ≡ inr (bytes e)
  pub decodes : (e : LogEntry) → m.decode (bytes e) ≡ inr e
  pub applies : (fsm : F) (command : List ℕ) → (m.apply fsm command).1 ≡ none
  pub is_waiting : (reply : ℕ) → m.is_open reply ≡ true

module _ {F : Type 0} (m : Services F) (good : IsReliable m) where
  -- The entry of a write in this term.
  abbrev pub record_of : ℕ → RuntimeMessage → List ℕ
  record_of term w = good.bytes (record { term = term; command = command_of w })

  -- The records that the writes add, in order.
  abbrev pub records_of : ℕ → List RuntimeMessage → List (List ℕ)
  records_of term [] = []
  records_of term (w ∷ ws) = record_of term w ∷ records_of term ws

  -- Each write has space, and an id for the next operation, when its turn comes.
  abbrev pub HasRoom : Runtime F → ℕ → List (List ℕ) → List RuntimeMessage → Type 0
  HasRoom rt b all [] = Unit {0}
  HasRoom rt b all (w ∷ ws) =
      Space rt.log b all (record_of rt.raft.current_term w)
      × (rt.next_operation_id + 2 < u64_mod)
      × HasRoom (handle_message m rt w).0 b (all ++ record_of rt.raft.current_term w ∷ []) ws

  pub one_write :
      (rt : Runtime F) (b : ℕ) (all : List (List ℕ)) (w : RuntimeMessage)
      → LeadsAlone rt b all
      → Space rt.log b all (record_of rt.raft.current_term w)
      → rt.next_operation_id + 2 < u64_mod
      → (handle_message m rt w ≡ (
        after_write m rt
            (command_of w)
            (reply_of w)
            (record_of rt.raft.current_term w)
            (b + length all),
        ok tt,
      ))
        × LeadsAlone
            (after_write m rt
              (command_of w)
              (reply_of w)
              (record_of rt.raft.current_term w)
              (b + length all))
            b
            (all ++ record_of rt.raft.current_term w ∷ [])
  one_write rt b all (write_message payload reply) alone space ids =
      let entry : LogEntry = record { term = rt.raft.current_term; command = payload } in
      let appended = append-Represents rt.log b all (good.bytes entry) alone.logged space in
      (
        (write_at_lone_leader F m rt payload reply b all (good.bytes entry) alone space
            (good.encodes entry) (good.decodes entry) (good.applies rt.fsm payload)
            (good.is_waiting reply)).0,
        record {
          progress = progress_to (b + length all);
          is_leading = alone.is_leading;
          only_voter = refl;
          no_learners = alone.no_learners;
          logged = (read-lookup _ b (all ++ good.bytes entry ∷ []) (b + length all) appended.1).1;
          applied_all = omega (arith, length-append all (good.bytes entry ∷ []));
          ids_left = omega (arith, ids);
        },
      )

  served :
      (ws : List RuntimeMessage) (rt : Runtime F) (b : ℕ) (all : List (List ℕ))
      → LeadsAlone rt b all
      → HasRoom rt b all ws
      → ((run m rt ws).1 ≡ ok tt)
        × ((run m rt ws).0.fsm ≡ apply_all m rt.fsm ws)
        × ((run m rt ws).0.replies ≡ answer_all rt.replies ws)
        × LeadsAlone (run m rt ws).0 b (all ++ records_of rt.raft.current_term ws)
  unfolding run
  served [] rt b all alone room = (refl, refl, refl, rw (append-nil all) alone)
  served (w ∷ ws) rt b all alone room =
      let one = one_write rt b all w alone room.0 room.1 in
      let rest = served ws _ b _ one.1 (
        subst
          (λ (ran : Ran F (Unit {0})).
            HasRoom ran.0 b (all ++ record_of rt.raft.current_term w ∷ []) ws)
          one.0 room.2) in
      let longer =
        append_assoc all (record_of rt.raft.current_term w ∷ [])
          (records_of rt.raft.current_term ws) in
      let final = rest.3 in
      rw (one.0, rest.0, rest.1, rest.2) (refl, refl, refl, rw longer at final)

-- A leader that is the only node of its cluster, and has applied all of its log, serves writes one
-- after the other without a panic: the state machine gets every command once and in order, every
-- client gets a success, in order, the log represents the old records followed by the entries, and
-- the node is such a leader again. The codec and the state machine do not fail, the clients wait for
-- their answers, and each write has space and an id when its turn comes.
pub run-apply_all :
    (F : Type 0) (m : Services F) (good : IsReliable m) (ws : List RuntimeMessage) (rt : Runtime F)
    (b : ℕ) (all : List (List ℕ))
    → LeadsAlone rt b all
    → HasRoom m good rt b all ws
    → ((run m rt ws).1 ≡ ok tt)
      × ((run m rt ws).0.fsm ≡ apply_all m rt.fsm ws)
      × ((run m rt ws).0.replies ≡ answer_all rt.replies ws)
      × LeadsAlone (run m rt ws).0 b (all ++ records_of m good rt.raft.current_term ws)
run-apply_all F m good = served m good
