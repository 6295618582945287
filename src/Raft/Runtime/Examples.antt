-- ===== src/Raft/Runtime/Examples.antt =====
-- src/raft/runtime.rs: a node that is the only one of its cluster, whose state machine keeps the
-- commands that it is given.
use raft_distributed_log_rs.Log.Segmented
use raft_distributed_log_rs.Log.Store
use raft_distributed_log_rs.Log.Segment
use raft_distributed_log_rs.Log.Index
use raft_distributed_log_rs.Log.Examples.{first_record, log_0, log_0-Represents}
use raft_distributed_log_rs.Log.Index.{Index}
use raft_distributed_log_rs.Log.Io.{copy_into, read_exact_at, set_len, write_at}
use raft_distributed_log_rs.Log.Segment.{Segment}
use raft_distributed_log_rs.Log.Segmented.Appending.{Space}
use raft_distributed_log_rs.Log.Segmented.Files.{bases}
use raft_distributed_log_rs.Log.Store.{Store}
use raft_distributed_log_rs.Prelude.{
  List, Option, String, [], ap, arith, false, from_be, inl, inr, length, none, refl, replicate,
  some, to_be, true, u64_mod, ℕ, ◌++◌, ◌+◌, ◌<◌, ◌∷◌, ◌≡◌, ◌⊎◌,
}
use raft_distributed_log_rs.Raft.Core.{handle}
use raft_distributed_log_rs.Raft.Core.Base.{hard_state}
use raft_distributed_log_rs.Raft.Core.Replication.{targets}
use raft_distributed_log_rs.Raft.Elections.{grants_vote}
use raft_distributed_log_rs.Raft.Examples.{node_1, node_2, node_in, operation_1, progress_at}
use raft_distributed_log_rs.Raft.Peers.{contains_key, member, modify}
use raft_distributed_log_rs.Raft.Runtime.Answers.{handle_message-Answered}
use raft_distributed_log_rs.Raft.Runtime.Answers.Effects.{Answered, Owed}
use raft_distributed_log_rs.Raft.Runtime.Driving.{drive, drive_rounds, handle_message}
use raft_distributed_log_rs.Raft.Runtime.Execution.{
  append_locally, apply_committed_entries, apply_entries, complete, execute,
}
use raft_distributed_log_rs.Raft.Runtime.Pending.{Pending, handle_message-Pending}
use raft_distributed_log_rs.Raft.Runtime.Persistence.{execute-storage}
use raft_distributed_log_rs.Raft.Runtime.Restart.{restarted_grants_stale, start-save_state}
use raft_distributed_log_rs.Raft.Runtime.Serving.{HasRoom, IsReliable, run, run-apply_all}
use raft_distributed_log_rs.Raft.Runtime.Start.{
  Runtime, Services, collect, find, start, write_reply,
}
use raft_distributed_log_rs.Raft.Runtime.Termination.{drive_terminates}
use raft_distributed_log_rs.Raft.Runtime.Writing.{LeadsAlone, after_write, write_at_lone_leader}
use raft_distributed_log_rs.Raft.Storage.{is_utf8, load_state, save_state}
use raft_distributed_log_rs.Raft.Types.{
  LogEntry, NodeId-discrete, RuntimeMessage, State, VoteResponse, follower, leader, ok,
  request_vote, send_request_vote_response, write, write_message,
}

-- The codec keeps the command, for entries of term 1.
abbrev services : Services (List (List ℕ))
services = record {
  apply = λ fsm command. (fsm ++ command ∷ [], none);
  encode = λ entry. inr entry.command;
  decode = λ bytes. inr (record { term = 1; command = bytes });
  is_open = λ reply. true;
}

-- Term 1 and no vote.
abbrev pub saved_term : List ℕ
saved_term = replicate 7 0 ++ 1 ∷ replicate 8 0

abbrev pub lone : Runtime (List (List ℕ))
lone = record {
  raft = record (node_in node_1 leader) {
    voters = (node_1, progress_at 0) ∷ [];
    last_applied = 0;
    commit_index = 0;
    last_log_index = 0;
    last_log_term = 0;
  };
  log = log_0;
  storage = saved_term;
  fsm = [];
  next_operation_id = 1;
  operations = [];
  replies = [];
}

pub lone-LeadsAlone : LeadsAlone lone 1 []
lone-LeadsAlone = record {
  progress = progress_at 0;
  is_leading = refl;
  only_voter = refl;
  no_learners = refl;
  logged = log_0-Represents;
  applied_all = omega arith;
  ids_left = omega arith;
}

abbrev pub following : Runtime (List (List ℕ))
following = record lone { raft = record lone.raft { role = follower; leader_id = some node_2 } }

drive_terminates_example :
    drive_rounds services (1 + 3) lone (write operation_1)
    ≡ some (drive services lone (write operation_1))
drive_terminates_example = drive_terminates (List (List ℕ)) services 1 lone (write operation_1)

abbrev refused : VoteResponse
refused = record { term = 7; vote_granted = false }

abbrev saved : State
saved = record { current_term = 7; voted_for = some node_2 }

start-save_state_example :
    (rt : Runtime (List (List ℕ))) × (start node_1
        (node_1 ∷ node_2 ∷ [])
        log_0
        (save_state [] saved)
        []
      ≡ ok rt)
    × (hard_state rt.raft ≡ saved)
start-save_state_example =
    start-save_state (List (List ℕ)) node_1 (node_1 ∷ node_2 ∷ []) log_0 1 [] [] saved (omega arith)
      (omega arith, omega arith, unfold is_utf8 in refl) (unfold member NodeId-discrete in refl)
      (unfold Segmented.next_offset in refl)

-- The node as it starts from an empty file.
abbrev restarted : Runtime (List (List ℕ))
restarted = record lone {
  storage = [];
  raft = record lone.raft {
    role = follower;
    current_term = 0;
    voters = (node_1, record { next_index = 1; match_index = 0 }) ∷ [];
  };
}

restarted_grants_stale_example :
    grants_vote
      (handle restarted.raft (
        request_vote
          (record { term = 2; candidate_id = node_2; last_log_index = 0; last_log_term = 0 }))).1
    ≡ true
restarted_grants_stale_example =
    restarted_grants_stale (List (List ℕ)) node_1 (node_1 ∷ []) log_0 [] [] restarted
      (record { term = 2; candidate_id = node_2; last_log_index = 0; last_log_term = 0 })
      (unfold start load_state Segmented.next_offset collect contains_key NodeId-discrete in refl)
      (omega arith)

-- A codec that keeps the term in front of the command.
abbrev pub decode_entry : List ℕ → String ⊎ LogEntry
decode_entry [] = inl "no term"
decode_entry (t ∷ bytes) = inr (record { term = t; command = bytes })

abbrev pub keeping : Services (List (List ℕ))
keeping = record {
  apply = λ fsm command. (fsm ++ command ∷ [], none);
  encode = λ entry. inr (entry.term ∷ entry.command);
  decode = decode_entry;
  is_open = λ reply. true;
}

abbrev pub keeping-IsReliable : IsReliable keeping
keeping-IsReliable = record {
  bytes = λ entry. entry.term ∷ entry.command;
  encodes = λ entry. refl;
  decodes = λ entry. refl;
  applies = λ fsm command. refl;
  is_waiting = λ reply. refl;
}

abbrev size_of : Option Segment → ℕ
size_of none = 0
size_of (some s) = s.store.size

pub one_entry-Space : (bytes : List ℕ) → length bytes < 100 → Space log_0 1 [] bytes
one_entry-Space bytes short = record {
  store_space =
      λ s e. unfold Store.new in omega (arith, ap (λ (o : Option Segment). size_of o) e, short);
  offset_space = omega arith;
  count_space = omega arith;
}

abbrev pub write_5 : RuntimeMessage
write_5 = write_message first_record 5

abbrev pub write_6 : RuntimeMessage
write_6 = write_message (9 ∷ []) 6

-- The log holds one entry when the second write comes.
second-Space :
    Space (handle_message keeping lone write_5).0.log 1 ((1 ∷ first_record) ∷ []) (1 ∷ 9 ∷ [])
unfolding handle_message drive drive_rounds handle execute append_locally apply_committed_entries
    apply_entries complete Segmented.append Segmented.read Segmented.read_segments Segment.append
    Segment.read Store.append Store.read Store.new Store.flush Store.buffer_write Index.write
    Index.read targets modify contains_key NodeId-discrete Segment.is_maxed Segment.new Index.new
    Index.recover_size Index.recover set_len copy_into write_at read_exact_at to_be from_be
    Segmented.new_segment Segmented.last?
second-Space = record {
  store_space = λ s e. omega (arith, ap (λ (o : Option Segment). size_of o) e);
  offset_space = omega arith;
  count_space = omega arith;
}

second_id : (handle_message keeping lone write_5).0.next_operation_id + 2 < u64_mod
unfolding handle_message drive drive_rounds handle execute append_locally apply_committed_entries
    apply_entries complete Segmented.append Segmented.read Segmented.read_segments Segment.append
    Segment.read Store.append Store.read Store.new Store.flush Store.buffer_write Index.write
    Index.read targets modify contains_key NodeId-discrete Segment.is_maxed Segment.new Index.new
    Index.recover_size Index.recover set_len copy_into write_at read_exact_at to_be from_be
    Segmented.new_segment Segmented.last?
second_id = omega arith

second_term : (handle_message keeping lone write_5).0.raft.current_term ≡ 1
unfolding handle_message drive drive_rounds handle execute append_locally apply_committed_entries
    apply_entries complete Segmented.append Segmented.read Segmented.read_segments Segment.append
    Segment.read Store.append Store.read Store.new Store.flush Store.buffer_write Index.write
    Index.read targets modify contains_key NodeId-discrete Segment.is_maxed Segment.new Index.new
    Index.recover_size Index.recover set_len copy_into write_at read_exact_at to_be from_be
    Segmented.new_segment Segmented.last?
second_term = refl

pub two_writes_fit : HasRoom keeping keeping-IsReliable lone 1 [] (write_5 ∷ write_6 ∷ [])
two_writes_fit = (
  one_entry-Space (1 ∷ first_record) (omega arith),
  omega arith,
  (rw second_term second-Space, second_id, tt),
)

run-apply_all_example :
    ((run keeping lone (write_5 ∷ write_6 ∷ [])).1 ≡ ok tt)
    × ((run keeping lone (write_5 ∷ write_6 ∷ [])).0.fsm ≡ first_record ∷ (9 ∷ []) ∷ [])
    × ((run keeping lone (write_5 ∷ write_6 ∷ [])).0.replies
        ≡ write_reply 6 none ∷ write_reply 5 none ∷ [])
    × LeadsAlone
        (run keeping lone (write_5 ∷ write_6 ∷ [])).0
        1
        ((1 ∷ first_record) ∷ (1 ∷ 9 ∷ []) ∷ [])
run-apply_all_example =
    run-apply_all (List (List ℕ)) keeping keeping-IsReliable (write_5 ∷ write_6 ∷ []) lone 1 []
      lone-LeadsAlone two_writes_fit

execute-storage_example :
    (execute keeping lone (send_request_vote_response (some saved) node_2 refused)).0.storage
    ≡ save_state saved_term saved
execute-storage_example =
    execute-storage (List (List ℕ)) keeping lone
      (send_request_vote_response (some saved) node_2 refused)

handle_message-Pending_example :
    Pending (handle_message keeping lone (write_message first_record 5)).0
    × (find (record { id = 1 }) lone.operations ≡ none)
handle_message-Pending_example =
    handle_message-Pending (List (List ℕ)) keeping lone (write_message first_record 5) tt

pub served_bases : bases (run keeping lone (write_5 ∷ write_6 ∷ [])).0.log.segments ≡ 1 ∷ 3 ∷ []
unfolding run handle_message drive drive_rounds handle execute append_locally
    apply_committed_entries apply_entries complete Segmented.append Segmented.read
    Segmented.read_segments Segment.append Segment.read Store.append Store.read Store.new
    Store.flush Store.buffer_write Index.write Index.read targets modify contains_key
    NodeId-discrete Segment.is_maxed Segment.new Index.new Index.recover_size Index.recover set_len
    copy_into write_at read_exact_at to_be from_be Segmented.new_segment Segmented.last?
served_bases = refl

handle_message-Answered_example :
    Owed (record { id = 1 }) 5 [] (after_write keeping lone first_record 5 (1 ∷ first_record) 1)
    ⊎ Answered
        (record { id = 1 })
        5
        []
        (after_write keeping lone first_record 5 (1 ∷ first_record) 1)
handle_message-Answered_example =
    handle_message-Answered (List (List ℕ)) keeping lone first_record 5
      (after_write keeping lone first_record 5 (1 ∷ first_record) 1) refl
      (write_at_lone_leader (List (List ℕ)) keeping lone first_record 5 1 [] (1 ∷ first_record)
        lone-LeadsAlone (one_entry-Space (1 ∷ first_record) (omega arith)) refl refl refl refl).0
