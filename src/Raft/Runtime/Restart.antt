-- ===== src/Raft/Runtime/Restart.antt =====
-- src/raft/runtime.rs: what a node knows after a restart.
use raft_distributed_log_rs.Log.Segmented
use raft_distributed_log_rs.Log.Segmented.{Log}
use raft_distributed_log_rs.Prelude.{
  List, [], arith, refl, some, true, u64_mod, ℕ, ◌<◌, ◌∙◌, ◌∷◌, ◌≡◌,
}
use raft_distributed_log_rs.Raft.Core.{handle}
use raft_distributed_log_rs.Raft.Core.Base.{hard_state}
use raft_distributed_log_rs.Raft.Elections.{grants_vote}
use raft_distributed_log_rs.Raft.Peers.{contains_key, member}
use raft_distributed_log_rs.Raft.Runtime.Start.{Runtime, collect, initial_raft, start}
use raft_distributed_log_rs.Raft.Storage.{load_state, save_state}
use raft_distributed_log_rs.Raft.Storage.RoundTrip.{IsSavable, load_state-save_state}
use raft_distributed_log_rs.Raft.Types.{NodeId, State, VoteRequest, ok, request_vote}

pub contains_key-collect :
    (j k : NodeId) (next_index : ℕ) (voters : List NodeId)
    → contains_key j (collect k next_index voters) ≡ member j voters
unfolding contains_key collect member
contains_key-collect j k n [] = refl
contains_key-collect j k n (v ∷ voters) =
    ground (arith, contains_key-collect j k n voters, contains_key-collect v k n voters)

-- A node starts with the log that it is given, and the term and the vote that its file has.
pub start-load_state :
    (F : Type 0) (id : NodeId) (voters : List NodeId) (l : Log) (n : ℕ) (file : List ℕ) (fsm : F)
    (s : State)
    → load_state file ≡ ok s
    → Segmented.next_offset l ≡ some n
    → member id voters ≡ true
    → (rt : Runtime F) × (start id voters l file fsm ≡ ok rt)
      × (rt.log ≡ l)
      × (hard_state rt.raft ≡ s)
unfolding start
start-load_state F id voters l n file fsm s loads offset voter =
    let peers = collect id n voters in
    (
      record {
        raft = initial_raft id peers s;
        log = l;
        storage = file;
        fsm = fsm;
        next_operation_id = 1;
        operations = [];
        replies = [];
      },
      rw (loads, offset, contains_key-collect id id n voters ∙ voter) refl,
      refl,
      refl,
    )

-- A node restarts with the term and the vote that it saved last, if it is among the voters and its
-- log has an active segment. The term and the length of the vote fit in 8 bytes, and the id of the
-- voted node is not empty and is valid UTF-8.
pub start-save_state :
    (F : Type 0) (id : NodeId) (voters : List NodeId) (log : Log) (n : ℕ) (file : List ℕ) (fsm : F)
    (s : State)
    → s.current_term < u64_mod
    → IsSavable s.voted_for
    → member id voters ≡ true
    → Segmented.next_offset log ≡ some n
    → (rt : Runtime F) × (start id voters log (save_state file s) fsm ≡ ok rt)
      × (hard_state rt.raft ≡ s)
start-save_state F id voters log n file fsm s small savable voter offset =
    let (rt, starts, same, hard) =
      start-load_state F id voters log n (save_state file s) fsm s
        (load_state-save_state file s small savable) offset voter in
    (rt, starts, hard)

-- A node that has restarted grants its vote to any candidate of a later term, however much of the
-- log the candidate lacks: the end of the node's own log is not read from the log.
pub restarted_grants_stale :
    (F : Type 0) (id : NodeId) (voters : List NodeId) (log : Log) (storage : List ℕ) (fsm : F)
    (rt : Runtime F) (q : VoteRequest)
    → start id voters log storage fsm ≡ ok rt
    → rt.raft.current_term < q.term
    → grants_vote (handle rt.raft (request_vote q)).1 ≡ true
unfolding handle start
restarted_grants_stale F id voters log storage fsm rt q h newer = ground arith
