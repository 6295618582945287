-- ===== src/Raft/Runtime/Resuming.antt =====
-- src/raft/runtime.rs with src/log.rs: a node that is started again after a crash.
use raft_distributed_log_rs.Log.Io.{done}
use raft_distributed_log_rs.Log.Segmented.{Log}
use raft_distributed_log_rs.Log.Segmented.Contents.{Represents}
use raft_distributed_log_rs.Log.Segmented.Crashing.{crash_files}
use raft_distributed_log_rs.Log.Segmented.Directory.{DirEntry, contains, open_dir}
use raft_distributed_log_rs.Log.Segmented.Directory.Names.{named}
use raft_distributed_log_rs.Log.Segmented.Files.{bases}
use raft_distributed_log_rs.Log.Segmented.Refinement.{next_offset-Represents}
use raft_distributed_log_rs.Prelude.{List, refl, some, true, ℕ, ◌++◌, ◌≡◌}
use raft_distributed_log_rs.Raft.Cluster.{saved}
use raft_distributed_log_rs.Raft.Core.Base.{hard_state}
use raft_distributed_log_rs.Raft.Peers.{member}
use raft_distributed_log_rs.Raft.Runtime.Durability.{IsDurable, run-crash_files, run_keeps}
use raft_distributed_log_rs.Raft.Runtime.Restart.{start-load_state}
use raft_distributed_log_rs.Raft.Runtime.Serving.{HasRoom, IsReliable, answer_all, records_of, run}
use raft_distributed_log_rs.Raft.Runtime.Start.{Runtime, Services, start}
use raft_distributed_log_rs.Raft.Runtime.Writing.{LeadsAlone}
use raft_distributed_log_rs.Raft.Storage.{load_state}
use raft_distributed_log_rs.Raft.Types.{NodeId, RuntimeMessage, ok}

-- The file of the hard state has the term and the vote of the node.
abbrev pub IsSaved : {F : Type 0} → Runtime F → Type 0
IsSaved rt = load_state rt.storage ≡ ok (hard_state rt.raft)

-- The leader of a cluster of one node serves writes, crashes, and is started again in the same
-- directory: every write was answered, and the new runtime has the term and the vote of the old one,
-- and a log that represents the old records and the entries of the writes. The hard state was
-- saved, the log writes synchronously and keeps nothing back, the names in the directory are those of
-- its segments, and the premises are those under which the writes are served.
pub run-start :
    (F : Type 0) (m : Services F) (good : IsReliable m) (ws : List RuntimeMessage) (rt : Runtime F)
    (b : ℕ) (all : List (List ℕ)) (entries : List DirEntry) (voters : List NodeId) (fsm : F)
    → LeadsAlone rt b all
    → HasRoom m good rt b all ws
    → IsDurable rt.log
    → IsSaved rt
    → member rt.raft.id voters ≡ true
    → ((x : ℕ) → named x entries ≡ contains x (bases (run m rt ws).0.log.segments))
    → ((run m rt ws).0.replies ≡ answer_all rt.replies ws)
      × (l : Log) × (open_dir rt.log.cfg (some entries) (crash_files (run m rt ws).0.log) ≡ done l)
      × (rt' : Runtime F) × (start rt.raft.id voters l (run m rt ws).0.storage fsm ≡ ok rt')
      × (hard_state rt'.raft ≡ hard_state rt.raft)
      × Represents rt'.log b (all ++ records_of m good rt.raft.current_term ws)
run-start F m good ws rt b all entries voters fsm alone room d saved voter names =
    let (answers, l, opens, represents) =
      run-crash_files F m good ws rt b all entries alone room d names in
    let stays =
      run_keeps m good (λ x. x.storage ≡ rt.storage) (λ x payload reply bytes n r. r) ws rt b all
        alone room refl in
    let loads : load_state (run m rt ws).0.storage ≡ ok (hard_state rt.raft) = rw stays saved in
    let (rt', starts, same_log, hard) =
      start-load_state F rt.raft.id voters l _ (run m rt ws).0.storage fsm (hard_state rt.raft)
        loads (next_offset-Represents l b _ represents) voter in
    (answers, l, opens, rt', starts, hard, rw same_log represents)
