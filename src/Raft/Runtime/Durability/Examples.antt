-- ===== src/Raft/Runtime/Durability/Examples.antt =====
-- src/raft/runtime.rs with src/log.rs: a crash after two writes.
use raft_distributed_log_rs.Log.Store
use raft_distributed_log_rs.Log.Examples.{first_record}
use raft_distributed_log_rs.Log.Io.{done, read_exact_at}
use raft_distributed_log_rs.Log.Segmented.{Log}
use raft_distributed_log_rs.Log.Segmented.Contents.{Represents}
use raft_distributed_log_rs.Log.Segmented.Crashing.{crash_files}
use raft_distributed_log_rs.Log.Segmented.Directory.{
  DirEntry, contains, file_name, index_suffix, open_dir, store_suffix,
}
use raft_distributed_log_rs.Log.Segmented.Directory.Decimals.{offset_of-file_name}
use raft_distributed_log_rs.Log.Segmented.Directory.Names.{named}
use raft_distributed_log_rs.Log.Segmented.Files.{bases}
use raft_distributed_log_rs.Log.Store.{Store}
use raft_distributed_log_rs.Prelude.{List, [], arith, false, from_be, none, refl, some, ℕ, ◌∷◌, ◌≡◌}
use raft_distributed_log_rs.Raft.Core.Base.{hard_state}
use raft_distributed_log_rs.Raft.Examples.{node_1}
use raft_distributed_log_rs.Raft.Peers.{member}
use raft_distributed_log_rs.Raft.Runtime.Durability.{IsDurable}
use raft_distributed_log_rs.Raft.Runtime.Examples.{
  keeping, keeping-IsReliable, lone, lone-LeadsAlone, served_bases, two_writes_fit, write_5,
  write_6,
}
use raft_distributed_log_rs.Raft.Runtime.Resuming.{IsSaved, run-start}
use raft_distributed_log_rs.Raft.Runtime.Serving.{run}
use raft_distributed_log_rs.Raft.Runtime.Start.{Runtime, start, write_reply}
use raft_distributed_log_rs.Raft.Storage.{load_state}
use raft_distributed_log_rs.Raft.Types.{NodeId-discrete, ok}

-- The names of the files of two segments.
abbrev two_segments : List DirEntry
two_segments =
    record { name = file_name 1 store_suffix; is_dir = false }
    ∷ record { name = file_name 1 index_suffix; is_dir = false }
    ∷ record { name = file_name 3 store_suffix; is_dir = false }
    ∷ record { name = file_name 3 index_suffix; is_dir = false }
    ∷ []

names_match :
    (x : ℕ)
    → named x two_segments
      ≡ contains x (bases (run keeping lone (write_5 ∷ write_6 ∷ [])).0.log.segments)
unfolding contains
names_match x =
    let first = offset_of-file_name 1 (omega arith) in
    let second = offset_of-file_name 3 (omega arith) in
    rw served_bases (ground (arith, first.0, first.1, second.0, second.1))

lone-IsDurable : IsDurable lone.log
lone-IsDurable = record { synchronous = refl; flushed = unfold Store.new in ((refl, refl), tt) }

lone-IsSaved : IsSaved lone
unfolding load_state read_exact_at from_be
lone-IsSaved = refl

run-start_example :
    ((run keeping lone (write_5 ∷ write_6 ∷ [])).0.replies
      ≡ write_reply 6 none ∷ write_reply 5 none ∷ [])
    × (l : Log) × (open_dir lone.log.cfg
          (some two_segments)
          (crash_files (run keeping lone (write_5 ∷ write_6 ∷ [])).0.log)
        ≡ done l)
    × (rt : Runtime (List (List ℕ))) × (start node_1
          (node_1 ∷ [])
          l
          (run keeping lone (write_5 ∷ write_6 ∷ [])).0.storage
          []
        ≡ ok rt)
    × (hard_state rt.raft ≡ record { current_term = 1; voted_for = none })
    × Represents rt.log 1 ((1 ∷ first_record) ∷ (1 ∷ 9 ∷ []) ∷ [])
run-start_example =
    run-start (List (List ℕ)) keeping keeping-IsReliable (write_5 ∷ write_6 ∷ []) lone 1 []
      two_segments (node_1 ∷ []) [] lone-LeadsAlone two_writes_fit lone-IsDurable lone-IsSaved
      (unfold member NodeId-discrete in refl) names_match
