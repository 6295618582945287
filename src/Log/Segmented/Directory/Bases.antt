-- ===== src/Log/Segmented/Directory/Bases.antt =====
-- src/log.rs: the segments that `new` opens in a directory, whatever the bytes of their files are.
use raft_distributed_log_rs.Log.Index
use raft_distributed_log_rs.Log.Segment
use raft_distributed_log_rs.Log.Segmented
use raft_distributed_log_rs.Log.Store
use raft_distributed_log_rs.Log.Index.{Index}
use raft_distributed_log_rs.Log.Segment.{Segment}
use raft_distributed_log_rs.Log.Segmented.{Log}
use raft_distributed_log_rs.Log.Segmented.Directory.{DirEntry, contains}
use raft_distributed_log_rs.Log.Segmented.Directory.Names.{named}
use raft_distributed_log_rs.Log.Segmented.Files.{bases}
use raft_distributed_log_rs.Log.Store.{Store}
use raft_distributed_log_rs.Prelude.{List, [], false, ℕ, ◌∷◌, ◌≡◌, ◌⊎◌}

-- The log has segments at exactly the offsets in the names of files, or no file is so named and it has
-- one segment, at the initial offset.
abbrev pub OpensNamed : Segmented.Config → List DirEntry → Log → Type 0
OpensNamed cfg es l =
    ((x : ℕ) → contains x (bases l.segments) ≡ named x es)
    ⊎ (((x : ℕ) → named x es ≡ false) × (bases l.segments ≡ cfg.inital_offset ∷ []))
