-- ===== src/Log/Segmented/Crashing.antt =====
-- src/log.rs: a log that is opened again after a crash of the process.
use raft_distributed_log_rs.Log.Segmented
use raft_distributed_log_rs.Log.Segment
use raft_distributed_log_rs.Log.Io.{done}
use raft_distributed_log_rs.Log.Segment.{Segment, SegmentFiles}
use raft_distributed_log_rs.Log.Segment.Reopen.{crash-Reopens}
use raft_distributed_log_rs.Log.Segmented.{Log}
use raft_distributed_log_rs.Log.Segmented.Contents.{Represents}
use raft_distributed_log_rs.Log.Segmented.Directory.{DirEntry, contains, open_dir}
use raft_distributed_log_rs.Log.Segmented.Directory.Names.{named}
use raft_distributed_log_rs.Log.Segmented.Files.{bases}
use raft_distributed_log_rs.Log.Segmented.Left.{left, left-new}
use raft_distributed_log_rs.Log.Segmented.Reopening.{names-bases}
use raft_distributed_log_rs.Log.Segmented.Synced.{AllSynced, IsSynced}
use raft_distributed_log_rs.Prelude.{List, refl, some, ℕ, ◌≡◌}

-- The files after a crash: what the buffers of the stores held is lost.
abbrev pub crash_files : Log → ℕ → SegmentFiles
crash_files l = left Segment.crash l.segments l.disk

pub crash-new :
    (l : Log) (b : ℕ) (all : List (List ℕ))
    → Represents l b all
    → AllSynced l.segments
    → (l' : Log) × (Segmented.new l.cfg (bases l.segments) (crash_files l) ≡ done l')
      × Represents l' b all
crash-new l b all h synced =
    left-new Segment.crash IsSynced
      (λ s rs holds configured p. crash-Reopens s rs holds configured p.0) l b all (crash_files l) h
      synced (λ off. refl)

-- A log that keeps nothing back, and is opened again from the files that a crash leaves, in a
-- directory where the names are those of its segments, represents the same records from the same
-- offset on, ready for more.
pub crash-open_dir :
    (l : Log) (b : ℕ) (all : List (List ℕ)) (entries : List DirEntry)
    → Represents l b all
    → AllSynced l.segments
    → ((x : ℕ) → named x entries ≡ contains x (bases l.segments))
    → (l' : Log) × (open_dir l.cfg (some entries) (crash_files l) ≡ done l') × Represents l' b all
unfolding open_dir
crash-open_dir l b all entries h synced names =
    let (l', opens, represents) = crash-new l b all h synced in
    (l', rw (names-bases l b all entries h names) opens, represents)
