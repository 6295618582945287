-- ===== src/Raft/Runtime/Durability.antt =====
-- src/raft/runtime.rs with src/log.rs: what a crash of the process leaves of the writes that were
-- answered.
mod Examples
use raft_distributed_log_rs.Log.Segmented
use raft_distributed_log_rs.Log.Io.{done}
use raft_distributed_log_rs.Log.Segmented.{Log}
use raft_distributed_log_rs.Log.Segmented.Contents.{Represents}
use raft_distributed_log_rs.Log.Segmented.Crashing.{crash-open_dir, crash_files}
use raft_distributed_log_rs.Log.Segmented.Directory.{DirEntry, contains, open_dir}
use raft_distributed_log_rs.Log.Segmented.Directory.Names.{named}
use raft_distributed_log_rs.Log.Segmented.Files.{bases}
use raft_distributed_log_rs.Log.Segmented.Synced.{
  AllSynced, append-KeepsNothing, append-cfg, read-KeepsNothing,
}
use raft_distributed_log_rs.Prelude.{List, [], refl, some, subst, true, ℕ, ◌++◌, ◌∙◌, ◌∷◌, ◌≡◌}
use raft_distributed_log_rs.Raft.Runtime.Execution.{Ran}
use raft_distributed_log_rs.Raft.Runtime.Serving.{
  HasRoom, IsReliable, answer_all, one_write, record_of, records_of, run, run-apply_all,
}
use raft_distributed_log_rs.Raft.Runtime.Start.{Runtime, Services}
use raft_distributed_log_rs.Raft.Runtime.Writing.{LeadsAlone, after_write}
use raft_distributed_log_rs.Raft.Types.{RuntimeMessage}

-- The log writes synchronously, and keeps nothing back.
pub record IsDurable (l : Log) : Type 0 where
  pub synchronous : l.cfg.sync_writes ≡ true
  pub flushed : AllSynced l.segments

append-read-IsDurable :
    (l : Log) (bytes : List ℕ) (off : ℕ)
    → IsDurable l
    → IsDurable (Segmented.read (Segmented.append l bytes).0 off).0
unfolding Segmented.read
append-read-IsDurable l bytes off d =
    let same : (Segmented.append l bytes).0.cfg.sync_writes ≡ true =
      rw (append-cfg l bytes) d.synchronous in
    record {
      synchronous = same;
      flushed =
          read-KeepsNothing (Segmented.append l bytes).0 off
            (append-KeepsNothing l bytes (λ sync. d.flushed)) same;
    }

append-read-cfg :
    (l : Log) (bytes : List ℕ) (off : ℕ)
    → (Segmented.read (Segmented.append l bytes).0 off).0.cfg ≡ l.cfg
unfolding Segmented.read
append-read-cfg l bytes off = append-cfg l bytes

module _ {F : Type 0} (m : Services F) (good : IsReliable m) (R : Runtime F → Type 0)
    (each : (x : Runtime F) (payload : List ℕ) (reply : ℕ) (bytes : List ℕ) (n : ℕ)
      → R x
      → R (after_write m x payload reply bytes n)) where
  -- What every write keeps, a run of writes keeps.
  pub run_keeps :
      (ws : List RuntimeMessage) (rt : Runtime F) (b : ℕ) (all : List (List ℕ))
      → LeadsAlone rt b all
      → HasRoom m good rt b all ws
      → R rt
      → R (run m rt ws).0
  unfolding run
  run_keeps [] rt b all alone room r = r
  run_keeps (w ∷ ws) rt b all alone room r =
      let one = one_write m good rt b all w alone room.0 room.1 in
      let rest =
        run_keeps ws _ b _ one.1
          (subst
            (λ (ran : Ran F (Unit {0})).
              HasRoom m good ran.0 b (all ++ record_of m good rt.raft.current_term w ∷ []) ws)
            one.0 room.2)
          (each rt _ _ _ _ r) in
      rw one.0 rest

-- Writes that a leader of a cluster of one node has answered survive a crash of the process: the log
-- that is opened in the directory afterwards represents the records that the leader had, and one
-- entry behind them for each write, in order. The log writes synchronously and keeps nothing back,
-- the names in the directory are those of its segments, and the premises are those under which the
-- writes are served.
pub run-crash_files :
    (F : Type 0) (m : Services F) (good : IsReliable m) (ws : List RuntimeMessage) (rt : Runtime F)
    (b : ℕ) (all : List (List ℕ)) (entries : List DirEntry)
    → LeadsAlone rt b all
    → HasRoom m good rt b all ws
    → IsDurable rt.log
    → ((x : ℕ) → named x entries ≡ contains x (bases (run m rt ws).0.log.segments))
    → ((run m rt ws).0.replies ≡ answer_all rt.replies ws)
      × (l : Log) × (open_dir rt.log.cfg (some entries) (crash_files (run m rt ws).0.log) ≡ done l)
      × Represents l b (all ++ records_of m good rt.raft.current_term ws)
run-crash_files F m good ws rt b all entries alone room d names =
    let served = run-apply_all F m good ws rt b all alone room in
    let (durable, same) =
      run_keeps m good (λ x. IsDurable x.log × (x.log.cfg ≡ rt.log.cfg))
        (λ x payload reply bytes n r.
          (append-read-IsDurable x.log bytes n r.0, append-read-cfg x.log bytes n ∙ r.1))
        ws rt b all alone room (d, refl) in
    let (l, opens, represents) =
      crash-open_dir (run m rt ws).0.log b (all ++ records_of m good rt.raft.current_term ws)
        entries served.3.logged durable.flushed names in
    (served.2, l, rw same at opens, represents)
