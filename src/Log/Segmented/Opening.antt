-- ===== src/Log/Segmented/Opening.antt =====
-- src/log.rs: `new` in a directory without files of a log.
use raft_distributed_log_rs.Log.Segmented
use raft_distributed_log_rs.Log.Index.{entire_width}
use raft_distributed_log_rs.Log.Io.{done}
use raft_distributed_log_rs.Log.Segment.{SegmentFiles}
use raft_distributed_log_rs.Log.Segment.Fresh.{
  fresh-HoldsRecords, fresh-IsConfigured, fresh_segment, new-no_files, no_files,
}
use raft_distributed_log_rs.Log.Segmented.{Log, segment_config}
use raft_distributed_log_rs.Log.Segmented.Contents.{Represents}
use raft_distributed_log_rs.Prelude.{[], arith, refl, u64_mod, ℕ, ◌%◌, ◌<◌, ◌∷◌, ◌≡◌}

abbrev no_disk : ℕ → SegmentFiles
no_disk off = no_files

-- The log of one fresh segment.
abbrev pub empty_log : Segmented.Config → Log
empty_log cfg = record {
  active_index = 0;
  disk = no_disk;
  cfg = cfg;
  segments = fresh_segment (segment_config cfg) cfg.inital_offset ∷ [];
}

-- A log that is opened where there are no files represents no record, from its initial offset on,
-- if its index has room for a whole number of entries, at least one.
pub new-Represents :
    (cfg : Segmented.Config)
    → 0 < cfg.max_size_bytes
    → cfg.max_size_bytes % entire_width ≡ 0
    → cfg.inital_offset < u64_mod
    → (Segmented.new cfg [] no_disk ≡ done (empty_log cfg))
      × Represents (empty_log cfg) cfg.inital_offset []
new-Represents cfg some_bytes aligned offset_fits = (
  opens,
  record {
    front = [];
    groups = [];
    act = fresh_segment (segment_config cfg) cfg.inital_offset;
    recent = [];
    shape = refl;
    contents = refl;
    active = refl;
    chained = tt;
    act_base = omega arith;
    act_holds = fresh-HoldsRecords (segment_config cfg) cfg.inital_offset offset_fits;
    act_mapped = fresh-IsConfigured (segment_config cfg) cfg.inital_offset some_bytes;
    act_cfg = refl;
    front_mapped = tt;
    filled = tt;
    ready = omega (
      arith,
      some_bytes,
      aligned,
      (fresh-IsConfigured (segment_config cfg) cfg.inital_offset some_bytes).0,
    );
    aligned = aligned;
    clean = λ off above. refl;
  },
)
  where
    opens : Segmented.new cfg [] no_disk ≡ done (empty_log cfg)
    opens =
        unfold Segmented.new Segmented.open_segments Segmented.new_segment in
        ground (arith, new-no_files (segment_config cfg) cfg.inital_offset some_bytes)
