-- ===== src/Log/Segment/Fresh.antt =====
-- src/log/segment.rs: a segment opened where there are no files yet.
use raft_distributed_log_rs.Log.Segment
use raft_distributed_log_rs.Log.Store
use raft_distributed_log_rs.Log.Index
use raft_distributed_log_rs.Log.Index.{Index}
use raft_distributed_log_rs.Log.Index.Entries.{Written, encode_entries}
use raft_distributed_log_rs.Log.Index.Recovery.{length-set_len}
use raft_distributed_log_rs.Log.Io.{done, set_len}
use raft_distributed_log_rs.Log.Segment.{Segment, SegmentFiles, opened, store_config}
use raft_distributed_log_rs.Log.Segment.Records.{HoldsRecords}
use raft_distributed_log_rs.Log.Segment.Reopen.{IsConfigured}
use raft_distributed_log_rs.Log.Store.{Store}
use raft_distributed_log_rs.Prelude.{
  [], ap, arith, inl, length, length-replicate, refl, replicate, sym, u64_mod, ℕ, ◌<◌, ◌∙◌, ◌≡◌,
}

abbrev pub no_files : SegmentFiles
no_files = record { store_file = []; index_file = [] }

-- The index of a new file.
abbrev fresh_index : ℕ → Index
fresh_index n = record { mmap = replicate (length (set_len n [])) 255; size = 0 }

fresh-Written : (n : ℕ) → Written (fresh_index n) []
fresh-Written n = record {
  padding = replicate (length (set_len n [])) 255;
  layout = unfold encode_entries in refl;
  counted = refl;
  blank =
      inl (ap (λ (k : ℕ). replicate k 255) (sym (length-replicate (length (set_len n [])) 255)));
}

abbrev pub fresh_segment : Segment.Config → ℕ → Segment
fresh_segment cfg base =
    opened cfg base (Store.new [] (store_config cfg)) (fresh_index cfg.max_index_bytes)

-- It opens, unless the index is to have no bytes.
pub new-no_files :
    (cfg : Segment.Config) (base : ℕ)
    → 0 < cfg.max_index_bytes
    → Segment.new cfg base no_files ≡ done (fresh_segment cfg base)
unfolding Segment.new Index.new
new-no_files cfg base h = ground arith

-- It holds no record.
pub fresh-HoldsRecords :
    (cfg : Segment.Config) (base : ℕ) → base < u64_mod → HoldsRecords (fresh_segment cfg base) []
unfolding Store.new
fresh-HoldsRecords cfg base h = record {
  positions = [];
  indexed = fresh-Written cfg.max_index_bytes;
  stored = tt;
  sized = refl;
  store_fits = omega arith;
  offsets_fit = omega arith;
  few = omega arith;
  next = omega arith;
}

pub fresh-IsConfigured :
    (cfg : Segment.Config) (base : ℕ)
    → 0 < cfg.max_index_bytes
    → IsConfigured (fresh_segment cfg base)
fresh-IsConfigured cfg base h = (
  length-replicate (length (set_len cfg.max_index_bytes [])) 255
      ∙ length-set_len cfg.max_index_bytes [],
  h,
)
