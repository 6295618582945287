-- ===== src/Log/Examples.antt =====
-- src/log.rs, src/log: a small log, on which the theorems are run.
use raft_distributed_log_rs.Log.Segmented
use raft_distributed_log_rs.Log.Store
use raft_distributed_log_rs.Log.Index.{recover, recover_size}
use raft_distributed_log_rs.Log.Index.Prefix.{Recovered, recover_size-Recovered}
use raft_distributed_log_rs.Log.Io.{done, failed, io_error, panicked, unexpected_eof}
use raft_distributed_log_rs.Log.Segment.{Segment}
use raft_distributed_log_rs.Log.Segment.Fresh.{fresh_segment, no_files}
use raft_distributed_log_rs.Log.Segmented.{Log}
use raft_distributed_log_rs.Log.Segmented.Appending.{Space, append-Represents}
use raft_distributed_log_rs.Log.Segmented.Contents.{Represents}
use raft_distributed_log_rs.Log.Segmented.Directory.{
  DirEntry, contains, file_name, index_suffix, offset_of, parse, scan, sort, store_suffix,
}
use raft_distributed_log_rs.Log.Segmented.Directory.Decimals.{offset_of-file_name}
use raft_distributed_log_rs.Log.Segmented.Faults.{
  HasFullIndex, full_index_sticks, truncate_below_panics,
}
use raft_distributed_log_rs.Log.Segmented.Opening.{empty_log, new-Represents}
use raft_distributed_log_rs.Log.Segmented.Reading.{Contains, Represents-Contains}
use raft_distributed_log_rs.Log.Segmented.Truncation.{read-truncate}
use raft_distributed_log_rs.Log.Store.{Store}
use raft_distributed_log_rs.Prelude.{
  List, Option, [], ap, arith, false, from_be, none, refl, replicate, some, true, ℕ, ◌++◌, ◌∷◌, ◌≡◌,
}

-- Two entries in each segment.
abbrev small_config : Segmented.Config
small_config = record {
  inital_offset = 1;
  sync_writes = true;
  max_size_bytes = 24;
  max_store_bytes = 1024;
}

abbrev pub log_0 : Log
log_0 = empty_log small_config

pub log_0-Represents : Represents log_0 1 []
log_0-Represents = (new-Represents small_config (omega arith) refl (omega arith)).1

abbrev pub first_record : List ℕ
first_record = 7 ∷ 8 ∷ []

abbrev size_of : Option Segment → ℕ
size_of none = 0
size_of (some s) = s.store.size

pub log_0-Space : Space log_0 1 [] first_record
log_0-Space = record {
  store_space = λ s e. unfold Store.new in omega (arith, ap (λ (o : Option Segment). size_of o) e);
  offset_space = omega arith;
  count_space = omega arith;
}

log_1-Contains : Contains (Segmented.append log_0 first_record).0 1 (first_record ∷ [])
log_1-Contains =
    Represents-Contains _ 1 (first_record ∷ [])
      (append-Represents log_0 1 [] first_record log_0-Represents log_0-Space).1

read-truncate_example :
    (Segmented.read (Segmented.truncate (Segmented.append log_0 first_record).0 1) 1).1
    ≡ done first_record
read-truncate_example =
    read-truncate (Segmented.append log_0 first_record).0 1 1 (first_record ∷ []) 0 first_record
      log_1-Contains (omega arith) refl

truncate_below_panics_example :
    ((Segmented.truncate log_0 0).segments ≡ [])
    × ((Segmented.append (Segmented.truncate log_0 0) first_record).1 ≡ panicked)
truncate_below_panics_example =
    truncate_below_panics log_0 1 0 [] first_record
      (Represents-Contains log_0 1 [] log_0-Represents) (omega arith)

-- An index of 16 bytes, after its one entry.
abbrev odd : Segment
odd =
    record (fresh_segment
      (record { max_index_bytes = 16; max_store_bytes = 1024; sync_writes = true }) 1) {
        index = record { mmap = replicate 16 0; size = 12 };
        next_offset = 2;
      }

abbrev odd_log : Log
odd_log = record {
  active_index = 0;
  disk = λ off. no_files;
  cfg = record {
    inital_offset = 1;
    sync_writes = true;
    max_size_bytes = 16;
    max_store_bytes = 1024;
  };
  segments = odd ∷ [];
}

full_index_sticks_example :
    ((Segmented.append odd_log first_record).1 ≡ failed (io_error unexpected_eof "index is full"))
    × HasFullIndex (Segmented.append odd_log first_record).0
full_index_sticks_example = full_index_sticks odd_log first_record (odd, refl, omega arith)

-- Two files of one segment, a file of another kind, and a directory.
abbrev listing : List DirEntry
listing =
    record { name = 49 ∷ 50 ∷ index_suffix; is_dir = false }
    ∷ record { name = 49 ∷ 50 ∷ store_suffix; is_dir = false }
    ∷ record { name = 51 ∷ 46 ∷ 116 ∷ []; is_dir = false }
    ∷ record { name = 49 ∷ store_suffix; is_dir = true }
    ∷ []

offset_of-file_name_example :
    (offset_of (file_name 12 store_suffix) ≡ some 12)
    × (offset_of (file_name 12 index_suffix) ≡ some 12)
offset_of-file_name_example = offset_of-file_name 12 (omega arith)

-- The directory has the one offset.
listing-offsets : sort (scan listing []) ≡ 12 ∷ []
unfolding sort scan offset_of contains parse
listing-offsets = refl

-- A map with one entry, and a slot that was never written.
abbrev one_slot : List ℕ
one_slot = replicate 12 0 ++ replicate 12 255

one_slot-size : recover_size one_slot ≡ 12
unfolding recover_size recover from_be
one_slot-size = refl

recover_size-Recovered_example : Recovered one_slot 0 0 (recover_size one_slot)
recover_size-Recovered_example = recover_size-Recovered one_slot
