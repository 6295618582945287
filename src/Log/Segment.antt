-- ===== src/Log/Segment.antt =====
-- src/log/segment.rs: a store and its index, for the offsets from a base on. `+` and `-` on u64
-- wrap, and `as u32` keeps the low 32 bits.
pub mod Records
pub mod Reopen
pub mod Fresh
use raft_distributed_log_rs.Log.Store
use raft_distributed_log_rs.Log.Index
use raft_distributed_log_rs.Log.Index.{Index}
use raft_distributed_log_rs.Log.Io.{IoResult, done, failed, invalid_input, io_error, panicked}
use raft_distributed_log_rs.Log.Store.{Store}
use raft_distributed_log_rs.Prelude.{
  Bool, List, if◌then◌else◌, leb, ltb, u32_mod, wrapping_add, wrapping_sub, ℕ, ◌%◌, ◌&&◌, ◌-◌, ◌||◌,
}

pub record Config : Type 0 where
  pub max_index_bytes : ℕ
  pub max_store_bytes : ℕ
  pub sync_writes : Bool

pub record Segment : Type 0 where
  pub cfg : Config
  pub index : Index
  pub store : Store
  pub next_offset : ℕ
  pub base_offset : ℕ

-- The bytes of the two files of a segment.
pub record SegmentFiles : Type 0 where
  pub store_file : List ℕ
  pub index_file : List ℕ

abbrev pub store_config : Config → Store.Config
store_config cfg = record { sync_writes = cfg.sync_writes }

abbrev pub index_config : Config → Index.Config
index_config cfg = record { max_size_bytes = cfg.max_index_bytes }

-- The end of `new`, once the index is open.
abbrev pub opened : Config → ℕ → Store → Index → Segment
opened cfg base_offset store index = record {
  cfg = cfg;
  index = index;
  store = store;
  next_offset =
      if ltb 0 (Index.len index)
      then wrapping_add base_offset (Index.current_offset index)
      else base_offset;
  base_offset = base_offset;
}

-- `new`, from the bytes of the two files, which are empty where they are created.
unfoldable pub new : Config → ℕ → SegmentFiles → IoResult Segment
new cfg base_offset files =
    let store = Store.new files.store_file (store_config cfg) in
    elim (Index.new files.index_file (index_config cfg)) [
      | done index ↦ done (opened cfg base_offset store index)
      | failed e ↦ failed e
      | panicked ↦ panicked
    ]

-- What the index write means for the append: the record is in the store by then.
abbrev pub appended : Segment → Store → Index × IoResult (Unit {0}) → Segment × IoResult ℕ
appended s store (index, done _) = (
  record s { store = store; index = index; next_offset = wrapping_add s.next_offset 1 },
  done s.next_offset,
)
appended s store (index, failed e) = (record s { store = store; index = index }, failed e)
appended s store (index, panicked) = (record s { store = store; index = index }, panicked)

unfoldable pub append : Segment → List ℕ → Segment × IoResult ℕ
append s payload =
    let pos = Store.len s.store in
    appended s (Store.append s.store payload).0
      (Index.write s.index (wrapping_sub s.next_offset s.base_offset % u32_mod) pos)

-- The store is read at the position that the index names.
abbrev pub read_store : Segment → IoResult (ℕ × ℕ) → Segment × IoResult (List ℕ)
read_store s (done (_, pos)) =
    (record s { store = (Store.read s.store pos).0 }, (Store.read s.store pos).1)
read_store s (failed e) = (s, failed e)
read_store s panicked = (s, panicked)

unfoldable pub read : Segment → ℕ → Segment × IoResult (List ℕ)
read s off =
    if ltb off s.base_offset || leb s.next_offset off
    then (s, failed (io_error invalid_input "offset out of range"))
    else read_store s (Index.read s.index ((off - s.base_offset) % u32_mod))

unfoldable pub is_maxed : Segment → Bool
is_maxed s =
    leb s.cfg.max_index_bytes (Index.len s.index) || leb s.cfg.max_store_bytes (Store.len s.store)

abbrev pub is_in_range : Segment → ℕ → Bool
is_in_range s off = leb s.base_offset off && ltb off s.next_offset

abbrev pub is_greater_than_range : Segment → ℕ → Bool
is_greater_than_range s off = leb s.next_offset off

abbrev pub is_lesser_than_range : Segment → ℕ → Bool
is_lesser_than_range s off = ltb off s.base_offset

-- The files that `close` leaves. The index is not used after that.
unfoldable pub close : Segment → SegmentFiles
close s = record { store_file = (Store.close s.store).file; index_file = Index.close s.index }

-- The files that a crash leaves: what the BufWriter still held is lost.
unfoldable pub crash : Segment → SegmentFiles
crash s = record { store_file = s.store.file; index_file = s.index.mmap }
