-- ===== src/Log/Segmented/Examples.antt =====
-- src/log.rs: runs of whole calls on the small log.
use raft_distributed_log_rs.Log.Segmented
use raft_distributed_log_rs.Log.Store
use raft_distributed_log_rs.Log.Segment
use raft_distributed_log_rs.Log.Index
use raft_distributed_log_rs.Log.Examples.{first_record, log_0, log_0-Represents, log_0-Space}
use raft_distributed_log_rs.Log.Index.{Index}
use raft_distributed_log_rs.Log.Io.{
  copy_into, done, failed, io_error, set_len, unexpected_eof, write_at,
}
use raft_distributed_log_rs.Log.Segment.{Segment, SegmentFiles}
use raft_distributed_log_rs.Log.Segment.Fresh.{fresh_segment}
use raft_distributed_log_rs.Log.Segmented.{Log, segment_config}
use raft_distributed_log_rs.Log.Segmented.Appending.{Space, append-Represents}
use raft_distributed_log_rs.Log.Segmented.Contents.{Represents}
use raft_distributed_log_rs.Log.Segmented.Directory.{
  DirEntry, contains, file_name, index_suffix, open_dir, store_suffix,
}
use raft_distributed_log_rs.Log.Segmented.Directory.Decimals.{offset_of-file_name}
use raft_distributed_log_rs.Log.Segmented.Directory.Names.{named}
use raft_distributed_log_rs.Log.Segmented.Faults.{HasFullIndex}
use raft_distributed_log_rs.Log.Segmented.Left.{All}
use raft_distributed_log_rs.Log.Segmented.Lookup.{lookup, read-lookup}
use raft_distributed_log_rs.Log.Segmented.Reading.{Contains, Represents-Contains}
use raft_distributed_log_rs.Log.Segmented.Refinement.{
  append_answer, append_call, crash_call, log_calls, log_calls-list_calls, next_offset_answer,
  next_offset_call, read_answer, read_call, reopen_call, reopened_answer,
}
use raft_distributed_log_rs.Log.Segmented.Reopening.{close-open_dir}
use raft_distributed_log_rs.Log.Segmented.Shortening.{IsFull, truncate_sticks}
use raft_distributed_log_rs.Log.Segmented.Synced.{AllSynced, KeepsNothing, append-cfg}
use raft_distributed_log_rs.Log.Store.{Store}
use raft_distributed_log_rs.Prelude.{
  List, Option, [], ap, arith, false, from_be, length, none, refl, some, to_be, ℕ, ◌+◌, ◌∷◌, ◌≡◌,
}

-- The names of the files of one segment, from offset 1.
abbrev listing : List DirEntry
listing =
    record { name = file_name 1 store_suffix; is_dir = false }
    ∷ record { name = file_name 1 index_suffix; is_dir = false }
    ∷ []

abbrev log_1 : Log
log_1 = (Segmented.append log_0 first_record).0

log_1-Represents : Represents log_1 1 (first_record ∷ [])
log_1-Represents = (append-Represents log_0 1 [] first_record log_0-Represents log_0-Space).1

read-lookup_example :
    ((Segmented.read log_1 7).1 ≡ lookup 1 (first_record ∷ []) 7)
    × Represents (Segmented.read log_1 7).0 1 (first_record ∷ [])
read-lookup_example = read-lookup log_1 1 (first_record ∷ []) 7 log_1-Represents

names_listed : (x : ℕ) → named x listing ≡ contains x (1 ∷ [])
unfolding contains
names_listed x = let read = offset_of-file_name 1 (omega arith) in ground (arith, read.0, read.1)

close-open_dir_example :
    (disk : ℕ → SegmentFiles) × (l : Log) × (Segmented.close log_0 ≡ done disk)
    × (open_dir log_0.cfg (some listing) disk ≡ done l)
    × Represents l 1 []
close-open_dir_example = close-open_dir log_0 1 [] listing log_0-Represents names_listed

log_0-AllSynced : AllSynced log_0.segments
log_0-AllSynced = unfold Store.new in ((refl, refl), tt)

log_0-KeepsNothing : KeepsNothing log_0
log_0-KeepsNothing sync = log_0-AllSynced

log_calls-list_calls_example :
    ((log_calls log_0 (
        append_call first_record
        ∷ crash_call
        ∷ reopen_call
        ∷ read_call 1
        ∷ next_offset_call
        ∷ [])).1
      ≡ append_answer (done 1)
        ∷ reopened_answer
        ∷ reopened_answer
        ∷ read_answer (done first_record)
        ∷ next_offset_answer (some 2)
        ∷ [])
    × Represents
        (log_calls log_0 (
          append_call first_record
          ∷ crash_call
          ∷ reopen_call
          ∷ read_call 1
          ∷ next_offset_call
          ∷ [])).0
        1
        (first_record ∷ [])
log_calls-list_calls_example =
    log_calls-list_calls log_0 1 []
      (append_call first_record ∷ crash_call ∷ reopen_call ∷ read_call 1 ∷ next_offset_call ∷ [])
      log_0-Represents log_0-KeepsNothing
      (
        log_0-Space,
        (
          ap (λ (c : Segmented.Config). c.sync_writes) (append-cfg log_0 first_record),
          (tt, (tt, (tt, tt))),
        ),
      )

abbrev size_of : Option Segment → ℕ
size_of none = 0
size_of (some s) = s.store.size

log_1-Space : Space log_1 1 (first_record ∷ []) (9 ∷ [])
unfolding Segmented.append Segment.append Store.append Store.new Store.flush Store.buffer_write
    Index.write Segment.is_maxed Segment.new Index.new Index.recover_size Index.recover set_len
    copy_into write_at to_be from_be Segmented.new_segment Segmented.last? Segmented.pop
log_1-Space = record {
  store_space = λ s e. omega (arith, ap (λ (o : Option Segment). size_of o) e);
  offset_space = omega arith;
  count_space = omega arith;
}

-- Two records fill the index of the first segment.
abbrev log_2 : Log
log_2 = (Segmented.append log_1 (9 ∷ [])).0

log_2-Contains : Contains log_2 1 (first_record ∷ (9 ∷ []) ∷ [])
log_2-Contains =
    Represents-Contains log_2 1 (first_record ∷ (9 ∷ []) ∷ [])
      (append-Represents log_1 1 (first_record ∷ []) (9 ∷ []) log_1-Represents log_1-Space).1

abbrev segment_3 : Segment
segment_3 = fresh_segment (segment_config log_0.cfg) 3

log_2-last : Segmented.last? log_2.segments ≡ some segment_3
unfolding Segmented.append Segment.append Store.append Store.new Store.flush Store.buffer_write
    Index.write Segment.is_maxed Segment.new Index.new Index.recover_size Index.recover set_len
    copy_into write_at to_be from_be Segmented.new_segment Segmented.last? Segmented.pop
log_2-last = refl

log_2-active : log_2.active_index + 1 ≡ length log_2.segments
unfolding Segmented.append Segment.append Store.append Store.new Store.flush Store.buffer_write
    Index.write Segment.is_maxed Segment.new Index.new Index.recover_size Index.recover set_len
    copy_into write_at to_be from_be Segmented.new_segment Segmented.last? Segmented.pop
log_2-active = refl

log_2-IsFull : All IsFull (Segmented.pop log_2.segments)
unfolding Segmented.append Segment.append Store.append Store.new Store.flush Store.buffer_write
    Index.write Segment.is_maxed Segment.new Index.new Index.recover_size Index.recover set_len
    copy_into write_at to_be from_be Segmented.new_segment Segmented.last? Segmented.pop
log_2-IsFull = (omega arith, tt)

truncate_sticks_example :
    ((Segmented.append (Segmented.truncate log_2 2) first_record).1
      ≡ failed (io_error unexpected_eof "index is full"))
    × HasFullIndex (Segmented.append (Segmented.truncate log_2 2) first_record).0
truncate_sticks_example =
    truncate_sticks log_2 1 2 (first_record ∷ (9 ∷ []) ∷ []) first_record segment_3 log_2-Contains
      log_2-active log_2-last log_2-IsFull (omega arith) (omega arith)
