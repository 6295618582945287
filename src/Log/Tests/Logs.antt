-- ===== src/Log/Tests/Logs.antt =====
-- src/log.rs, the module `test`.
use raft_distributed_log_rs.Log.Index
use raft_distributed_log_rs.Log.Segment
use raft_distributed_log_rs.Log.Segmented
use raft_distributed_log_rs.Log.Store
use raft_distributed_log_rs.Log.Index.{Index, entire_width}
use raft_distributed_log_rs.Log.Io.{copy_into, read_exact_at, set_len}
use raft_distributed_log_rs.Log.Segment.{Segment, SegmentFiles}
use raft_distributed_log_rs.Log.Segmented.{Log}
use raft_distributed_log_rs.Log.Segmented.Directory.{
  DirEntry, contains, decimal, file_name, index_suffix, offset_of, open_dir, scan, sort,
  store_suffix,
}
use raft_distributed_log_rs.Log.Store.{Store}
use raft_distributed_log_rs.Log.Tests.{gives, is_err, numbered, on_done, reads}
use raft_distributed_log_rs.Prelude.{
  Bool, List, String, [], all_pass, codes, false, from_be, get_elem?, length, none, refl, some, suc,
  to_be, true, zero, ℕ, ◌&&◌, ◌++◌, ◌+◌, ◌==◌, ◌∷◌, ◌≡◌,
}

-- The helper `config`.
abbrev log_test_config : (max_index_bytes max_store_bytes : ℕ) → Segmented.Config
log_test_config max_index_bytes max_store_bytes = record {
  inital_offset = 0;
  sync_writes = false;
  max_size_bytes = max_index_bytes;
  max_store_bytes = max_store_bytes;
}

abbrev no_files : ℕ → SegmentFiles
no_files off = record { store_file = []; index_file = [] }

-- `Log::new(..).unwrap()` in a directory with these entries, whose segment files are empty, and the
-- rest of the test.
abbrev on_log_in : List DirEntry → Segmented.Config → (Log → Bool) → Bool
on_log_in entries cfg f = on_done (open_dir cfg (some entries) no_files) f

abbrev on_log : Segmented.Config → (Log → Bool) → Bool
on_log cfg f = on_log_in [] cfg f

abbrev file : List ℕ → DirEntry
file name = record { name = name; is_dir = false }

-- The names that `create_segment_files` makes.
abbrev segment_names : ℕ → List DirEntry
segment_names off = file (file_name off store_suffix) ∷ file (file_name off index_suffix) ∷ []

-- An append that is unwrapped: the rest of the test with the log and the offset.
abbrev on_log_append : Log → List ℕ → (Log → ℕ → Bool) → Bool
on_log_append log payload f = let a = Segmented.append log payload in on_done a.1 (λ off. f a.0 off)

-- A loop that appends `n` records, from number `i` on, and the rest of the test. The offsets that it
-- collects are the numbers.
abbrev appends_records : String → (n i : ℕ) → Log → (Log → Bool) → Bool
appends_records text zero i log f = f log
appends_records text (suc n) i log f =
    let a = Segmented.append log (numbered text i) in
    let rest = appends_records text n (i + 1) a.0 f in gives a.1 i && rest

-- A loop that reads `n` records back, from number `i` on.
abbrev reads_records : String → (n i : ℕ) → Log → Bool
reads_records text zero i log = true
reads_records text (suc n) i log =
    let r = Segmented.read log i in
    let rest = reads_records text n (i + 1) r.0 in reads r.1 (numbered text i) && rest

-- `log.segments[i].base_offset()`.
abbrev has_base : Log → ℕ → ℕ → Bool
has_base log i base = elim (get_elem? log.segments i) [
  | none ↦ false
  | some s ↦ s.base_offset == base
]

abbrev new_loads_existing_segments : Bool
new_loads_existing_segments =
    on_log_in (segment_names 0 ++ segment_names 16 ++ segment_names 32) (log_test_config 1024 1024)
      (λ log.
        length log.segments == 3
        && log.active_index == 2
        && has_base log 0 0
        && has_base log 1 16
        && has_base log 2 32)

abbrev append_and_read_single_record : Bool
append_and_read_single_record = on_log (log_test_config 1024 1024) (λ log.
    on_log_append log (codes "hello")
      (λ one off. off == 0 && reads (Segmented.read one off).1 (codes "hello")))

abbrev log_append_returns_incrementing_offsets : Bool
log_append_returns_incrementing_offsets = on_log (log_test_config 1024 1024) (λ log.
    on_log_append log (codes "a") (λ one off_1. on_log_append one (codes "b") (λ two off_2.
      on_log_append two (codes "c") (λ three off_3. off_1 == 0 && off_2 == 1 && off_3 == 2))))

abbrev read_across_segments : Bool
read_across_segments =
    on_log (log_test_config entire_width 1024)
      (λ log. appends_records "record-" 4 0 log (λ filled. reads_records "record-" 4 0 filled))

abbrev read_out_of_range_errors : Bool
read_out_of_range_errors =
    on_log (log_test_config 1024 1024)
      (λ log. on_log_append log (codes "only one") (λ one off. is_err (Segmented.read one 1).1))

abbrev close_closes_all_segments : Bool
close_closes_all_segments = on_log (log_test_config entire_width 1024) (λ log.
    on_log_append log (codes "one") (λ one off_1.
      on_log_append one (codes "two") (λ two off_2. on_done (Segmented.close two) (λ disk. true))))

-- The second log finds the files that the first one left.
abbrev reopen_loads_all_segments : Bool
reopen_loads_all_segments =
    let cfg = log_test_config entire_width 1024 in
    let names = segment_names 0 ++ segment_names 1 ++ segment_names 2 ++ segment_names 3 in
    on_log cfg (λ log. appends_records "rec-" 3 0 log (λ filled.
      on_done (Segmented.close filled) (λ disk.
        on_done (open_dir cfg (some names) disk)
          (λ reopened. length reopened.segments == 4 && reads_records "rec-" 3 0 reopened))))

abbrev new_errors_on_missing_directory : Bool
new_errors_on_missing_directory = is_err (open_dir (log_test_config 1024 1024) none no_files)

abbrev truncate_at_offset_beyond_all_segments_is_noop : Bool
truncate_at_offset_beyond_all_segments_is_noop = on_log (log_test_config 1024 1024) (λ log.
    on_log_append log (codes "zero") (λ one off_1.
      on_log_append one (codes "one")
        (λ two off_2. length (Segmented.truncate two 100).segments == length two.segments)))

abbrev truncate_to_zero_retains_only_first_segment : Bool
truncate_to_zero_retains_only_first_segment = on_log (log_test_config entire_width 1024) (λ log.
    on_log_append log (codes "zero") (λ one off_1. on_log_append one (codes "one") (λ two off_2.
      on_log_append two (codes "two") (λ three off_3.
        let cut = Segmented.truncate three 0 in
        length three.segments == 4
        && length cut.segments == 1
        && cut.active_index == 0
        && has_base cut 0 0
        && reads (Segmented.read cut 0).1 (codes "zero")))))

abbrev read_on_empty_log_errors : Bool
read_on_empty_log_errors =
    on_log (log_test_config 1024 1024) (λ log. is_err (Segmented.read log 0).1)

abbrev new_ignores_unrelated_and_non_numeric_files : Bool
new_ignores_unrelated_and_non_numeric_files =
    let entries =
      file (codes "notes.txt")
      ∷ file (codes "abc.store")
      ∷ record { name = codes "subdir"; is_dir = true }
      ∷ [] in
    on_log_in entries (log_test_config 1024 1024)
      (λ log. length log.segments == 1 && has_base log 0 0)

abbrev append_and_read_multiple_records_within_single_segment : Bool
append_and_read_multiple_records_within_single_segment = on_log (log_test_config 1024 1024) (λ log.
    appends_records "rec-" 5 0 log (λ filled.
      length filled.segments == 1 && filled.active_index == 0 && reads_records "rec-" 5 0 filled))

opening_tests_pass :
    all_pass (
      new_loads_existing_segments ∷ new_errors_on_missing_directory
      ∷ new_ignores_unrelated_and_non_numeric_files ∷ read_on_empty_log_errors ∷ [])
    ≡ true
unfolding open_dir Segmented.new Segmented.open_segments Segmented.new_segment Segment.new Index.new
    Segmented.read Segmented.read_segments sort scan offset_of decimal contains
opening_tests_pass = refl

log_tests_pass :
    all_pass (
      append_and_read_single_record ∷ log_append_returns_incrementing_offsets ∷ read_across_segments
      ∷ read_out_of_range_errors ∷ close_closes_all_segments ∷ reopen_loads_all_segments
      ∷ truncate_at_offset_beyond_all_segments_is_noop ∷ truncate_to_zero_retains_only_first_segment
      ∷ append_and_read_multiple_records_within_single_segment ∷ [])
    ≡ true
unfolding open_dir Segmented.new Segmented.open_segments Segmented.new_segment Segment.new Index.new
    Segmented.read Segmented.read_segments sort scan offset_of decimal contains Segmented.append
    Segment.append Segment.read Segment.is_maxed Segmented.close Segmented.close_files
    Segmented.truncate Segmented.truncate_loop Segmented.drop_last Segmented.last? Segmented.pop
    Segmented.delete_files Segment.close Store.new Store.append Store.read Store.buffer_write
    Store.flush Store.close Index.write Index.read Index.recover Index.recover_size Index.close
    copy_into set_len read_exact_at from_be to_be
log_tests_pass = refl
