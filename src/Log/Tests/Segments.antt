-- ===== src/Log/Tests/Segments.antt =====
-- src/log/segment.rs, the module `test`. `create_segment_files` makes two empty files.
use raft_distributed_log_rs.Log.Index
use raft_distributed_log_rs.Log.Segment
use raft_distributed_log_rs.Log.Store
use raft_distributed_log_rs.Log.Index.{Index, entire_width}
use raft_distributed_log_rs.Log.Io.{copy_into, read_exact_at, set_len}
use raft_distributed_log_rs.Log.Segment.{Segment}
use raft_distributed_log_rs.Log.Store.{Store}
use raft_distributed_log_rs.Log.Tests.{is_err, on_done, reads}
use raft_distributed_log_rs.Prelude.{
  Bool, List, [], all_pass, codes, false, from_be, ltb, not, refl, replicate, to_be, true, ℕ, ◌&&◌,
  ◌*◌, ◌+◌, ◌-◌, ◌==◌, ◌∷◌, ◌≡◌,
}

-- The helper `config`.
abbrev segment_test_config : (max_index_bytes max_store_bytes : ℕ) → Segment.Config
segment_test_config max_index_bytes max_store_bytes = record {
  max_index_bytes = max_index_bytes;
  max_store_bytes = max_store_bytes;
  sync_writes = false;
}

-- `Segment::new(..).unwrap()` after `create_segment_files`, and the rest of the test.
abbrev on_segment : Segment.Config → ℕ → (Segment → Bool) → Bool
on_segment cfg base_offset f =
    on_done (Segment.new cfg base_offset (record { store_file = []; index_file = [] })) f

-- An append that is unwrapped: the rest of the test with the segment and the offset.
abbrev on_append : Segment → List ℕ → (Segment → ℕ → Bool) → Bool
on_append segment payload f =
    let a = Segment.append segment payload in on_done a.1 (λ off. f a.0 off)

-- The comparison of the record at an offset.
abbrev has_record : Segment → ℕ → List ℕ → Bool
has_record segment off payload = reads (Segment.read segment off).1 payload

abbrev append_returns_incrementing_offsets : Bool
append_returns_incrementing_offsets = on_segment (segment_test_config 1024 1024) 0 (λ segment.
    on_append segment (codes "first") (λ one off_1. on_append one (codes "second") (λ two off_2.
      on_append two (codes "third")
        (λ three off_3. off_1 == 0 && off_2 == 1 && off_3 == 2 && three.next_offset == 3))))

abbrev append_and_read_round_trips_records : Bool
append_and_read_round_trips_records = on_segment (segment_test_config 1024 1024) 10 (λ segment.
    on_append segment (codes "alpha") (λ one off_1. on_append one (codes "beta") (λ two off_2.
      on_append two (codes "gamma") (λ three off_3.
        let first = Segment.read three off_1 in
        let second = Segment.read first.0 off_2 in
        let third = Segment.read second.0 off_3 in
        reads first.1 (codes "alpha")
        && reads second.1 (codes "beta")
        && reads third.1 (codes "gamma")))))

abbrev read_below_base_offset_errors : Bool
read_below_base_offset_errors =
    on_segment (segment_test_config 1024 1024) 5
      (λ segment. on_append segment (codes "data") (λ one off. is_err (Segment.read one (5 - 1)).1))

abbrev read_above_written_offset_errors : Bool
read_above_written_offset_errors = on_segment (segment_test_config 1024 1024) 0 (λ segment.
    on_append segment (codes "only one") (λ one off. is_err (Segment.read one (0 + 1)).1))

abbrev is_maxed_when_index_reaches_limit : Bool
is_maxed_when_index_reaches_limit = on_segment (segment_test_config entire_width 1024) 0 (λ segment.
    not (Segment.is_maxed segment)
    && on_append segment (codes "fills the only index slot") (λ one off. Segment.is_maxed one))

abbrev is_maxed_when_store_reaches_limit : Bool
is_maxed_when_store_reaches_limit = on_segment (segment_test_config 1024 20) 0 (λ segment.
    not (Segment.is_maxed segment)
    && on_append segment (replicate 12 0) (λ one off. Segment.is_maxed one))

abbrev read_unwritten_segment_errors : Bool
read_unwritten_segment_errors =
    on_segment (segment_test_config 1024 1024) 0 (λ segment. is_err (Segment.read segment 0).1)

abbrev append_empty_record_round_trips : Bool
append_empty_record_round_trips =
    on_segment (segment_test_config 1024 1024) 0
      (λ segment. on_append segment [] (λ one off. has_record one off []))

abbrev append_updates_store_and_index_sizes : Bool
append_updates_store_and_index_sizes = on_segment (segment_test_config 1024 1024) 0 (λ segment.
    Store.len segment.store == 0
    && Index.len segment.index == 0
    && on_append segment (codes "first") (λ one off_1.
      Store.len one.store == 8 + 5
      && Index.len one.index == entire_width
      && on_append one (codes "second") (λ two off_2.
        Store.len two.store == (8 + 5) + (8 + 6) && Index.len two.index == entire_width * 2)))

abbrev append_past_index_limit_errors : Bool
append_past_index_limit_errors = on_segment (segment_test_config entire_width 1024) 0 (λ segment.
    on_append segment (codes "one") (λ one off. is_err (Segment.append one (codes "two")).1))

abbrev append_beyond_store_limit_marks_segment_maxed : Bool
append_beyond_store_limit_marks_segment_maxed =
    on_segment (segment_test_config 1024 20) 0 (λ segment.
      not (Segment.is_maxed segment)
      && on_append segment (replicate 12 0) (λ one off_1.
        Segment.is_maxed one
        && on_append one (codes "extra")
            (λ two off_2. ltb (Store.len one.store) (Store.len two.store))))

abbrev is_not_maxed_when_under_both_limits : Bool
is_not_maxed_when_under_both_limits =
    on_segment (segment_test_config (entire_width * 4) 1024) 0
      (λ segment. on_append segment (codes "small") (λ one off. not (Segment.is_maxed one)))

abbrev lifecycle_with_sync_writes_enabled : Bool
lifecycle_with_sync_writes_enabled =
    on_segment (record (segment_test_config 1024 1024) { sync_writes = true }) 0
      (λ segment.
        on_append segment (codes "synced") (λ one off. has_record one off (codes "synced")))

segment_tests_pass :
    all_pass (
      append_returns_incrementing_offsets ∷ append_and_read_round_trips_records
      ∷ read_below_base_offset_errors ∷ read_above_written_offset_errors
      ∷ is_maxed_when_index_reaches_limit ∷ is_maxed_when_store_reaches_limit
      ∷ read_unwritten_segment_errors ∷ append_empty_record_round_trips
      ∷ append_updates_store_and_index_sizes ∷ append_past_index_limit_errors
      ∷ append_beyond_store_limit_marks_segment_maxed ∷ is_not_maxed_when_under_both_limits
      ∷ lifecycle_with_sync_writes_enabled ∷ [])
    ≡ true
unfolding Segment.new Segment.append Segment.read Segment.is_maxed Store.new Store.append Store.read
    Store.buffer_write Store.flush Index.new Index.write Index.read copy_into set_len read_exact_at
    from_be to_be
segment_tests_pass = refl
