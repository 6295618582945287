-- ===== src/Log/Tests/Indexes.antt =====
-- src/log/index.rs, the module `test`. The index is a map of its file, so an index that is dropped
use raft_distributed_log_rs.Log.Index
use raft_distributed_log_rs.Log.Index.{Index, entire_width}
use raft_distributed_log_rs.Log.Io.{copy_into, set_len}
use raft_distributed_log_rs.Log.Tests.{is_eof, on_done}
use raft_distributed_log_rs.Prelude.{
  Bool, List, [], all_pass, from_be, length, refl, suc, to_be, true, zero, ℕ, ◌&&◌, ◌*◌, ◌+◌, ◌==◌,
  ◌∷◌, ◌≡◌,
}

-- leaves the bytes of its map.

abbrev config_for : ℕ → Index.Config
config_for entries = record { max_size_bytes = entries * entire_width }

-- `Index::new(..).unwrap()` on a file, and the rest of the test.
abbrev on_index : List ℕ → ℕ → (Index → Bool) → Bool
on_index file entries f = on_done (Index.new file (config_for entries)) f

-- The helper `payload`.
abbrev index_payload : ℕ → ℕ
index_payload i = 1000000 + i

-- A write that is unwrapped.
abbrev on_write : Index → ℕ → (Index → Bool) → Bool
on_write index i f = let w = Index.write index i (index_payload i) in on_done w.1 (λ u. f w.0)

-- The helper `index_write`: the loop over `n` entries, from entry `i` on, and the rest of the test.
abbrev writes_from : (n i : ℕ) → Index → (Index → Bool) → Bool
writes_from zero i index f = f index
writes_from (suc n) i index f =
    let w = Index.write index i (index_payload i) in
    let rest = writes_from n (i + 1) w.0 f in on_done w.1 (λ u. rest)

abbrev index_write : Index → (Index → Bool) → Bool
index_write index f = writes_from 4 0 index f

-- What a read returns, unwrapped.
abbrev is_entry : Index → ℕ → Bool
is_entry index i =
    on_done (Index.read index i) (λ entry. entry.0 == i && entry.1 == index_payload i)

-- The helper `index_read`.
abbrev index_read : Index → Bool
index_read index = is_entry index 0 && is_entry index 1 && is_entry index 2 && is_entry index 3

abbrev index_lifecycle : Bool
index_lifecycle = on_index [] 8 (λ index. index_write index (λ written. index_read written))

abbrev index_recovers_size_after_abrupt_drop : Bool
index_recovers_size_after_abrupt_drop = on_index [] 8 (λ index. index_write index (λ dropped.
    length dropped.mmap == 8 * entire_width
    && on_index dropped.mmap 8
        (λ reopened. reopened.size == 4 * entire_width && index_read reopened)))

abbrev index_close_truncates_file_on_clean_shutdown : Bool
index_close_truncates_file_on_clean_shutdown = on_index [] 8 (λ index. index_write index (λ written.
    length (Index.close written) == 4 * entire_width
    && on_index (Index.close written) 8
        (λ reopened. reopened.size == 4 * entire_width && index_read reopened)))

abbrev index_write_errors_when_full : Bool
index_write_errors_when_full = on_index [] 2 (λ index.
    on_write index 0
      (λ one. on_write one 1 (λ two. is_eof (Index.write two 2 (index_payload 2)).1)))

abbrev index_read_errors_when_out_of_range : Bool
index_read_errors_when_out_of_range =
    on_index [] 8 (λ index. on_write index 0 (λ one. is_eof (Index.read one 5)))

abbrev index_recovers_zero_size_when_nothing_written : Bool
index_recovers_zero_size_when_nothing_written =
    on_index [] 8 (λ dropped. on_index dropped.mmap 8 (λ reopened. reopened.size == 0))

abbrev index_recovers_full_size_when_completely_packed : Bool
index_recovers_full_size_when_completely_packed = on_index [] 4 (λ index.
    index_write index (λ dropped.
      on_index dropped.mmap 4
        (λ reopened. reopened.size == 4 * entire_width && index_read reopened)))

abbrev index_write_after_recovery_appends_correctly : Bool
index_write_after_recovery_appends_correctly = on_index [] 8 (λ index. index_write index (λ dropped.
    on_index dropped.mmap 8 (λ reopened.
      reopened.size == 4 * entire_width
      && on_write reopened 4 (λ five. is_entry five 4 && index_read five))))

abbrev index_len_reflects_bytes_written : Bool
index_len_reflects_bytes_written = on_index [] 8 (λ index.
    Index.len index == 0
    && on_write index 0 (λ one.
      Index.len one == entire_width && on_write one 1 (λ two. Index.len two == 2 * entire_width)))

abbrev index_current_offset_reflects_entries_written : Bool
index_current_offset_reflects_entries_written = on_index [] 8 (λ index.
    Index.current_offset index == 0
    && index_write index (λ written. Index.current_offset written == 4))

index_tests_pass :
    all_pass (
      index_lifecycle ∷ index_recovers_size_after_abrupt_drop
      ∷ index_close_truncates_file_on_clean_shutdown ∷ index_write_errors_when_full
      ∷ index_read_errors_when_out_of_range ∷ index_recovers_zero_size_when_nothing_written
      ∷ index_recovers_full_size_when_completely_packed
      ∷ index_write_after_recovery_appends_correctly ∷ index_len_reflects_bytes_written
      ∷ index_current_offset_reflects_entries_written ∷ [])
    ≡ true
unfolding Index.new Index.write Index.read Index.close copy_into set_len from_be to_be
    Index.recover_size Index.recover
index_tests_pass = refl
