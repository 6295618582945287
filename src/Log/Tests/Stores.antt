-- ===== src/Log/Tests/Stores.antt =====
-- src/log/store.rs, the module `test`.
use raft_distributed_log_rs.Log.Store
use raft_distributed_log_rs.Log.Io.{read_exact_at}
use raft_distributed_log_rs.Log.Segmented.Directory.{decimal}
use raft_distributed_log_rs.Log.Store.{Store}
use raft_distributed_log_rs.Log.Tests.{is_eof, numbered, reads}
use raft_distributed_log_rs.Prelude.{
  Bool, List, [], all_pass, false, from_be, length, refl, suc, to_be, true, zero, ℕ, ◌&&◌, ◌*◌, ◌+◌,
  ◌-◌, ◌==◌, ◌∷◌, ◌≡◌,
}

abbrev unsynced : Store.Config
unsynced = record { sync_writes = false }

-- The helper `payload`.
abbrev store_payload : ℕ → List ℕ
store_payload i = numbered "hello world " i

-- The helper `store_append`: the loop over `n` records, from record `i` on.
abbrev appends_from : (n i : ℕ) → Store → Store × Bool
appends_from zero i store = (store, true)
appends_from (suc n) i store =
    let a = Store.append store (store_payload i) in
    let rest = appends_from n (i + 1) a.0 in
    let width = length (store_payload i) + Store.length_width in
    (rest.0, a.1 == width && a.0.size - store.size == width && rest.1)

abbrev store_append : Store → Store × Bool
store_append store = appends_from 4 0 store

-- The helper `store_read`: the loop over `n` records, from record `i` at `pos` on.
abbrev reads_from : (n i pos : ℕ) → Store → Store × Bool
reads_from zero i pos store = (store, true)
reads_from (suc n) i pos store =
    let r = Store.read store pos in
    let width = length (store_payload i) + Store.length_width in
    let rest = reads_from n (i + 1) (pos + width) r.0 in
    (rest.0, reads r.1 (store_payload i) && rest.1)

abbrev store_read : Store → Store × Bool
store_read store = reads_from 4 0 0 store

-- After the close the file has all that was appended.
abbrev store_lifecycle : Store.Config → Bool
store_lifecycle config =
    let written = store_append (Store.new [] config) in
    let all_read = store_read written.0 in
    written.1 && all_read.1 && length (Store.close all_read.0).file == all_read.0.size

abbrev store_lifecycle_no_sync_writes : Bool
store_lifecycle_no_sync_writes = store_lifecycle (record { sync_writes = false })

abbrev store_lifecycle_sync_writes : Bool
store_lifecycle_sync_writes = store_lifecycle (record { sync_writes = true })

abbrev store_new_reopens_existing_file_with_correct_size : Bool
store_new_reopens_existing_file_with_correct_size =
    let written = store_append (Store.new [] unsynced) in
    let reopened = Store.new (Store.close written.0).file unsynced in
    let expected_size =
      4 * Store.length_width
      + length (store_payload 0)
      + length (store_payload 1)
      + length (store_payload 2)
      + length (store_payload 3) in
    written.1 && reopened.size == expected_size && (store_read reopened).1

abbrev store_read_errors_when_out_of_range : Bool
store_read_errors_when_out_of_range =
    is_eof (Store.read (Store.append (Store.new [] unsynced) (store_payload 0)).0 1000).1

abbrev store_append_empty_buffer_round_trips : Bool
store_append_empty_buffer_round_trips =
    let a = Store.append (Store.new [] unsynced) [] in
    a.1 == Store.length_width && reads (Store.read a.0 0).1 []

abbrev store_read_without_prior_flush : Bool
store_read_without_prior_flush =
    let a = Store.append (Store.new [] unsynced) (store_payload 0) in
    reads (Store.read a.0 0).1 (store_payload 0)

store_tests_pass :
    all_pass (
      store_lifecycle_no_sync_writes ∷ store_lifecycle_sync_writes
      ∷ store_new_reopens_existing_file_with_correct_size ∷ store_read_errors_when_out_of_range
      ∷ store_append_empty_buffer_round_trips ∷ store_read_without_prior_flush ∷ [])
    ≡ true
unfolding Store.new Store.append Store.read Store.close read_exact_at from_be to_be decimal
    Store.buffer_write Store.flush
store_tests_pass = refl
