-- ===== src/Raft/Tests/Storage.antt =====
-- src/raft/storage.rs, the module `tests`, on the bytes of the metadata file. A new storage has an
-- empty file, and a storage that is opened again has the bytes that were left.
use raft_distributed_log_rs.Log.Io.{read_exact_at, write_at}
use raft_distributed_log_rs.Log.Segmented.Directory.{list_eq}
use raft_distributed_log_rs.Prelude.{
  Bool, List, Option, [], all_pass, codes, false, from_be, length, none, refl, some, to_be, true,
  u64_mod, ℕ, ◌&&◌, ◌-◌, ◌==◌, ◌∷◌, ◌≡◌,
}
use raft_distributed_log_rs.Raft.Storage.{is_utf8, load_state, save_header, save_state}
use raft_distributed_log_rs.Raft.Tests.{state_eq}
use raft_distributed_log_rs.Raft.Types.{NodeId-discrete, State, err, ok, panic}

-- The helper `state`, with the bytes of the node's name.
abbrev state : ℕ → Option (List ℕ) → State
state current_term none = record { current_term = current_term; voted_for = none }
state current_term (some bytes) = record {
  current_term = current_term;
  voted_for = some (record { bytes = bytes });
}

-- `assert_state_eq` on what the file loads.
abbrev loads : List ℕ → State → Bool
loads file expected = elim (load_state file) [
  | ok actual ↦ state_eq actual expected
  | err e ↦ false
  | panic ↦ false
]

abbrev new_storage_loads_the_default_hard_state : Bool
new_storage_loads_the_default_hard_state = loads [] (state 0 none)

abbrev saves_and_loads_a_term_without_a_vote : Bool
saves_and_loads_a_term_without_a_vote =
    let expected = state 7 none in loads (save_state [] expected) expected

abbrev saves_and_loads_a_vote : Bool
saves_and_loads_a_vote =
    let expected = state 11 (some (codes "node-2")) in loads (save_state [] expected) expected

abbrev saved_state_survives_reopening_storage : Bool
saved_state_survives_reopening_storage =
    let expected = state 19 (some (codes "node-3")) in loads (save_state [] expected) expected

abbrev overwriting_a_vote_with_none_clears_it : Bool
overwriting_a_vote_with_none_clears_it =
    let initial = save_state [] (state 3 (some (codes "previous-candidate"))) in
    let expected = state 4 none in
    let file = save_state initial expected in loads file expected && length file == 16

abbrev overwriting_a_long_vote_with_a_shorter_vote_removes_trailing_bytes : Bool
overwriting_a_long_vote_with_a_shorter_vote_removes_trailing_bytes =
    let initial = save_state [] (state 8 (some (codes "a-very-long-candidate-id"))) in
    let expected = state 9 (some (codes "b")) in
    let file = save_state initial expected in loads file expected && length file == 17

-- The name of the test has two letters of two bytes and one of three.
abbrev round_trips_a_unicode_node_id : Bool
round_trips_a_unicode_node_id =
    let name = 0x6e ∷ 0xc3 ∷ 0xb3 ∷ 0x64 ∷ 0xc3 ∷ 0xab ∷ 0x2d ∷ 0xe4 ∷ 0xb8 ∷ 0x89 ∷ [] in
    let expected = state 21 (some name) in loads (save_state [] expected) expected

abbrev round_trips_the_largest_term : Bool
round_trips_the_largest_term =
    let expected = state (u64_mod - 1) (some (codes "node-max")) in
    loads (save_state [] expected) expected

abbrev writes_the_documented_binary_layout : Bool
writes_the_documented_binary_layout =
    let bytes = save_state [] (state 0x0102030405060708 (some (codes "abc"))) in
    list_eq bytes (1 ∷ 2 ∷ 3 ∷ 4 ∷ 5 ∷ 6 ∷ 7 ∷ 8 ∷ 0 ∷ 0 ∷ 0 ∷ 0 ∷ 0 ∷ 0 ∷ 0 ∷ 3 ∷ codes "abc")

abbrev separate_directories_do_not_share_state : Bool
separate_directories_do_not_share_state =
    let first_state = state 2 (some (codes "node-a")) in
    let second_state = state 15 (some (codes "node-b")) in
    loads (save_state [] first_state) first_state && loads (save_state [] second_state) second_state

storage_tests_pass :
    all_pass (
      new_storage_loads_the_default_hard_state ∷ saves_and_loads_a_term_without_a_vote
      ∷ saves_and_loads_a_vote ∷ saved_state_survives_reopening_storage
      ∷ overwriting_a_vote_with_none_clears_it
      ∷ overwriting_a_long_vote_with_a_shorter_vote_removes_trailing_bytes
      ∷ round_trips_a_unicode_node_id ∷ round_trips_the_largest_term
      ∷ writes_the_documented_binary_layout ∷ separate_directories_do_not_share_state ∷ [])
    ≡ true
unfolding load_state save_state save_header read_exact_at write_at is_utf8 from_be to_be
    NodeId-discrete
storage_tests_pass = refl
