-- ===== src/Raft/Storage/Interrupted.antt =====
-- src/raft/storage.rs: two ways that a saved hard state does not come back.
use raft_distributed_log_rs.Log.Io.{read_exact_at}
use raft_distributed_log_rs.Prelude.{
  List, [], arith, drop, false, leb, length, length-append, length-drop, length-to_be, none, refl,
  some, to_be, u64_mod, ℕ, ◌++◌, ◌+◌, ◌<◌, ◌==◌, ◌∙◌, ◌≡◌,
}
use raft_distributed_log_rs.Raft.Storage.{load_state, load_vote, save_header, save_state}
use raft_distributed_log_rs.Raft.Storage.RoundTrip.{
  layout, length-layout, load_header, save_header_lem, save_state-layout, vote_bytes,
}
use raft_distributed_log_rs.Raft.Types.{State, ok, panic}

-- A vote for a node whose id is empty is saved with the length 0, and is loaded as no vote.
pub empty_vote_is_lost :
    (file : List ℕ) (term : ℕ)
    → term < u64_mod
    → load_state
        (save_state file (record { current_term = term; voted_for = some (record { bytes = [] }) }))
      ≡ ok (record { current_term = term; voted_for = none })
empty_vote_is_lost file term small =
    rw
      (save_state-layout file
        (record { current_term = term; voted_for = some (record { bytes = [] }) }))
      (load_header term 0 [] small (omega arith))

-- A vote that is longer than what is left of the file cannot be read.
load_short :
    (term size : ℕ) (bytes : List ℕ)
    → length bytes < size
    → load_vote (to_be 8 term ++ (to_be 8 size ++ bytes)) term size ≡ panic
unfolding read_exact_at
load_short term size bytes short =
    let nonzero : (size == 0) ≡ false = ground arith in
    let fails : leb (16 + size) (length (to_be 8 term ++ (to_be 8 size ++ bytes))) ≡ false =
      ground (
        arith,
        length-append (to_be 8 term) (to_be 8 size ++ bytes),
        length-append (to_be 8 size) bytes,
        length-to_be 8 term,
        length-to_be 8 size,
      ) in
    rw (nonzero, fails) refl

-- A save that stops after the term and the length are written, over a file with a shorter vote,
-- leaves a file that the next start of the node panics on.
pub interrupted_save_panics :
    (old : State) (term size : ℕ)
    → term < u64_mod
    → size < u64_mod
    → length (vote_bytes old.voted_for) < size
    → load_state (save_header (layout old) term size) ≡ panic
interrupted_save_panics old term size small small' longer =
    let left = drop (length (to_be 8 size)) (drop (length (to_be 8 term)) (layout old)) in
    let short : length left < size = omega (
      arith,
      length-drop (length (to_be 8 size)) (drop (length (to_be 8 term)) (layout old)),
      length-drop (length (to_be 8 term)) (layout old),
      length-layout old,
      length-to_be 8 term,
      length-to_be 8 size,
    ) in
    rw (save_header_lem (layout old) term size)
      (load_header term size left small small' ∙ load_short term size left short)
