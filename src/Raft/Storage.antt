-- ===== src/Raft/Storage.antt =====
-- src/raft/storage.rs: the file of the hard state. The term is 8 bytes, most significant first;
-- then 8 bytes for the length of the vote, 0 for no vote; then the bytes of the voted node's id.
pub mod RoundTrip
pub mod Interrupted
use raft_distributed_log_rs.Log.Io.{
  IoResult, done, failed, panicked, read_exact_at, set_len, write_at,
}
use raft_distributed_log_rs.Prelude.{
  Bool, List, Option, [], false, from_be, if◌then◌else◌, leb, length, ltb, none, some, suc, to_be,
  true, zero, ℕ, ◌&&◌, ◌+◌, ◌==◌, ◌∷◌,
}
use raft_distributed_log_rs.Raft.Types.{Result, State, ok, panic}

-- The lead byte of a UTF-8 sequence: how many bytes follow, and the range of the first of them.
abbrev lead : ℕ → Option (ℕ × ℕ × ℕ)
lead b =
    if ltb b 0x80
    then some (0, 0x80, 0xbf)
    else if ltb b 0xc2
    then none
    else if ltb b 0xe0
    then some (1, 0x80, 0xbf)
    else if b == 0xe0
    then some (2, 0xa0, 0xbf)
    else if b == 0xed
    then some (2, 0x80, 0x9f)
    else if ltb b 0xf0
    then some (2, 0x80, 0xbf)
    else if b == 0xf0
    then some (3, 0x90, 0xbf)
    else if ltb b 0xf4
    then some (3, 0x80, 0xbf)
    else if b == 0xf4
    then some (3, 0x80, 0x8f)
    else none

-- `String::from_utf8` accepts the bytes; `need` of them continue a sequence, the first of these
-- between `lo` and `hi`.
unfoldable pub utf8_from : ℕ → ℕ → ℕ → List ℕ → Bool
utf8_from zero lo hi [] = true
utf8_from (suc need) lo hi [] = false
utf8_from zero lo hi (b ∷ bs) = elim (lead b) [
  | none ↦ false
  | some (need, lo', hi') ↦ utf8_from need lo' hi' bs
]
utf8_from (suc need) lo hi (b ∷ bs) = leb lo b && leb b hi && utf8_from need 0x80 0xbf bs

unfoldable pub is_utf8 : List ℕ → Bool
unfolding utf8_from
is_utf8 = utf8_from 0 0x80 0xbf

-- A read that must succeed, then the rest; `expect` panics.
abbrev pub expect {ℓ} : {A : Type ℓ} → IoResult (List ℕ) → (List ℕ → Result A) → Result A
expect (done bytes) k = k bytes
expect (failed e) k = panic
expect panicked k = panic

-- The vote, once its length is known.
abbrev pub load_vote : List ℕ → ℕ → ℕ → Result State
load_vote file current_term voted_len =
    if voted_len == 0
    then ok (record { current_term = current_term; voted_for = none })
    else expect (read_exact_at file voted_len 16) λ bytes.
      if is_utf8 bytes
      then ok (record { current_term = current_term; voted_for = some (record { bytes = bytes }) })
      else panic

unfoldable pub load_state : List ℕ → Result State
load_state file =
    if length file == 0
    then ok (record { current_term = 0; voted_for = none })
    else expect (read_exact_at file 8 0) λ term_buf.
      expect (read_exact_at file 8 8)
        λ voted_len_buf. load_vote file (from_be term_buf) (from_be voted_len_buf)

-- The term and the length of the vote, as `save_state` writes them first.
unfoldable pub save_header : List ℕ → ℕ → ℕ → List ℕ
save_header file current_term size =
    write_at (write_at file 0 (to_be 8 current_term)) 8 (to_be 8 size)

unfoldable pub save_state : List ℕ → State → List ℕ
save_state file state = elim state.voted_for [
  | some voted_for ↦
      let size = length voted_for.bytes in
      set_len (16 + size) (write_at (save_header file state.current_term size) 16 voted_for.bytes)
  | none ↦ set_len 16 (save_header file state.current_term 0)
]
