-- ===== src/Raft/Storage/RoundTrip.antt =====
-- src/raft/storage.rs: what is saved is loaded again.
use raft_distributed_log_rs.Log.Io.{
  copy_into, done, read_exact_at, read_exact_at-append, set_len, write_at,
}
use raft_distributed_log_rs.Prelude.{
  List, Option, Option-cases, [], ap, append-nil, append_assoc, arith, drop, drop-append, drop-drop,
  false, from_be-to_be, inl, inr, leb, length, length-append, length-to_be, none, refl, some, sym,
  take, take-append, to_be, true, u64_mod, ℕ, ◌++◌, ◌+◌, ◌-◌, ◌<◌, ◌==◌, ◌∙◌, ◌≡◌, ◌≤◌,
}
use raft_distributed_log_rs.Raft.Storage.{is_utf8, load_state, load_vote, save_header, save_state}
use raft_distributed_log_rs.Raft.Types.{NodeId, State, ok}

-- The layout of a saved state.
abbrev pub vote_bytes : Option NodeId → List ℕ
vote_bytes none = []
vote_bytes (some v) = v.bytes

abbrev pub layout : State → List ℕ
layout s =
    to_be 8 s.current_term ++ (to_be 8 (length (vote_bytes s.voted_for)) ++ vote_bytes s.voted_for)

copy_over :
    (xs ys new : List ℕ) (pos : ℕ)
    → length xs ≡ pos
    → copy_into (xs ++ ys) pos new ≡ xs ++ (new ++ drop (length new) ys)
unfolding copy_into
copy_over xs ys new pos at = rw (take-append xs ys pos at, ← drop-drop, drop-append xs ys pos at)

-- A write at the end of `xs` keeps `xs` and replaces what follows.
write_at-append :
    (xs ys new : List ℕ) (pos : ℕ)
    → length xs ≡ pos
    → write_at (xs ++ ys) pos new ≡ xs ++ (new ++ drop (length new) ys)
unfolding write_at
write_at-append xs ys new pos at =
    let fits : leb pos (length (xs ++ ys)) ≡ true = ground (arith, length-append xs ys) in
    rw fits (copy_over xs ys new pos at)

set_len-take : (n : ℕ) (bytes : List ℕ) → n ≤ length bytes → set_len n bytes ≡ take n bytes
unfolding set_len
set_len-take n bytes h =
    let e : n - length bytes ≡ 0 = omega arith in rw e (append-nil (take n bytes))

-- What stands before the vote in a saved file; `rest` is left of an older file.
pub save_header_lem :
    (file : List ℕ) (term size : ℕ)
    → save_header file term size
      ≡ to_be 8 term
        ++ (to_be 8 size ++ drop (length (to_be 8 size)) (drop (length (to_be 8 term)) file))
unfolding save_header
save_header_lem file term size = rw (write_at-append [] file (to_be 8 term) 0 refl) (
    write_at-append (to_be 8 term) (drop (length (to_be 8 term)) file) (to_be 8 size) 8
      (length-to_be 8 term))

pub length-header : (term size : ℕ) → length (to_be 8 term ++ to_be 8 size) ≡ 16
length-header term size =
    omega
      (arith, length-append (to_be 8 term) (to_be 8 size), length-to_be 8 term, length-to_be 8 size)

pub length-layout : (s : State) → length (layout s) ≡ 16 + length (vote_bytes s.voted_for)
length-layout s = omega (
  arith,
  length-append (to_be 8 s.current_term)
      (to_be 8 (length (vote_bytes s.voted_for)) ++ vote_bytes s.voted_for),
  length-append (to_be 8 (length (vote_bytes s.voted_for))) (vote_bytes s.voted_for),
  length-to_be 8 s.current_term,
  length-to_be 8 (length (vote_bytes s.voted_for)),
)

-- Cut to its length, a file that begins with the layout is the layout.
cut : (bytes ys : List ℕ) (n : ℕ) → length bytes ≡ n → set_len n (bytes ++ ys) ≡ bytes
cut bytes ys n size =
    set_len-take n (bytes ++ ys) (omega (arith, length-append bytes ys))
    ∙ take-append bytes ys n size

cut_header :
    (term size : ℕ) (ys : List ℕ)
    → set_len 16 (to_be 8 term ++ (to_be 8 size ++ ys)) ≡ to_be 8 term ++ (to_be 8 size ++ [])
cut_header term size ys = rw (← (append_assoc (to_be 8 term) (to_be 8 size) ys)) (
    cut (to_be 8 term ++ to_be 8 size) ys 16 (length-header term size)
    ∙ ap (◌++◌ (to_be 8 term)) (sym (append-nil (to_be 8 size))))

cut_vote :
    (term size : ℕ) (ys bytes : List ℕ)
    → length bytes ≡ size
    → set_len (16 + size) (write_at (to_be 8 term ++ (to_be 8 size ++ ys)) 16 bytes)
      ≡ to_be 8 term ++ (to_be 8 size ++ bytes)
cut_vote term size ys bytes e =
    rw
      (
        ← (append_assoc (to_be 8 term) (to_be 8 size) ys),
        ← (append_assoc (to_be 8 term) (to_be 8 size) bytes),
      )
      (rw (write_at-append (to_be 8 term ++ to_be 8 size) ys bytes 16 (length-header term size)) (
        rw (← (append_assoc (to_be 8 term ++ to_be 8 size) bytes (drop (length bytes) ys))) (
          cut ((to_be 8 term ++ to_be 8 size) ++ bytes) (drop (length bytes) ys) (16 + size) (
            omega (
              arith,
              length-append (to_be 8 term ++ to_be 8 size) bytes,
              length-header term size,
            )))))

-- The file after a save, whatever it held before: the term in 8 bytes, the length of the vote in 8
-- bytes, the bytes of the vote, and nothing behind them.
pub save_state-layout : (file : List ℕ) (s : State) → save_state file s ≡ layout s
unfolding save_state
save_state-layout file s = elim (Option-cases s.voted_for) [
  | inl e ↦ rw (e, save_header_lem file s.current_term 0) (cut_header s.current_term 0 _)
  | inr (v, e) ↦
      rw (e, save_header_lem file s.current_term (length v.bytes))
        (cut_vote s.current_term (length v.bytes) _ v.bytes refl)
]

-- What a node id that can be saved looks like: its length fits in 8 bytes, it is not empty, and it
-- is valid UTF-8, as every `String` is.
abbrev pub IsSavable : Option NodeId → Type 0
IsSavable none = Unit
IsSavable (some v) = (0 < length v.bytes) × (length v.bytes < u64_mod) × (is_utf8 v.bytes ≡ true)

pub load_header :
    (term size : ℕ) (bytes : List ℕ)
    → term < u64_mod
    → size < u64_mod
    → load_state (to_be 8 term ++ (to_be 8 size ++ bytes))
      ≡ load_vote (to_be 8 term ++ (to_be 8 size ++ bytes)) term size
unfolding load_state
load_header term size bytes small small' =
    let file = to_be 8 term ++ (to_be 8 size ++ bytes) in
    let nonempty : (length file == 0) ≡ false =
      ground (arith, length-append (to_be 8 term) (to_be 8 size ++ bytes), length-to_be 8 term) in
    let term_read : read_exact_at file 8 0 ≡ done (to_be 8 term) =
      read_exact_at-append [] (to_be 8 term) (to_be 8 size ++ bytes) 0 8 refl
        (length-to_be 8 term) in
    let size_read : read_exact_at file 8 8 ≡ done (to_be 8 size) =
      read_exact_at-append (to_be 8 term) (to_be 8 size) bytes 8 8 (length-to_be 8 term)
        (length-to_be 8 size) in
    rw
      (
        nonempty,
        term_read,
        size_read,
        from_be-to_be 8 term (omega arith),
        from_be-to_be 8 size (omega arith),
      )
      refl

load_bytes :
    (term : ℕ) (v : NodeId)
    → IsSavable (some v)
    → load_vote (to_be 8 term ++ (to_be 8 (length v.bytes) ++ v.bytes)) term (length v.bytes)
      ≡ ok (record { current_term = term; voted_for = some v })
load_bytes term v (nonempty, small, valid) =
    let file = to_be 8 term ++ (to_be 8 (length v.bytes) ++ v.bytes) in
    let some_vote : (length v.bytes == 0) ≡ false = ground arith in
    let vote_read : read_exact_at file (length v.bytes) 16 ≡ done v.bytes =
      rw (← (append_assoc (to_be 8 term) (to_be 8 (length v.bytes)) v.bytes)) (
        ap
          (λ (b : List ℕ).
            read_exact_at ((to_be 8 term ++ to_be 8 (length v.bytes)) ++ b) (length v.bytes) 16)
          (sym (append-nil v.bytes))
        ∙ (read_exact_at-append (to_be 8 term ++ to_be 8 (length v.bytes)) v.bytes [] 16
            (length v.bytes) (length-header term (length v.bytes)) refl)) in
    rw (some_vote, vote_read, valid) refl

load_layout :
    (term : ℕ) (vote : Option NodeId)
    → term < u64_mod
    → IsSavable vote
    → load_state (layout (record { current_term = term; voted_for = vote }))
      ≡ ok (record { current_term = term; voted_for = vote })
load_layout term none small savable = load_header term 0 [] small (omega arith)
load_layout term (some v) small savable =
    load_header term (length v.bytes) v.bytes small savable.1 ∙ load_bytes term v savable

-- A state that is saved, over whatever the file held, is the state that is loaded: the term, and
-- the vote or that there is none. The term and the length of the vote fit in 8 bytes, and the id of
-- the voted node is not empty and is valid UTF-8.
pub load_state-save_state :
    (file : List ℕ) (s : State)
    → s.current_term < u64_mod
    → IsSavable s.voted_for
    → load_state (save_state file s) ≡ ok s
load_state-save_state file s small savable =
    rw (save_state-layout file s) (load_layout s.current_term s.voted_for small savable)
