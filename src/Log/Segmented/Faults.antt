-- ===== src/Log/Segmented/Faults.antt =====
-- src/log.rs: a log whose active index is full, and a log truncated below its first offset. The
-- first comes about where the index size is not a whole number of entries.
use raft_distributed_log_rs.Log.Segmented
use raft_distributed_log_rs.Log.Segment
use raft_distributed_log_rs.Log.Store
use raft_distributed_log_rs.Log.Index
use raft_distributed_log_rs.Log.Index.{Index, entire_width}
use raft_distributed_log_rs.Log.Io.{failed, io_error, panicked, unexpected_eof}
use raft_distributed_log_rs.Log.Segment.{Segment}
use raft_distributed_log_rs.Log.Segmented.{Log}
use raft_distributed_log_rs.Log.Segmented.Reading.{Contains}
use raft_distributed_log_rs.Log.Segmented.Truncation.{pop-Chain, truncate-Truncates, truncate_cuts}
use raft_distributed_log_rs.Log.Store.{Store}
use raft_distributed_log_rs.Prelude.{
  List, Option-cases, [], arith, get_elem?, inl, inr, length, none, refl, some, suc, zero, ℕ, ◌+◌,
  ◌<◌, ◌∷◌, ◌≡◌,
}

-- The active segment's index has no room for an entry.
abbrev pub HasFullIndex : Log → Type 0
HasFullIndex l =
    (s : Segment) × (get_elem? l.segments l.active_index ≡ some s)
    × (length s.index.mmap < s.index.size + entire_width)

get_elem?-set {ℓ} :
    {A : Type ℓ} (xs : List A) (i : ℕ) (x y : A)
    → get_elem? xs i ≡ some x
    → get_elem? (Segmented.set xs i y) i ≡ some y
get_elem?-set [] i x y e = cc
get_elem?-set (z ∷ xs) zero x y e = refl
get_elem?-set (z ∷ xs) (suc i) x y e = get_elem?-set xs i x y e

full_segment :
    (s : Segment) (payload : List ℕ)
    → length s.index.mmap < s.index.size + entire_width
    → Segment.append s payload ≡ (
      record s { store = (Store.append s.store payload).0 },
      failed (io_error unexpected_eof "index is full"),
    )
unfolding Segment.append Index.write
full_segment s payload full = ground arith

-- A full index of the active segment is never left behind: every append fails, and leaves an
-- active segment with a full index.
pub full_index_sticks :
    (l : Log) (payload : List ℕ)
    → HasFullIndex l
    → ((Segmented.append l payload).1 ≡ failed (io_error unexpected_eof "index is full"))
      × HasFullIndex (Segmented.append l payload).0
unfolding Segmented.append
full_index_sticks l payload (s, active, full) =
    let s' = record s { store = (Store.append s.store payload).0 } in
    rw (active, full_segment s payload full)
      (refl, (s', get_elem?-set l.segments l.active_index s s' active, full))

empty_of_last : (ss : List Segment) → Segmented.last? ss ≡ none → ss ≡ []
unfolding Segmented.last?
empty_of_last [] e = refl
empty_of_last (x ∷ []) e = cc
empty_of_last (x ∷ y ∷ ss) e = cc (empty_of_last (y ∷ ss) e)

truncate_below_empties :
    (l : Log) (b off : ℕ) (all : List (List ℕ))
    → Contains l b all
    → off < b
    → (Segmented.truncate l off).segments ≡ []
truncate_below_empties l b off all c below =
    let (kept, (groups, chain, joined), keeps) = truncate-Truncates l b off all c in
    let ss = (Segmented.truncate l off).segments in
    elim (Option-cases (Segmented.last? ss)) [
      | inl e ↦ empty_of_last ss e
      | inr (s, e) ↦
          let (groups', rs, chain', split, base) = pop-Chain b ss groups s chain e in
          absurd (omega (arith, base, truncate_cuts l off s e))
    ]

-- A truncation before the first offset of the log removes every segment, and every append after it
-- panics.
pub truncate_below_panics :
    (l : Log) (b off : ℕ) (all : List (List ℕ)) (payload : List ℕ)
    → Contains l b all
    → off < b
    → ((Segmented.truncate l off).segments ≡ [])
      × ((Segmented.append (Segmented.truncate l off) payload).1 ≡ panicked)
unfolding Segmented.append
truncate_below_panics l b off all payload c below =
    let empty = truncate_below_empties l b off all c below in (empty, rw empty refl)
