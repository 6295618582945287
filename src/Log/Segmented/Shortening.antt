-- ===== src/Log/Segmented/Shortening.antt =====
-- src/log.rs: an append after `truncate` has removed the active segment.
use raft_distributed_log_rs.Log.Segmented
use raft_distributed_log_rs.Log.Segment
use raft_distributed_log_rs.Log.Index.{entire_width}
use raft_distributed_log_rs.Log.Io.{failed, io_error, unexpected_eof}
use raft_distributed_log_rs.Log.Segment.{Segment}
use raft_distributed_log_rs.Log.Segmented.{Log}
use raft_distributed_log_rs.Log.Segmented.Contents.{Chain, flatten}
use raft_distributed_log_rs.Log.Segmented.Faults.{HasFullIndex, full_index_sticks}
use raft_distributed_log_rs.Log.Segmented.Left.{All}
use raft_distributed_log_rs.Log.Segmented.Reading.{Contains}
use raft_distributed_log_rs.Log.Segmented.Truncation.{
  drops, length-pop, no_segment, pop-Chain, stops, truncate-Round,
}
use raft_distributed_log_rs.Prelude.{
  List, [], arith, get_elem?, length, refl, some, suc, true, zero, ℕ, ◌+◌, ◌<◌, ◌∷◌, ◌≡◌, ◌≤◌,
}

-- The index of the segment has no room for an entry.
abbrev pub IsFull : Segment → Type 0
IsFull s = length s.index.mmap < s.index.size + entire_width

All-pop : (P : Segment → Type 0) (ss : List Segment) → All P ss → All P (Segmented.pop ss)
unfolding Segmented.pop
All-pop P [] h = tt
All-pop P (s ∷ []) h = tt
All-pop P (s ∷ x ∷ ss) h = (h.0, All-pop P (x ∷ ss) h.1)

All-get_elem? :
    (P : Segment → Type 0) (ss : List Segment) (i : ℕ)
    → All P ss
    → i < length ss
    → (s : Segment) × (get_elem? ss i ≡ some s) × P s
All-get_elem? P [] i h lt = absurd (omega arith)
All-get_elem? P (s ∷ ss) zero h lt = (s, refl, h.0)
All-get_elem? P (s ∷ ss) (suc i) h lt = All-get_elem? P ss i h.1 (omega arith)

-- The segments begin at `b`, all are full, and the last one is active.
record AllFull (l : Log) (b : ℕ) : Type 0 where
  groups : List (List (List ℕ))
  chained : Chain b l.segments groups
  full : All IsFull l.segments
  active : l.active_index + 1 ≡ length l.segments

some_left :
    (b : ℕ) (ss : List Segment) (groups : List (List (List ℕ)))
    → Chain b ss groups
    → 0 < length (flatten groups)
    → 0 < length ss
some_left b [] [] c h = absurd (omega arith)
some_left b [] (rs ∷ groups) c h = absurd c
some_left b (s ∷ ss) groups c h = omega arith

drop_last-AllFull :
    (l : Log) (b off : ℕ) (s : Segment)
    → AllFull l b
    → b ≤ off
    → off < s.base_offset
    → Segmented.last? l.segments ≡ some s
    → AllFull (Segmented.drop_last l s) b
unfolding Segmented.drop_last
drop_last-AllFull l b off s h low high e =
    let (groups', rs, chain, split, base) = pop-Chain b l.segments h.groups s h.chained e in
    record {
      groups = groups';
      chained = chain;
      full = All-pop IsFull l.segments h.full;
      active = omega (
        arith,
        h.active,
        length-pop l.segments s e,
        base,
        some_left b (Segmented.pop l.segments) groups' chain (omega (arith, base)),
      );
    }

loop-AllFull :
    (fuel : ℕ) (l : Log) (b off : ℕ)
    → AllFull l b
    → b ≤ off
    → AllFull (Segmented.truncate_loop fuel l off) b
loop-AllFull zero l b off h low = unfold Segmented.truncate_loop in h
loop-AllFull (suc fuel) l b off h low = elim (truncate-Round fuel l off) [
  | no_segment e v ↦ rw v h
  | stops s e le v ↦ rw v h
  | drops s e lt v ↦ rw v (
      loop-AllFull fuel (Segmented.drop_last l s) b off (drop_last-AllFull l b off s h low lt e)
        low)
]

drops_last :
    (fuel : ℕ) (l : Log) (off : ℕ) (s : Segment)
    → Segmented.last? l.segments ≡ some s
    → off < s.base_offset
    → Segmented.truncate_loop (suc fuel) l off
      ≡ Segmented.truncate_loop fuel (Segmented.drop_last l s) off
unfolding Segmented.truncate_loop
drops_last fuel l off s e high =
    let lesser : Segment.is_lesser_than_range s off ≡ true = ground (arith, high) in
    rw (e, Segmented.truncate_loop) (rw lesser)

module _ (l : Log) (b off : ℕ) (all : List (List ℕ)) (s : Segment) (c : Contains l b all)
    (active : l.active_index + 1 ≡ length l.segments)
    (last_is : Segmented.last? l.segments ≡ some s) (full : All IsFull (Segmented.pop l.segments))
    (low : b ≤ off) (high : off < s.base_offset) where
  first_drop : AllFull (Segmented.drop_last l s) b
  unfolding Segmented.drop_last
  first_drop =
      let (groups', rs, chain, split, base) = pop-Chain b l.segments c.0 s c.1 last_is in
      record {
        groups = groups';
        chained = chain;
        full = full;
        active = omega (
          arith,
          active,
          length-pop l.segments s last_is,
          some_left b (Segmented.pop l.segments) groups' chain (omega (arith, base)),
        );
      }

  cut-AllFull : AllFull (Segmented.truncate l off) b
  unfolding Segmented.truncate
  cut-AllFull =
      let rest = length (Segmented.pop l.segments) in
      rw (length-pop l.segments s last_is, drops_last rest l off s last_is high)
        (loop-AllFull rest (Segmented.drop_last l s) b off first_drop low)

-- A truncation that removes the active segment, which is the last one, but not the first segment of
-- the log, where the indexes of the segments before the last one are full: it leaves an active
-- segment whose index is full, and the next append fails and leaves such a segment again.
pub truncate_sticks :
    (l : Log) (b off : ℕ) (all : List (List ℕ)) (payload : List ℕ) (s : Segment)
    → Contains l b all
    → l.active_index + 1 ≡ length l.segments
    → Segmented.last? l.segments ≡ some s
    → All IsFull (Segmented.pop l.segments)
    → b ≤ off
    → off < s.base_offset
    → ((Segmented.append (Segmented.truncate l off) payload).1
        ≡ failed (io_error unexpected_eof "index is full"))
      × HasFullIndex (Segmented.append (Segmented.truncate l off) payload).0
truncate_sticks l b off all payload s c active last_is full low high =
    let cut = cut-AllFull l b off all s c active last_is full low high in
    let t = Segmented.truncate l off in
    full_index_sticks t payload
      (All-get_elem? IsFull t.segments t.active_index cut.full (omega (arith, cut.active)))
